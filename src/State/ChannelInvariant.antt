-- ===== src/State/ChannelInvariant.antt =====
-- The fresh cache of src/state.rs has the invariant, and the steps on its map of timelines keep it.
use diddycord.Base.{ℕ, ◌≡◌, refl, sym, false, List, Str, str_eq_iff, arith, has}
use mathlib.Core.Path.{subst}
use diddycord.Base.Search.{All-modify_first, length-modify_first}
use diddycord.Base.Keys.{modify_first-Distinct}
use diddycord.Events.{FrontendEvent}
use diddycord.Topology.Invariant
use diddycord.State.Cache.{FrontendState, entry_key, new, is_retired_channel}
use diddycord.Topology.Cache.{default}
use diddycord.State.Ops.{advance, write_entry, ensure_channel, modify_channel}
use diddycord.State.Valid.{IsLive, FitsEntry, IsTimeline, IsValid}
use diddycord.State.Eviction.{ensure_channel-IsValid, ensure_channel-limit}

-- A new state is valid, whatever limits it is given.
pub new-IsValid : (channels messages : ℕ) → IsValid (new channels messages)
unfolding new default
new-IsValid channels messages = record {
  channel_limit = omega arith;
  message_limit = omega arith;
  channel_room = omega arith;
  channel_ids = tt;
  timelines = tt;
  live = tt;
  retired_room = omega arith;
  topology = Invariant.with_limits-IsValid 256 512 512;
}

-- The clock is no part of the invariant.
pub advance-IsValid : (s : FrontendState) → IsValid s → IsValid (advance s)
advance-IsValid s v = record {
  channel_limit = v.channel_limit;
  message_limit = v.message_limit;
  channel_room = v.channel_room;
  channel_ids = v.channel_ids;
  timelines = v.timelines;
  live = v.live;
  retired_room = v.retired_room;
  topology = v.topology;
}

pub modify_channel-IsValid :
    (s : FrontendState) (id : Str) (touched : ℕ) (f : List FrontendEvent → List FrontendEvent)
    → IsValid s
    → ((events : List FrontendEvent)
        → IsTimeline s.max_messages_per_channel id events
        → IsTimeline s.max_messages_per_channel id (f events))
    → IsValid (modify_channel s id touched f)
unfolding modify_channel
modify_channel-IsValid s id touched f v keep = record {
  channel_limit = v.channel_limit;
  message_limit = v.message_limit;
  channel_room = omega (
    arith,
    length-modify_first (has entry_key id) (write_entry touched f) s.channels,
    v.channel_room,
  );
  channel_ids =
      modify_first-Distinct entry_key (has entry_key id) (write_entry touched f) (λ e _. refl)
        s.channels v.channel_ids;
  timelines =
      All-modify_first (has entry_key id) (FitsEntry s.max_messages_per_channel)
        (write_entry touched f) s.channels
        (λ e here fits.
          let same : e.0 ≡ id = (str_eq_iff e.0 id).0 here in
          subst (λ k. IsTimeline s.max_messages_per_channel k (f e.1.messages)) (sym same)
            (keep e.1.messages
              (subst (λ k. IsTimeline s.max_messages_per_channel k e.1.messages) same fits)))
        v.timelines;
  live =
      All-modify_first (has entry_key id) (IsLive s.retired_channels) (write_entry touched f)
        s.channels (λ e _ h. h) v.live;
  retired_room = v.retired_room;
  topology = v.topology;
}

-- A write to a channel that is made to exist first.
pub upsert_channel-IsValid :
    (s : FrontendState) (id : Str) (f : List FrontendEvent → List FrontendEvent)
    → is_retired_channel s id ≡ false
    → IsValid s
    → ((events : List FrontendEvent)
        → IsTimeline s.max_messages_per_channel id events
        → IsTimeline s.max_messages_per_channel id (f events))
    → let t = advance s in IsValid (modify_channel (ensure_channel t id t.clock) id t.clock f)
unfolding is_retired_channel
upsert_channel-IsValid s id f live v keep =
    let t = advance s in
    let same = ensure_channel-limit t id t.clock in
    modify_channel-IsValid (ensure_channel t id t.clock) id t.clock f
      (ensure_channel-IsValid t id t.clock live (advance-IsValid s v))
      (λ events h.
        subst (λ n. IsTimeline n id (f events)) (sym same)
          (keep events (subst (λ n. IsTimeline n id events) same h)))
