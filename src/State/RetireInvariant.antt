-- ===== src/State/RetireInvariant.antt =====
-- Retiring channels and lifting tombstones keep the invariant of src/state.rs.
use diddycord.Base.{
  ◌≤◌, ◌<◌, ◌≡◌, ◌∙◌, Bool, true, false, not, List, [], ◌∷◌, Str, str_eq, str_eq_iff, arith, leb,
  length, length-push_back, length-pop_front, push_back, pop_front, All, All-imp, any, retain,
  lacks, if_cases, if◌then◌else◌,
}
use diddycord.Base.Search.{any-retain, any-append, All-retain, retain-Holds, length-retain-le}
use diddycord.Base.Keys.{retain-Distinct}
use diddycord.Events.{FrontendEvent}
use diddycord.State.Cache.{Entry, FrontendState, entry_key}
use diddycord.State.Retire.{
  max_retired, retire_channel, unretire_channel, retire_all, unretire_all,
  invalidate_topology_timelines, restore_topology_timelines, retired_by, restored_by,
}
use diddycord.State.Valid.{IsLive, FitsEntry, IsValid}

-- The tombstone that a full FIFO makes room for.
abbrev room_for : FrontendState → List Str
room_for s =
    if leb (max_retired s) (length s.retired_channels)
    then pop_front s.retired_channels
    else s.retired_channels

any-room_for :
    (s : FrontendState) (p : Str → Bool)
    → any p s.retired_channels ≡ false
    → any p (room_for s) ≡ false
any-room_for s p h =
    if_cases (λ xs. any p xs ≡ false) (leb (max_retired s) (length s.retired_channels))
      (λ _. pop s.retired_channels h) (λ _. h)
  where
    pop : (xs : List Str) → any p xs ≡ false → any p (pop_front xs) ≡ false
    pop [] k = k
    pop (x ∷ xs) k = unfold any in ground (arith, k)

room_for-lt :
    (s : FrontendState)
    → length s.retired_channels ≤ max_retired s
    → length (room_for s) < max_retired s
room_for-lt s h =
    if_cases (λ xs. length xs < max_retired s) (leb (max_retired s) (length s.retired_channels))
      (λ _. omega (arith, length-pop_front s.retired_channels)) (λ room. ground arith)

-- A channel other than the one that is retired stays live.
keep-IsLive :
    (s : FrontendState) (id : Str) (e : Entry)
    → lacks entry_key id e ≡ true
    → IsLive s.retired_channels e
    → IsLive (push_back (room_for s) id) e
unfolding any
keep-IsLive s id e other live =
    any-append (λ r. str_eq r e.0) (room_for s) (id ∷ [])
    ∙ ground (arith, any-room_for s (λ r. str_eq r e.0) live, str_eq_iff id e.0, str_eq_iff e.0 id)

All-both {κ ρ} :
    (P : Entry → Type κ) (Q : Entry → Type ρ) (es : List Entry)
    → All P es
    → All Q es
    → All (λ e. P e × Q e) es
All-both P Q [] p q = tt
All-both P Q (e ∷ es) p q = ((p.0, q.0), All-both P Q es p.1 q.1)

retire_channel-IsValid : (s : FrontendState) (id : Str) → IsValid s → IsValid (retire_channel s id)
unfolding retire_channel
retire_channel-IsValid s id v =
    let rest = retain (lacks entry_key id) s.channels in
    let live : All (IsLive s.retired_channels) rest =
      All-retain _ (IsLive s.retired_channels) s.channels v.live in
    let gone = record s { channels = rest } in
    let size = length-retain-le (lacks entry_key id) s.channels in
    let kept : IsValid gone = record {
      channel_limit = v.channel_limit;
      message_limit = v.message_limit;
      channel_room = omega (arith, size, v.channel_room);
      channel_ids = retain-Distinct entry_key _ s.channels v.channel_ids;
      timelines = All-retain _ (FitsEntry _) s.channels v.timelines;
      live = live;
      retired_room = v.retired_room;
      topology = v.topology;
    } in
    if_cases IsValid (any (λ r. str_eq r id) s.retired_channels) (λ _. kept)
      (λ fresh. record {
        channel_limit = v.channel_limit;
        message_limit = v.message_limit;
        channel_room = kept.channel_room;
        channel_ids = kept.channel_ids;
        timelines = kept.timelines;
        live =
            All-imp (λ e. (lacks entry_key id e ≡ true) × IsLive s.retired_channels e) _ rest
              (λ e h. keep-IsLive s id e h.0 h.1)
              (All-both (λ e. lacks entry_key id e ≡ true) (IsLive s.retired_channels) rest
                (retain-Holds (lacks entry_key id) s.channels) live);
        retired_room =
            omega (arith, length-push_back (room_for s) id, room_for-lt s v.retired_room);
        topology = v.topology;
      })

unretire_channel-IsValid :
    (s : FrontendState) (id : Str) → IsValid s → IsValid (unretire_channel s id)
unfolding unretire_channel
unretire_channel-IsValid s id v = record {
  channel_limit = v.channel_limit;
  message_limit = v.message_limit;
  channel_room = v.channel_room;
  channel_ids = v.channel_ids;
  timelines = v.timelines;
  live =
      All-imp (IsLive s.retired_channels) _ s.channels
        (λ e h. any-retain _ (λ r. str_eq r e.0) s.retired_channels h) v.live;
  retired_room =
      omega (arith, length-retain-le (λ r. not (str_eq r id)) s.retired_channels, v.retired_room);
  topology = v.topology;
}

retire_all-IsValid : (s : FrontendState) (ids : List Str) → IsValid s → IsValid (retire_all s ids)
unfolding retire_all
retire_all-IsValid s [] v = v
retire_all-IsValid s (id ∷ ids) v =
    retire_all-IsValid (retire_channel s id) ids (retire_channel-IsValid s id v)

unretire_all-IsValid :
    (s : FrontendState) (ids : List Str) → IsValid s → IsValid (unretire_all s ids)
unfolding unretire_all
unretire_all-IsValid s [] v = v
unretire_all-IsValid s (id ∷ ids) v =
    unretire_all-IsValid (unretire_channel s id) ids (unretire_channel-IsValid s id v)

pub unretire-IsValid : (s : FrontendState) (id : Str) → IsValid s → IsValid (unretire_channel s id)
unretire-IsValid = unretire_channel-IsValid

pub invalidate-IsValid :
    (s : FrontendState) (event : FrontendEvent)
    → IsValid s
    → IsValid (invalidate_topology_timelines s event)
unfolding invalidate_topology_timelines
invalidate-IsValid s event v = retire_all-IsValid s (retired_by s.topology event) v

pub restore-IsValid :
    (s : FrontendState) (event : FrontendEvent)
    → IsValid s
    → IsValid (restore_topology_timelines s event)
unfolding restore_topology_timelines
restore-IsValid s event v = unretire_all-IsValid s (restored_by event) v
