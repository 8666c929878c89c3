-- ===== src/Direct/Invariant.antt =====
-- The invariant of src/gateway/direct.rs, which every event keeps.
use diddycord.Base.{
  ℕ, ◌≤◌, ◌<◌, ◌≡◌, refl, ap, inl, inr, Bool, false, [], Str, u64_max, arith, length,
  length-push_back, All, All-push_back, All-imp, any, lacks, Distinct, leb, if_cases, sat_add, ◌++◌,
  ◌∷◌,
}
use diddycord.Base.Search.{All-retain, All-modify_first, length-retain-le, length-modify_first}
use diddycord.Base.Keys.{push_back-Distinct, retain-Distinct, modify_first-Distinct}
use diddycord.Base.Oldest.{
  oldest-IsOldest, length-remove_at, remove_at-Distinct, All-remove_at, any-remove_at,
}
use diddycord.Base.Text.{str_eq_sound}
use diddycord.Events.{
  FrontendDirectChannel, FrontendEvent, message, message_update, message_delete,
  direct_channel_create, direct_channel_update, direct_channel_delete,
}
use diddycord.Direct.Cache.{
  CachedDirectChannel, DirectTopologyState, direct_key, has_direct, new, evict_least_recently_used,
  insert_channel, upsert, touch, apply,
}

abbrev pub IsPast : ℕ → CachedDirectChannel → Type 0
IsPast clock c = c.touched ≤ clock

pub record IsValid (s : DirectTopologyState) : Type 0 where
  pub limit : 0 < s.max_channels
  pub room : length s.channels ≤ s.max_channels
  pub ids : Distinct direct_key s.channels
  pub past : All (IsPast s.clock) s.channels
  pub clock_range : s.clock ≤ u64_max
  pub dropped_range : s.dropped_items ≤ u64_max

pub new-IsValid : (max_channels : ℕ) → IsValid (new max_channels)
unfolding new
new-IsValid max_channels = ground arith

module _ (s : DirectTopologyState) (v : IsValid s) where
  later : All (IsPast (sat_add s.clock 1)) s.channels
  later =
      All-imp (IsPast s.clock) (IsPast (sat_add s.clock 1)) s.channels
        (λ c h. omega (arith, v.clock_range)) v.past

  ticked : IsValid (record s { clock = sat_add s.clock 1 })
  unfolding later
  ticked = record {
    limit = v.limit;
    room = v.room;
    ids = v.ids;
    past = later;
    clock_range = omega arith;
    dropped_range = v.dropped_range;
  }

  push-IsValid :
      (c : CachedDirectChannel)
      → length s.channels < s.max_channels
      → any (has_direct (direct_key c)) s.channels ≡ false
      → c.touched ≤ s.clock
      → IsValid (record s { channels = s.channels ++ c ∷ [] })
  push-IsValid c space absent past = record {
    limit = v.limit;
    room = omega (arith, length-push_back s.channels c);
    ids = push_back-Distinct direct_key s.channels c absent v.ids;
    past = All-push_back (IsPast s.clock) s.channels c v.past past;
    clock_range = v.clock_range;
    dropped_range = v.dropped_range;
  }

insert_channel-IsValid :
    (s : DirectTopologyState) (c : FrontendDirectChannel)
    → IsValid s
    → any (has_direct c.id) s.channels ≡ false
    → IsValid (insert_channel s c s.clock)
unfolding insert_channel
insert_channel-IsValid s c v absent =
    let fresh : CachedDirectChannel = record { channel = c; touched = s.clock } in
    if_cases
      (λ (t : DirectTopologyState). IsValid (record t { channels = t.channels ++ fresh ∷ [] }))
      (leb s.max_channels (length s.channels))
      (λ full. elim (oldest-IsOldest (λ (c : CachedDirectChannel). c.touched) s.channels) [
        | inl (_, e) ↦ absurd (ground (arith, v.limit, ap length e))
        | inr (i, g, e, o) ↦
            let count = length-remove_at i g s.channels o.at in
            let evicted : IsValid (evict_least_recently_used s) =
              rw (e, evict_least_recently_used)
                (record {
                  limit = v.limit;
                  room = omega (arith, count, v.room);
                  ids = remove_at-Distinct direct_key i s.channels v.ids;
                  past = All-remove_at _ i s.channels v.past;
                  clock_range = v.clock_range;
                  dropped_range = omega arith;
                }) in
            push-IsValid (evict_least_recently_used s) evicted fresh
              (rw (e, evict_least_recently_used) (omega (arith, count, v.room)))
              (rw (e, evict_least_recently_used)
                (any-remove_at (has_direct c.id) i s.channels absent))
              (rw (e, evict_least_recently_used) (omega arith))
      ])
      (λ room. push-IsValid s v fresh (ground arith) absent (omega arith))

module _ (s : DirectTopologyState) (v : IsValid s) where
  upsert-IsValid : (c : FrontendDirectChannel) → IsValid (upsert s c)
  unfolding upsert
  upsert-IsValid c =
      if_cases IsValid (any (has_direct c.id) s.channels)
        (λ known. record {
          limit = v.limit;
          room = omega (
            arith,
            length-modify_first (has_direct c.id)
                (λ _. record { channel = c; touched = sat_add s.clock 1 }) s.channels,
            v.room,
          );
          ids =
              modify_first-Distinct direct_key (has_direct c.id) _
                (λ d h. ground (arith, str_eq_sound d.channel.id c.id h)) s.channels v.ids;
          past =
              All-modify_first (has_direct c.id) (IsPast (sat_add s.clock 1)) _ s.channels
                (λ d _ _. omega arith) (ticked s v).past;
          clock_range = omega arith;
          dropped_range = v.dropped_range;
        })
        (λ absent. insert_channel-IsValid _ c (ticked s v) absent)

  touch-IsValid : (id : Str) → IsValid (touch s id).0
  unfolding touch
  touch-IsValid id =
      if_cases (λ (r : DirectTopologyState × Bool). IsValid r.0) (any (has_direct id) s.channels)
        (λ known. record {
          limit = v.limit;
          room = omega (
            arith,
            length-modify_first (has_direct id) (λ c. record c { touched = sat_add s.clock 1 })
                s.channels,
            v.room,
          );
          ids = modify_first-Distinct direct_key (has_direct id) _ (λ d h. refl) s.channels v.ids;
          past =
              All-modify_first (has_direct id) (IsPast (sat_add s.clock 1)) _ s.channels
                (λ d _ _. omega arith) (ticked s v).past;
          clock_range = omega arith;
          dropped_range = v.dropped_range;
        })
        (λ absent. v)

-- Every gateway event keeps the cache of direct channels valid: at most `max_channels` channels, no
-- two with one id, their stamps no later than the clock, and the counters within u64.
pub apply_direct-IsValid :
    (s : DirectTopologyState) (event : FrontendEvent) → IsValid s → IsValid (apply s event).0
unfolding apply
apply_direct-IsValid s (direct_channel_create c) v = upsert-IsValid s v c
apply_direct-IsValid s (direct_channel_update c) v = upsert-IsValid s v c
apply_direct-IsValid s (direct_channel_delete delete) v = record {
  limit = v.limit;
  room = omega (arith, length-retain-le (lacks direct_key delete.channel_id) s.channels, v.room);
  ids = retain-Distinct direct_key _ s.channels v.ids;
  past = All-retain _ _ s.channels v.past;
  clock_range = v.clock_range;
  dropped_range = v.dropped_range;
}
apply_direct-IsValid s (message m) v = touch-IsValid s v m.channel_id
apply_direct-IsValid s (message_update update) v = touch-IsValid s v update.channel_id
apply_direct-IsValid s (message_delete delete) v = touch-IsValid s v delete.channel_id
apply_direct-IsValid s _ v = v
