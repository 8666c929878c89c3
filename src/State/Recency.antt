-- ===== src/State/Recency.antt =====
-- Which timeline of src/state.rs goes when a message of a new channel meets a full cache.
mod Tests
use mathlib.Core.Path.{subst}
use diddycord.Base.{
  ℕ, suc, sat_add, push_back, modify_first, ◌≤◌, ◌≡◌, refl, sym, ap, ◌∙◌, inl, inr, Bool, true,
  false, List, [], ◌∷◌, Option, none, some, Str, str_eq, str_eq_iff, str_eq_refl, arith, any, find,
  leb, length, has, All, Distinct, if◌then◌else◌, Bool-cases, Option-cases, ◌==◌,
}
use diddycord.Base.Search.{find_absent, find-Holds}
use diddycord.Base.Finds.{drop_first, modify_first-push_back}
use diddycord.Base.Oldest.{At, remove_at, any-remove_at}
use diddycord.Events.{FrontendEvent, FrontendMessage, message}
use diddycord.State.Cache.{
  Entry, FrontendState, entry_key, empty_timeline, find_channel, is_retired_channel, timeline,
}
use diddycord.State.Timeline.{put_message}
use diddycord.State.Ops.{
  advance, apply, apply_message, ensure_channel, evict_least_recently_used_channel, min_touched,
  modify_channel, write_entry,
}
use diddycord.State.Eviction.{min_touched-any, min_touched-least, min_touched-none}
use diddycord.State.Reads.{timeline-advance, timeline-modify_channel_ne}
use diddycord.State.Messages.{apply-message, apply_message-timeline}
use diddycord.State.Sends.{any-find}
use diddycord.State.Valid.{IsValid}

-- The first match that goes stands at an index.
drop_first-remove_at :
    (p : Entry → Bool) (es : List Entry)
    → any p es ≡ true
    → (i : ℕ) × (victim : Entry) × At i victim es
      × (p victim ≡ true)
      × (drop_first p es ≡ remove_at i es)
unfolding any drop_first remove_at
drop_first-remove_at p [] h = absurd cc
drop_first-remove_at p (e ∷ es) h = elim (Bool-cases (p e)) [
  | inl here ↦ (0, e, refl, here, ground (arith, here))
  | inr other ↦
      let (i, victim, at, hit, same) = drop_first-remove_at p es (ground (arith, h, other)) in
      (suc i, victim, at, hit, ground (arith, other, same))
]

-- The least recently used timeline goes, and no other does.
evict-timelines :
    (s : FrontendState)
    → 1 ≤ length s.channels
    → (i : ℕ) × (victim : Entry) × At i victim s.channels
      × All (λ (e : Entry). victim.1.touched ≤ e.1.touched) s.channels
      × ((evict_least_recently_used_channel s).channels ≡ remove_at i s.channels)
unfolding evict_least_recently_used_channel
evict-timelines s some_channel = elim (Option-cases (min_touched s.channels)) [
  | inl e ↦ absurd (omega (arith, ap length (min_touched-none s.channels e)))
  | inr (o, e) ↦
      let p = λ (x : Entry). x.1.touched == o in
      let (i, victim, at, hit, same) =
        drop_first-remove_at p s.channels (min_touched-any s.channels o e) in
      let stamp : victim.1.touched ≡ o = ground (arith, hit) in
      (
        i,
        victim,
        at,
        subst (λ k. All (λ (x : Entry). k ≤ x.1.touched) s.channels) (sym stamp)
            (min_touched-least s.channels o e),
        rw (e, evict_least_recently_used_channel) same,
      )
]

timeline-absent :
    (s : FrontendState) (id : Str) → any (has entry_key id) s.channels ≡ false → timeline s id ≡ []
unfolding timeline
timeline-absent s id absent = rw (find_absent (has entry_key id) s.channels absent, timeline) refl

put_message-nil : (limit : ℕ) (m : FrontendMessage) → put_message limit m [] ≡ message m ∷ []
unfolding put_message
put_message-nil limit m = ground arith

-- The channels after a message of a channel that is not cached, in a full cache.
full-channels :
    (s : FrontendState) (m : FrontendMessage) (i : ℕ)
    → is_retired_channel s m.channel_id ≡ false
    → any (has entry_key m.channel_id) s.channels ≡ false
    → s.max_channels ≤ length s.channels
    → (evict_least_recently_used_channel (advance s)).channels ≡ remove_at i s.channels
    → (apply_message s m).channels
      ≡ push_back
          (remove_at i s.channels)
          (m.channel_id, record { messages = message m ∷ []; touched = sat_add s.clock 1 })
unfolding apply_message ensure_channel modify_channel empty_timeline
full-channels s m i live absent full evicted =
    let id = m.channel_id in
    let clock = sat_add s.clock 1 in
    let write = write_entry clock (put_message s.max_messages_per_channel m) in
    let is_full : leb s.max_channels (length s.channels) ≡ true = ground (arith, full) in
    rw (live, absent, is_full)
      (ap
          (λ (es : List Entry).
            modify_first (has entry_key id) write (push_back es (id, empty_timeline clock)))
          evicted
        ∙ modify_first-push_back (has entry_key id) write (id, empty_timeline clock)
            (remove_at i s.channels) (str_eq_refl id)
            (any-remove_at (has entry_key id) i s.channels absent)
        ∙ ap
            (λ (events : List FrontendEvent).
              push_back (remove_at i s.channels)
                (id, record { messages = events; touched = clock }))
            (put_message-nil s.max_messages_per_channel m))

-- A message of a new live channel that meets a full cache takes the place of one timeline, which no
-- other channel's was touched before: this one timeline is gone, all others are as they were and in
-- their order, and the new channel's timeline, the message alone, stands behind them with the
-- newest stamp.
pub apply_message-full :
    (s : FrontendState) (m : FrontendMessage)
    → IsValid s
    → is_retired_channel s m.channel_id ≡ false
    → any (has entry_key m.channel_id) s.channels ≡ false
    → s.max_channels ≤ length s.channels
    → let t = apply s (message m) in
      (i : ℕ) × (victim : Entry) × At i victim s.channels
      × All (λ (e : Entry). victim.1.touched ≤ e.1.touched) s.channels
      × (t.channels
          ≡ push_back
              (remove_at i s.channels)
              (m.channel_id, record { messages = message m ∷ []; touched = sat_add s.clock 1 }))
      × (timeline t m.channel_id ≡ message m ∷ [])
apply_message-full s m v live absent full =
    let (i, victim, at, least, evicted) =
      evict-timelines (advance s) (omega (arith, full, v.channel_limit)) in
    (
      i,
      victim,
      at,
      least,
      ap (λ (u : FrontendState). u.channels) (apply-message s m)
          ∙ full-channels s m i live absent full evicted,
      apply_message-timeline s m live
          ∙ ap (put_message s.max_messages_per_channel m) (timeline-absent s m.channel_id absent)
          ∙ put_message-nil s.max_messages_per_channel m,
    )
