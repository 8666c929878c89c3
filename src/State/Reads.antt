-- ===== src/State/Reads.antt =====
-- What the read methods of src/state.rs see after a message, an update, a deletion or a page of
-- history for a channel: `timeline` commutes with the operations on one timeline.
use diddycord.Base.{
  ℕ, ◌≡◌, refl, sym, ap, ◌∙◌, inl, inr, false, List, [], Option, none, some, Str, str_eq,
  str_eq_iff, str_eq_refl, arith, leb, length, push_back, find, has, Option-cases, if_cases,
}
use mathlib.Core.Option
use diddycord.Base.Search.{modify_first_absent, find-modify_first_ne, find-none}
use diddycord.Base.Finds.{find-modify_first, find-push_back, find-any}
use diddycord.Events.{FrontendEvent}
use diddycord.State.Cache.{Entry, FrontendState, entry_key, find_channel, timeline, empty_timeline}
use diddycord.State.Ops.{
  advance, write_entry, ensure_channel, modify_channel, evict_least_recently_used_channel,
}
use diddycord.State.Eviction.{any-evict}

timeline_of :
    (s : FrontendState) (id : Str) (o : Option Entry)
    → find_channel s id ≡ o
    → timeline s id ≡ (elim o as (λ _. List FrontendEvent) [ none ↦ [] | some e ↦ e.1.messages ])
unfolding timeline
timeline_of s id o e =
    ap
      (λ (o : Option Entry). elim o as (λ _. List FrontendEvent) [
        | none ↦ []
        | some e ↦ e.1.messages
      ])
      e

-- A channel that has an entry is written through it.
timeline-modify_channel :
    (s : FrontendState) (id : Str) (touched : ℕ) (f : List FrontendEvent → List FrontendEvent)
    (e : Entry)
    → find_channel s id ≡ some e
    → timeline (modify_channel s id touched f) id ≡ f (timeline s id)
unfolding modify_channel
timeline-modify_channel s id touched f e h =
    timeline_of (modify_channel s id touched f) id (some (write_entry touched f e)) (
      find-modify_first (has entry_key id) (write_entry touched f) s.channels (λ e k. k)
      ∙ ap (Option.map (write_entry touched f)) h)
    ∙ ap f (sym (timeline_of s id (some e) h))

-- Other channels are not.
pub timeline-modify_channel_ne :
    (s : FrontendState) (id other : Str) (touched : ℕ) (f : List FrontendEvent → List FrontendEvent)
    → str_eq id other ≡ false
    → timeline (modify_channel s id touched f) other ≡ timeline s other
unfolding modify_channel timeline
timeline-modify_channel_ne s id other touched f ne =
    ap
      (λ (o : Option Entry). elim o as (λ _. List FrontendEvent) [
        | none ↦ []
        | some e ↦ e.1.messages
      ])
      (find-modify_first_ne (has entry_key id) (has entry_key other) (write_entry touched f)
        s.channels (λ e h. ground (arith, str_eq_iff e.0 id))
        (λ e h. ground (arith, str_eq_iff e.0 id)))

-- A channel that is made to exist has an entry, with the timeline that it had, or an empty one.
ensure_channel-entry :
    (s : FrontendState) (id : Str) (touched : ℕ)
    → (e : Entry) × (find_channel (ensure_channel s id touched) id ≡ some e)
      × (e.1.messages ≡ timeline s id)
unfolding ensure_channel empty_timeline
ensure_channel-entry s id touched = elim (Option-cases (find_channel s id)) [
  | inr (e, h) ↦
      (e, rw (find-any (has entry_key id) e s.channels h) h, sym (timeline_of s id (some e) h))
  | inl h ↦
      let absent = find-none (has entry_key id) s.channels h in
      let fresh : Entry = (id, empty_timeline touched) in
      (
        fresh,
        rw absent (
            if_cases
              (λ (room : FrontendState).
                find (has entry_key id) (push_back room.channels fresh) ≡ some fresh)
              (leb s.max_channels (length s.channels))
              (λ _.
                find-push_back (has entry_key id) fresh
                  (evict_least_recently_used_channel s).channels (str_eq_refl id)
                  (any-evict s (has entry_key id) absent))
              (λ _. find-push_back (has entry_key id) fresh s.channels (str_eq_refl id) absent)),
        sym (timeline_of s id none h),
      )
]

-- So what is written to it is written to that timeline.
pub timeline-upsert_channel :
    (s : FrontendState) (id : Str) (touched : ℕ) (f : List FrontendEvent → List FrontendEvent)
    → timeline (modify_channel (ensure_channel s id touched) id touched f) id ≡ f (timeline s id)
timeline-upsert_channel s id touched f =
    let (e, h, same) = ensure_channel-entry s id touched in
    let t = ensure_channel s id touched in
    timeline-modify_channel t id touched f e h ∙ ap f (timeline_of t id (some e) h ∙ same)

-- A timeline that is not cached stays so under a write with nothing to find.
pub timeline-modify_channel_id :
    (s : FrontendState) (id : Str) (touched : ℕ) (f : List FrontendEvent → List FrontendEvent)
    → f [] ≡ []
    → timeline (modify_channel s id touched f) id ≡ f (timeline s id)
unfolding modify_channel
timeline-modify_channel_id s id touched f nothing = elim (Option-cases (find_channel s id)) [
  | inr (e, h) ↦ timeline-modify_channel s id touched f e h
  | inl h ↦
      let absent = find-none (has entry_key id) s.channels h in
      timeline_of (modify_channel s id touched f) id none (
        ap (find (has entry_key id))
          (modify_first_absent (has entry_key id) (write_entry touched f) s.channels absent)
        ∙ h)
      ∙ sym nothing
      ∙ ap f (sym (timeline_of s id none h))
]

pub timeline-advance : (s : FrontendState) (id : Str) → timeline (advance s) id ≡ timeline s id
unfolding timeline
timeline-advance s id = refl
