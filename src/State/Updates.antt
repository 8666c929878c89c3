-- ===== src/State/Updates.antt =====
-- What the update of a message does to the timelines of src/state.rs.
use diddycord.Base.{
  ◌≡◌, refl, sym, ap, ◌∙◌, Bool, true, false, List, [], ◌∷◌, Option, none, some, Str, str_eq,
  str_eq_iff, arith, any, find, modify_last, length, All, Distinct, has, if_cases,
}
use mathlib.Core.Option
use mathlib.Core.Path.{subst}
use diddycord.Base.Search.{length-modify_last, find-All, find_absent}
use diddycord.Events.{FrontendEvent, FrontendMessageUpdate, message, message_update}
use diddycord.Topology.Ops
use diddycord.State.Cache.{
  FrontendState, Entry, entry_key, find_channel, frontend_message, timeline, is_retired_channel,
}
use diddycord.State.Retire.{invalidate_topology_timelines, retire_all, retired_by}
use diddycord.State.Valid.{IsMessageOf, FitsEntry, IsValid, event_id}
use diddycord.State.TimelineInvariant.{any-has_message}
use diddycord.State.Timeline.{has_message, replacement, update_slot, update_message}
use diddycord.State.Ops.{advance, apply_message_update, apply_rest_of, apply}
use diddycord.State.Reads.{timeline-modify_channel_id, timeline-modify_channel_ne, timeline-advance}

-- The test holds of one element at most.
abbrev pub AtMostOnce {ℓ} : {A : Type ℓ} → (A → Bool) → List A → Type 0
AtMostOnce p [] = Unit {0}
AtMostOnce p (x ∷ xs) = (p x ≡ true → any p xs ≡ false) × AtMostOnce p xs

pub find-modify_last {ℓ} :
    {A : Type ℓ} (p : A → Bool) (f : A → A) (xs : List A)
    → ((x : A) → p x ≡ true → p (f x) ≡ true)
    → AtMostOnce p xs
    → find p (modify_last p f xs) ≡ Option.map f (find p xs)
unfolding find modify_last any
find-modify_last p f [] keep once = refl
find-modify_last p f (x ∷ xs) keep (alone, once) =
    ground (arith, keep x, alone, find-modify_last p f xs keep once, find_absent p xs)

find-modify_last_ne {ℓ} :
    {A : Type ℓ} (p q : A → Bool) (f : A → A) (xs : List A)
    → ((x : A) → p x ≡ true → q x ≡ false)
    → ((x : A) → p x ≡ true → q (f x) ≡ false)
    → find q (modify_last p f xs) ≡ find q xs
unfolding find modify_last
find-modify_last_ne p q f [] h k = refl
find-modify_last_ne p q f (x ∷ xs) h k = ground (arith, h x, k x, find-modify_last_ne p q f xs h k)

timeline-AtMostOnce :
    (id channel_id : Str) (events : List FrontendEvent)
    → Distinct event_id events
    → All (IsMessageOf channel_id) events
    → AtMostOnce (has_message id) events
unfolding has_message frontend_message
timeline-AtMostOnce id channel_id [] d h = tt
timeline-AtMostOnce id channel_id (message m ∷ events) (absent, d) (own, h) = (
  λ e.
      ap (λ k. any (has_message k) events) (sym ((str_eq_iff m.id id).0 e))
      ∙ sym (any-has_message channel_id m.id events h)
      ∙ absent,
  timeline-AtMostOnce id channel_id events d h,
)
timeline-AtMostOnce id channel_id (_ ∷ events) d (own, h) = elim own [ ]

-- The timelines of a valid state hold a message once.
pub valid-AtMostOnce :
    (s : FrontendState) (id channel_id : Str)
    → IsValid s
    → AtMostOnce (has_message id) (timeline s channel_id)
unfolding timeline
valid-AtMostOnce s id channel_id v = go (find_channel s channel_id) refl
  where
    go :
        (o : Option Entry)
        → find_channel s channel_id ≡ o
        → AtMostOnce
            (has_message id)
            (elim o as (λ _. List FrontendEvent) [ none ↦ [] | some e ↦ e.1.messages ])
    go none e = tt
    go (some entry) e =
        let fits : FitsEntry s.max_messages_per_channel entry =
          find-All (has entry_key channel_id) (FitsEntry s.max_messages_per_channel) s.channels
            entry v.timelines e in
        timeline-AtMostOnce id entry.0 entry.1.messages fits.ids fits.own

-- The event with another content and author keeps its id.
update_slot-has_message :
    (update : FrontendMessageUpdate) (id : Str) (event : FrontendEvent)
    → has_message id (update_slot update event) ≡ has_message id event
unfolding update_slot has_message frontend_message replacement
update_slot-has_message update id (message m) = refl
update_slot-has_message update id _ = refl

has_message-other :
    (id other : Str) (event : FrontendEvent)
    → str_eq id other ≡ false
    → has_message id event ≡ true
    → has_message other event ≡ false
unfolding has_message frontend_message
has_message-other id other (message m) ne h =
    ground (arith, h, ne, str_eq_iff m.id id, str_eq_iff m.id other)
has_message-other id other _ ne h = cc

-- An update goes through `apply` with the topology untouched.
apply-message_update :
    (s : FrontendState) (update : FrontendMessageUpdate)
    → apply s (message_update update) ≡ apply_message_update s update
unfolding apply invalidate_topology_timelines retired_by retire_all Ops.apply apply_rest_of
apply-message_update s update = refl

update-shape :
    (s : FrontendState) (update : FrontendMessageUpdate) (other_channel : Str)
    → is_retired_channel s update.channel_id ≡ false
    → str_eq update.channel_id other_channel ≡ false
    → let t = apply s (message_update update) in
      (timeline t update.channel_id ≡ update_message update (timeline s update.channel_id))
      × (timeline t other_channel ≡ timeline s other_channel)
unfolding apply_message_update update_message
update-shape s update other_channel live ne =
    let P = λ (t : FrontendState).
      (timeline t update.channel_id ≡ update_message update (timeline s update.channel_id))
      × (timeline t other_channel ≡ timeline s other_channel) in
    subst P (sym (apply-message_update s update)) (
      if_cases P (is_retired_channel s update.channel_id) (λ retired. cc)
        (λ _. (
          timeline-modify_channel_id (advance s) update.channel_id (advance s).clock
                (update_message update) refl
              ∙ ap (update_message update) (timeline-advance s update.channel_id),
          timeline-modify_channel_ne (advance s) update.channel_id other_channel (advance s).clock
                (update_message update) ne
              ∙ timeline-advance s other_channel,
        )))

-- The event with the content and the author that an update carries.
abbrev pub edited : FrontendMessageUpdate → FrontendEvent → FrontendEvent
edited update (message m) = message (record m {
  author_username = elim update.author_username [ none ↦ m.author_username | some a ↦ a ];
  content = elim update.content [ none ↦ m.content | some content ↦ content ];
})
edited update event = event

update_slot_lem :
    (update : FrontendMessageUpdate) (event : FrontendEvent)
    → update_slot update event ≡ edited update event
unfolding update_slot frontend_message replacement
update_slot_lem update (message m) = ground arith
update_slot_lem update _ = refl

-- After the update of a message in a live channel, the channel's message with the id has the
-- content and the author that the update carries, if it was cached, and is still missing if it was
-- not; messages with other ids, the length of the timeline, and other timelines are as they were.
pub apply_message_update-reads :
    (s : FrontendState) (update : FrontendMessageUpdate) (other other_channel : Str)
    → IsValid s
    → is_retired_channel s update.channel_id ≡ false
    → str_eq update.id other ≡ false
    → str_eq update.channel_id other_channel ≡ false
    → let t = apply s (message_update update) in
      let before = timeline s update.channel_id in
      let after = timeline t update.channel_id in
      (find (has_message update.id) after
        ≡ Option.map (edited update) (find (has_message update.id) before))
      × (find (has_message other) after ≡ find (has_message other) before)
      × (length after ≡ length before)
      × (timeline t other_channel ≡ timeline s other_channel)
unfolding update_message
apply_message_update-reads s update other other_channel v live ne ne_channel =
    let t = apply s (message_update update) in
    let before = timeline s update.channel_id in
    let is_target = has_message update.id in
    let (shape, apart) = update-shape s update other_channel live ne_channel in
    (
      ap (find is_target) shape
          ∙ find-modify_last is_target (update_slot update) before
              (λ event h. update_slot-has_message update update.id event ∙ h)
              (valid-AtMostOnce s update.id update.channel_id v)
          ∙ ap (λ f. Option.map f (find is_target before))
              (λ i event. update_slot_lem update event i),
      ap (find (has_message other)) shape
          ∙ find-modify_last_ne is_target (has_message other) (update_slot update) before
              (λ event h. has_message-other update.id other event ne h)
              (λ event h.
                update_slot-has_message update other event
                ∙ has_message-other update.id other event ne h),
      ap length shape ∙ length-modify_last is_target (update_slot update) before,
      apart,
    )
