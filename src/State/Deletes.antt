-- ===== src/State/Deletes.antt =====
-- What the deletion of a message does to the timelines of src/state.rs.
use diddycord.Base.{
  ◌≡◌, refl, ap, ◌∙◌, Bool, true, false, not, List, [], ◌∷◌, Option, none, some, Str, str_eq,
  str_eq_iff, arith, any, find, retain,
}
use diddycord.Base.Search.{find-retain}
use diddycord.Events.{FrontendEvent, FrontendMessage, FrontendMessageDelete, message_delete}
use diddycord.Topology.Ops
use diddycord.State.Cache.{FrontendState, frontend_message, timeline}
use diddycord.State.Retire.{invalidate_topology_timelines, retire_all, retired_by}
use diddycord.State.Timeline.{has_message, delete_message}
use diddycord.State.Ops.{advance, apply_message_delete, apply_rest_of, apply}
use diddycord.State.Reads.{timeline-modify_channel_id, timeline-modify_channel_ne, timeline-advance}

-- A message has one id.
has_message_ne :
    (id other : Str) (event : FrontendEvent)
    → str_eq id other ≡ false
    → has_message other event ≡ true
    → not (has_message id event) ≡ true
unfolding has_message
has_message_ne id other event ne h = go (frontend_message event) h
  where
    go :
        (o : Option FrontendMessage)
        → (elim o as (λ _. Bool) [ none ↦ false | some m ↦ str_eq m.id other ]) ≡ true
        → not (elim o as (λ _. Bool) [ none ↦ false | some m ↦ str_eq m.id id ]) ≡ true
    go none h = cc
    go (some m) h = ground (arith, h, ne, str_eq_iff m.id other, str_eq_iff m.id id)

any-retain-not {ℓ} :
    {A : Type ℓ} (q : A → Bool) (xs : List A) → any q (retain (λ x. not (q x)) xs) ≡ false
unfolding any retain
any-retain-not q [] = refl
any-retain-not q (x ∷ xs) = ground (arith, any-retain-not q xs)

-- A deletion goes through `apply` with the topology untouched.
apply-message_delete :
    (s : FrontendState) (delete : FrontendMessageDelete)
    → apply s (message_delete delete) ≡ apply_message_delete s delete
unfolding apply invalidate_topology_timelines retired_by retire_all Ops.apply apply_rest_of
apply-message_delete s delete = refl

-- After the deletion of a message its channel's timeline has no message with the id, also for a
-- retired channel; a message with another id is found there as before, and the timelines of the
-- other channels are as they were.
pub apply_message_delete-reads :
    (s : FrontendState) (delete : FrontendMessageDelete) (other other_channel : Str)
    → str_eq delete.id other ≡ false
    → str_eq delete.channel_id other_channel ≡ false
    → let t = apply s (message_delete delete) in
      (any (has_message delete.id) (timeline t delete.channel_id) ≡ false)
      × (find (has_message other) (timeline t delete.channel_id)
          ≡ find (has_message other) (timeline s delete.channel_id))
      × (timeline t other_channel ≡ timeline s other_channel)
unfolding apply_message_delete delete_message
apply_message_delete-reads s delete other other_channel ne ne_channel =
    let keeps = λ (event : FrontendEvent). not (has_message delete.id event) in
    let events = timeline s delete.channel_id in
    let shape =
      ap (λ t. timeline t delete.channel_id) (apply-message_delete s delete)
      ∙ timeline-modify_channel_id (advance s) delete.channel_id (advance s).clock
          (delete_message delete) refl
      ∙ ap (delete_message delete) (timeline-advance s delete.channel_id) in
    (
      ap (any (has_message delete.id)) shape ∙ any-retain-not (has_message delete.id) events,
      ap (find (has_message other)) shape
          ∙ find-retain keeps (has_message other) events
              (λ event h. has_message_ne delete.id other event ne h),
      ap (λ t. timeline t other_channel) (apply-message_delete s delete)
          ∙ timeline-modify_channel_ne (advance s) delete.channel_id other_channel (advance s).clock
              (delete_message delete) ne_channel
          ∙ timeline-advance s other_channel,
    )
