-- ===== src/Gateway/Bulk.antt =====
-- A bulk deletion, from its payload in src/gateway/bulk.rs to the timeline in src/state.rs.
use diddycord.Base.{
  eq_if, ◌≤◌, ◌≡◌, refl, sym, ap, ◌∙◌, Bool, true, false, not, ◌&&◌, ◌||◌, List, [], ◌∷◌, ◌++◌,
  Option, none, some, Str, arith, foldl, any, retain, leb, length, length-append, length-push_back,
  push_back, if◌then◌else◌, if_cases,
}
use mathlib.Core.List.{append_assoc, append-nil}
use diddycord.Events.{FrontendEvent, FrontendMessageDelete, message_delete}
use diddycord.Snowflake.{is_snowflake}
use diddycord.Topology.Ops
use diddycord.State.Cache.{FrontendState, timeline}
use diddycord.State.Retire.{invalidate_topology_timelines, retired_by, retire_all}
use diddycord.State.Timeline.{has_message, delete_message}
use diddycord.State.Ops.{advance, apply_message_delete, apply_rest_of, apply}
use diddycord.State.Reads.{timeline-modify_channel_id, timeline-advance}
use diddycord.Gateway.Payloads.{
  MessageBulkDelete, max_bulk_delete_ids, visit_seq, deserialize_bulk_ids,
}
use diddycord.Gateway.Emits.{delete_all, emit_message_delete_bulk}

visit_seq-bounded :
    (ids sequence : List Str)
    → length ids ≤ max_bulk_delete_ids
    → visit_seq ids sequence ≡ (
        if leb (length (ids ++ sequence)) max_bulk_delete_ids then some (ids ++ sequence) else none)
unfolding visit_seq
visit_seq-bounded ids [] room = rw (append-nil ids) (ground arith)
visit_seq-bounded ids (id ∷ sequence) room =
    if_cases
      (λ (o : Option (List Str)). o ≡ (
        if leb (length (ids ++ id ∷ sequence)) max_bulk_delete_ids
        then some (ids ++ id ∷ sequence)
        else none))
      (leb max_bulk_delete_ids (length ids))
      (λ full. ground (arith, length-append ids (id ∷ sequence)))
      (λ more.
        visit_seq-bounded (push_back ids id) sequence (ground (arith, length-push_back ids id))
        ∙ ap (λ (l : List Str). if leb (length l) max_bulk_delete_ids then some l else none)
            (append_assoc ids (id ∷ []) sequence))

-- A deletion for a channel removes the message from the channel's timeline, retired or not.
apply-message_delete :
    (s : FrontendState) (delete : FrontendMessageDelete)
    → timeline (apply s (message_delete delete)) delete.channel_id
      ≡ delete_message delete (timeline s delete.channel_id)
unfolding apply invalidate_topology_timelines retired_by retire_all Ops.apply apply_rest_of
    apply_message_delete delete_message retain
apply-message_delete s delete =
    timeline-modify_channel_id (advance s) delete.channel_id (advance s).clock
      (delete_message delete) refl
    ∙ ap (delete_message delete) (timeline-advance s delete.channel_id)

abbrev pub is_deleted : List Str → FrontendEvent → Bool
is_deleted ids event = any (λ id. has_message id event) ids

retain_twice :
    (id : Str) (ids : List Str) (events : List FrontendEvent)
    → retain
        (λ event. not (is_deleted ids event))
        (retain (λ event. not (has_message id event)) events)
      ≡ retain (λ event. not (is_deleted (id ∷ ids) event)) events
unfolding retain any
retain_twice id ids [] = refl
retain_twice id ids (event ∷ events) = ground (arith, retain_twice id ids events)

retain_nothing :
    (events : List FrontendEvent) → retain (λ event. not (is_deleted [] event)) events ≡ events
unfolding retain any
retain_nothing [] = refl
retain_nothing (event ∷ events) = ap (◌∷◌ event) (retain_nothing events)

delete_all-timeline :
    (s : FrontendState) (channel_id : Str) (ids : List Str)
    → timeline (foldl apply s (delete_all channel_id ids)) channel_id
      ≡ retain (λ event. not (is_deleted ids event)) (timeline s channel_id)
unfolding delete_message
delete_all-timeline s channel_id [] = sym (retain_nothing (timeline s channel_id))
delete_all-timeline s channel_id (id ∷ ids) =
    let delete : FrontendMessageDelete = record { id = id; channel_id = channel_id } in
    delete_all-timeline (apply s (message_delete delete)) channel_id ids
    ∙ ap (retain (λ event. not (is_deleted ids event))) (apply-message_delete s delete)
    ∙ retain_twice id ids (timeline s channel_id)

-- The payload is one that the client acts on: at most 100 ids, all of them and the channel's
-- decimal snowflakes.
abbrev pub is_acceptable : MessageBulkDelete → Bool
is_acceptable d =
    leb (length d.ids) max_bulk_delete_ids
    && (is_snowflake d.channel_id && not (any (λ id. not (is_snowflake id)) d.ids))

if_not :
    (b : Bool) (xs ys : List FrontendEvent) → (if b then xs else ys) ≡ (if not b then ys else xs)
if_not true xs ys = refl
if_not false xs ys = refl

emit-acceptable :
    (d : MessageBulkDelete)
    → emit_message_delete_bulk (some d)
      ≡ (if is_acceptable d then delete_all d.channel_id d.ids else [])
unfolding emit_message_delete_bulk deserialize_bulk_ids
emit-acceptable d =
    rw (visit_seq-bounded [] d.ids (omega arith), emit_message_delete_bulk)
      (go (leb (length d.ids) max_bulk_delete_ids) (is_snowflake d.channel_id))
  where
    malformed : Bool
    malformed = any (λ id. not (is_snowflake id)) d.ids

    go :
        (few own : Bool)
        → (elim (if few then some d.ids else none) as (λ _. List FrontendEvent) [
          | none ↦ []
          | some ids ↦
              if not own || any (λ id. not (is_snowflake id)) ids
              then []
              else delete_all d.channel_id ids
        ])
          ≡ (if few && (own && not malformed) then delete_all d.channel_id d.ids else [])
    go false own = refl
    go true false = refl
    go true true = if_not malformed [] (delete_all d.channel_id d.ids)

-- A bulk deletion of at most 100 snowflakes, once its events are applied, has removed from the
-- channel's timeline exactly the messages with these ids and left the others in their order; a
-- payload with more ids, or with one that is no snowflake, changes nothing there.
pub emit_bulk-timeline :
    (s : FrontendState) (d : MessageBulkDelete)
    → timeline (foldl apply s (emit_message_delete_bulk (some d))) d.channel_id ≡ (
        if is_acceptable d
        then retain (λ event. not (is_deleted d.ids event)) (timeline s d.channel_id)
        else timeline s d.channel_id)
emit_bulk-timeline s d =
    let after = λ (events : List FrontendEvent). timeline (foldl apply s events) d.channel_id in
    let emitted = λ (b : Bool). if b then delete_all d.channel_id d.ids else [] in
    eq_if (is_acceptable d) _ _ _
      (λ good.
        ap after (emit-acceptable d ∙ ap emitted good) ∙ delete_all-timeline s d.channel_id d.ids)
      (λ bad. ap after (emit-acceptable d ∙ ap emitted bad))
