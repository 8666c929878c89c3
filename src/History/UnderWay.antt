-- ===== src/History/UnderWay.antt =====
-- The command that a load of src/history.rs puts into the queue, and the answers to it.
use mathlib.Core.Path.{subst}
use diddycord.Base.{
  ℕ, ◌≡◌, ◌≢◌, refl, ap, Bool, true, ◌&&◌, ◌==◌, ==_iff, [], Option, none, some, Str, str_eq,
  str_eq_iff, arith, if_cases, push_back,
}
use diddycord.Base.Results.{Result, ok, err, ◌>>=◌}
use diddycord.Events.{
  RestEvent, message_sent, message_edited, message_deleted, messages_fetched, failed,
}
use diddycord.Rest.Commands.{
  RestCommand, RestCommandKind, RestSubmitError, fetch_messages, operation, validate_channel_id,
  validate_message_id, validate_history_limit,
}
use diddycord.Rest.Handle.{
  RestHandle, TrySend, sent, full, closed, submit, submit_valid, submit_history,
  try_fetch_messages_before,
}
use diddycord.Rest.Retries.{IsAnswer}
use diddycord.History.Pager.{
  HistoryPager, HistoryCompletion, HistoryLoadStatus, PendingHistory, Load, submitted, ignored,
  await_page, observe_pending, observe_rest, is_fetch,
}

abbrev pub Completes : RestCommand → HistoryPager → Type 0
Completes c q =
    (event : RestEvent)
    → IsAnswer c event
    → ((observe_rest q event).0.pending ≡ none) × ((observe_rest q event).1 ≢ ignored)

abbrev pub Ends : HistoryPager × HistoryCompletion → Type 0
Ends r = (r.0.pending ≡ none) × (r.1 ≢ ignored)

abbrev pub channel_of : RestCommandKind → Str
channel_of (fetch_messages channel_id before limit) = channel_id
channel_of _ = []

pub waiting-Completes :
    (q : HistoryPager) (pending : PendingHistory) (before : Option Str) (limit : ℕ)
    → q.pending ≡ some pending
    → Completes
        (record {
          request_id = pending.request_id;
          kind = fetch_messages pending.channel_id before limit;
        })
        q
unfolding observe_rest observe_pending operation
waiting-Completes q pending before limit waits event answer =
    rw (waits, observe_rest) (go event answer)
  where
    go :
        (event : RestEvent)
        → IsAnswer
            (record {
              request_id = pending.request_id;
              kind = fetch_messages pending.channel_id before limit;
            })
            event
        → ((observe_pending q pending event).0.pending ≡ none)
          × ((observe_pending q pending event).1 ≢ ignored)
    go (message_sent request_id m) (same, op) = absurd cc
    go (message_edited request_id m) (same, op) = absurd cc
    go (message_deleted request_id channel_id message_id) (same, kind) = absurd cc
    go (messages_fetched request_id channel_id messages) (same, _, _, kind) =
        let own : pending.channel_id ≡ channel_id = ap channel_of kind in
        if_cases Ends (request_id == pending.request_id && str_eq channel_id pending.channel_id)
          (λ _. (refl, λ e. cc))
          (λ other. absurd (
            ground (
              arith,
              ==_iff request_id pending.request_id,
              str_eq_iff channel_id pending.channel_id,
              same,
              own,
              other,
            )))
    go (failed failure) (same, op) =
        let fetch : is_fetch failure.operation ≡ true = ap is_fetch op in
        if_cases Ends (is_fetch failure.operation && failure.request_id == pending.request_id)
          (λ _. (refl, λ e. cc))
          (λ other.
            absurd
              (ground (arith, ==_iff failure.request_id pending.request_id, same, fetch, other)))

abbrev pub id_of : Result ℕ RestSubmitError → ℕ
id_of (ok id) = id
id_of (err e) = 0

abbrev pub submitted_id : Result HistoryLoadStatus RestSubmitError → ℕ
submitted_id (ok (submitted id)) = id
submitted_id _ = 0

-- What the queue holds after a request for a page that it accepted.
pub submit_history-sent :
    (answer : TrySend) (h : RestHandle) (channel_id : Str) (before : Option Str) (limit id : ℕ)
    → (submit_history answer h channel_id before limit).1 ≡ ok id
    → (submit_history answer h channel_id before limit).0.commands
      ≡ push_back h.commands
          (record { request_id = id; kind = fetch_messages channel_id before limit })
unfolding submit_history submit_valid submit
submit_history-sent answer h channel_id before limit id =
    go (validate_channel_id channel_id >>= λ _. validate_history_limit limit) answer
  where
    go :
        (check : Result (Unit {0}) RestSubmitError) (answer : TrySend)
        → (submit_valid answer h check (fetch_messages channel_id before limit)).1 ≡ ok id
        → (submit_valid answer h check (fetch_messages channel_id before limit)).0.commands
          ≡ push_back h.commands
              (record { request_id = id; kind = fetch_messages channel_id before limit })
    go (err x) answer e = cc
    go (ok _) sent e =
        ap
          (λ id.
            push_back h.commands
              (record { request_id = id; kind = fetch_messages channel_id before limit }))
          (ap id_of e)
    go (ok _) full e = cc
    go (ok _) closed e = cc

pub try_fetch_messages_before-sent :
    (answer : TrySend) (h : RestHandle) (channel_id before : Str) (limit id : ℕ)
    → (try_fetch_messages_before answer h channel_id before limit).1 ≡ ok id
    → (try_fetch_messages_before answer h channel_id before limit).0.commands
      ≡ push_back h.commands
          (record { request_id = id; kind = fetch_messages channel_id (some before) limit })
unfolding try_fetch_messages_before
try_fetch_messages_before-sent answer h channel_id before limit id = go (validate_message_id before)
  where
    go :
        (check : Result (Unit {0}) RestSubmitError)
        → (elim check as (λ _. RestHandle × Result ℕ RestSubmitError) [
          | err e ↦ (h, err e)
          | ok _ ↦ submit_history answer h channel_id (some before) limit
        ]).1
          ≡ ok id
        → (elim check as (λ _. RestHandle × Result ℕ RestSubmitError) [
          | err e ↦ (h, err e)
          | ok _ ↦ submit_history answer h channel_id (some before) limit
        ]).0.commands
          ≡ push_back h.commands
              (record { request_id = id; kind = fetch_messages channel_id (some before) limit })
    go (err x) e = cc
    go (ok _) e = submit_history-sent answer h channel_id (some before) limit id e

-- The command of a load, in the queue and completed by every answer.
abbrev pub IsUnderWay : RestHandle → RestCommand → Load → Type 0
IsUnderWay h c load = (load.1.commands ≡ push_back h.commands c) × Completes c load.0

pub await_page-IsUnderWay :
    (h : RestHandle) (p : HistoryPager) (channel_id : Str) (before : Option Str) (spent : Bool)
    (r : RestHandle × Result ℕ RestSubmitError) (id : ℕ)
    → ((id : ℕ)
        → r.1 ≡ ok id
        → r.0.commands
          ≡ push_back h.commands
              (record { request_id = id; kind = fetch_messages channel_id before p.page_size }))
    → (await_page p channel_id before spent r).2 ≡ ok (submitted id)
    → IsUnderWay h
        (record { request_id = id; kind = fetch_messages channel_id before p.page_size })
        (await_page p channel_id before spent r)
unfolding await_page
await_page-IsUnderWay h p channel_id before spent (t, err x) id queued e = cc
await_page-IsUnderWay h p channel_id before spent (t, ok sent_id) id queued e =
    let same : sent_id ≡ id = ap submitted_id e in
    (
      queued id (ap ok same),
      subst
          (λ id.
            Completes
              (record { request_id = id; kind = fetch_messages channel_id before p.page_size })
              (await_page p channel_id before spent (t, ok sent_id)).0)
          same
          (waiting-Completes _
            (record {
              request_id = sent_id;
              channel_id = channel_id;
              requested = p.page_size;
              before = before;
            })
            before p.page_size refl),
    )
