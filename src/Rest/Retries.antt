-- ===== src/Rest/Retries.antt =====
-- The retry loop of `execute` in src/rest.rs: the tries it makes, when it makes them, and the event
-- that it ends with.
use diddycord.Base.{
  ℕ, zero, suc, ◌+◌, ◌≡◌, refl, inl, inr, true, false, List, [], ◌∷◌, Option, some, Str, Bool-cases,
  Option-cases, ◌==◌,
}
use diddycord.Base.Results.{Result, ok, err, Result-cases}
use diddycord.Events.{
  RestEvent, RestOperation, message_sent, message_edited, message_deleted, messages_fetched, failed,
}
use diddycord.Rest.Commands.{
  RestCommand, RestCommandKind, send_message, edit_message, delete_message, fetch_messages,
  operation, fail,
}
use diddycord.Rest.Headers.{Float}
use diddycord.Rest.Responses.{
  ApiError, ApiMessage, HttpResponse, RequestError, parse_rest_message, parse_rest_messages,
  succeed,
}
use diddycord.Rest.Dispatcher.{
  Dispatcher, Try, send_once, request_failed, note_reset, wait_for_rate_limit, too_many_requests,
  retry_delay, conclude, rate_limit_spent, execute_loop,
}

-- The event answers the command: its request id, and what it says was done.
abbrev pub IsAnswer : RestCommand → RestEvent → Type 0
IsAnswer c (message_sent request_id m) =
    (request_id ≡ c.request_id) × (operation c.kind ≡ RestOperation.send_message)
IsAnswer c (message_edited request_id m) =
    (request_id ≡ c.request_id) × (operation c.kind ≡ RestOperation.edit_message)
IsAnswer c (message_deleted request_id channel_id message_id) =
    (request_id ≡ c.request_id) × (c.kind ≡ delete_message channel_id message_id)
IsAnswer c (messages_fetched request_id channel_id messages) =
    (request_id ≡ c.request_id)
    × (before : Option Str) × (limit : ℕ) × (c.kind ≡ fetch_messages channel_id before limit)
IsAnswer c (failed failure) =
    (failure.request_id ≡ c.request_id) × (failure.operation ≡ operation c.kind)

module _ (read_message : Str → Option ApiMessage)
    (read_messages : Str → Option (List ApiMessage)) where
  pub succeed-IsAnswer :
      (c : RestCommand) (body : Str) → IsAnswer c (succeed read_message read_messages c body)
  unfolding succeed operation fail
  succeed-IsAnswer c body = go c.request_id c.kind
    where
      go :
          (id : ℕ) (kind : RestCommandKind)
          → let c : RestCommand = record { request_id = id; kind = kind } in
            IsAnswer c (succeed read_message read_messages c body)
      go id (send_message channel_id content) =
          elim (Option-cases (parse_rest_message read_message read_messages body)) [
            | inl e ↦ rw (e, succeed) (refl, refl)
            | inr (m, e) ↦ rw (e, succeed) (refl, refl)
          ]
      go id (edit_message channel_id message_id content) =
          elim (Option-cases (parse_rest_message read_message read_messages body)) [
            | inl e ↦ rw (e, succeed) (refl, refl)
            | inr (m, e) ↦ rw (e, succeed) (refl, refl)
          ]
      go id (delete_message channel_id message_id) = (refl, refl)
      go id (fetch_messages channel_id before limit) =
          elim (Option-cases
            (parse_rest_messages read_message read_messages body channel_id limit)) [
              | inl e ↦ rw (e, succeed) (refl, refl)
              | inr (ms, e) ↦ rw (e, succeed) (refl, before, limit, refl)
            ]

abbrev pub Outcome : Type 0
Outcome = Dispatcher × RestEvent × List ℕ

module _ (f : Float) (read_message : Str → Option ApiMessage)
    (read_messages : Str → Option (List ApiMessage)) (read_error : Str → Option (ApiError f.F))
    (answers : ℕ → Try) (command : RestCommand) where
  abbrev pub loop : ℕ → ℕ → Dispatcher → Outcome
  loop = execute_loop f read_message read_messages read_error answers command

  abbrev pub reply : ℕ → Result HttpResponse RequestError
  reply n = send_once f command (answers n)

  abbrev pub delay_of : HttpResponse → ℕ
  delay_of = retry_delay f read_message read_messages read_error

  -- The state when a try has been answered.
  abbrev pub after_try : ℕ → Dispatcher → Dispatcher
  after_try n d = record d { now = d.now + (answers n).elapsed }

  abbrev pub noted : ℕ → Dispatcher → HttpResponse → Dispatcher
  noted n d response = note_reset (after_try n d) response

  -- The state when the wait before the next try is over.
  abbrev pub next_try : ℕ → Dispatcher → HttpResponse → Dispatcher
  next_try n d response =
      let t = noted n d response in
      wait_for_rate_limit (record t { rate_limit_until = some (t.now + delay_of response) })

  -- Induction on the rounds of the loop, by the way each ends.
  pub loop-induct :
      (P : ℕ → ℕ → Dispatcher → Outcome → Type 0)
      → ((left n : ℕ) (d : Dispatcher) (e : RequestError)
          → reply n ≡ err e
          → P left n d (after_try n d, request_failed command e, d.now ∷ []))
      → ((left n : ℕ) (d : Dispatcher) (response : HttpResponse)
          → reply n ≡ ok response
          → (response.status == too_many_requests) ≡ false
          → P left n d (
            noted n d response,
            conclude f read_message read_messages read_error command response,
            d.now ∷ [],
          ))
      → ((n : ℕ) (d : Dispatcher) (response : HttpResponse)
          → reply n ≡ ok response
          → (response.status == too_many_requests) ≡ true
          → P 0 n d (
            noted n d response,
            rate_limit_spent f read_message read_messages read_error command response,
            d.now ∷ [],
          ))
      → ((left n : ℕ) (d : Dispatcher) (response : HttpResponse) (r : Outcome)
          → reply n ≡ ok response
          → (response.status == too_many_requests) ≡ true
          → P left (n + 1) (next_try n d response) r
          → P (suc left) n d (r.0, r.1, d.now ∷ r.2))
      → (left n : ℕ) (d : Dispatcher) → P left n d (loop left n d)
  unfolding execute_loop
  loop-induct P fails ends spent again zero n d = elim (Result-cases (reply n)) [
    | inr (e, h) ↦ rw (h, execute_loop) (fails 0 n d e h)
    | inl (response, h) ↦ elim (Bool-cases (response.status == too_many_requests)) [
      | inl limited ↦ rw (h, limited, execute_loop) (spent n d response h limited)
      | inr free ↦ rw (h, free, execute_loop) (ends 0 n d response h free)
    ]
  ]
  loop-induct P fails ends spent again (suc left) n d = elim (Result-cases (reply n)) [
    | inr (e, h) ↦ rw (h, execute_loop) (fails (suc left) n d e h)
    | inl (response, h) ↦ elim (Bool-cases (response.status == too_many_requests)) [
      | inl limited ↦
          rw (h, limited, execute_loop)
            (again left n d response _ h limited
              (loop-induct P fails ends spent again left (n + 1) (next_try n d response)))
      | inr free ↦ rw (h, free, execute_loop) (ends (suc left) n d response h free)
    ]
  ]
