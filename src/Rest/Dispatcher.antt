-- ===== src/Rest/Dispatcher.antt =====
-- src/rest.rs: `RestDispatcher`, with its clock. A state is the time in milliseconds and the end of
-- the rate limit; a sleep takes the time that it is given. What the transport answers to each try of
-- a command, with the time that the try takes, is an argument, and so is what serde_json reads.
use diddycord.Base.{
  ℕ, zero, suc, ◌+◌, Bool, true, false, not, ◌&&◌, if◌then◌else◌, ◌==◌, List, [], ◌∷◌, Option, none,
  some, Str, bytes, leb, ltb, unwrap_or,
}
use diddycord.Base.Results.{Result, ok, err}
use diddycord.Events.{RestEvent}
use diddycord.Rest.Commands.{RestCommand, fail, response_body_limit}
use diddycord.Rest.Headers.{Float, seconds_to_duration}
use diddycord.Rest.Responses.{
  ApiError, ApiMessage, HttpResponse, RequestError, Response, network, serialization,
  body_too_large, receive, succeed,
}

abbrev pub max_rate_limit_retries : ℕ
max_rate_limit_retries = 5

-- Milliseconds.
abbrev pub default_retry_delay : ℕ
default_retry_delay = 1000

pub record Dispatcher : Type 0 where
  pub now : ℕ
  pub rate_limit_until : Option ℕ

unfoldable pub wait_for_rate_limit : Dispatcher → Dispatcher
wait_for_rate_limit d = elim d.rate_limit_until [
  | none ↦ d
  | some until ↦ record { now = if ltb d.now until then until else d.now; rate_limit_until = none }
]

abbrev pub is_success : ℕ → Bool
is_success status = leb 200 status && leb status 299

abbrev pub is_server_error : ℕ → Bool
is_server_error status = leb 500 status && leb status 599

abbrev pub too_many_requests : ℕ
too_many_requests = 429

-- The transport's side of a try: its duration, and `send`'s answer.
pub record Try : Type 0 where
  pub elapsed : ℕ
  pub answer : Result Response RequestError

unfoldable pub send_once : Float → RestCommand → Try → Result HttpResponse RequestError
unfolding receive response_body_limit
send_once f command t = elim t.answer [
  | err e ↦ err e
  | ok response ↦ receive f response (response_body_limit command.kind)
]

-- The event of a request that fails.
unfoldable pub request_failed : RestCommand → RequestError → RestEvent
unfolding fail
request_failed command (network transient) =
    fail command none transient (bytes "Discord REST network request failed")
request_failed command serialization =
    fail command none false (bytes "failed to serialize Discord REST request")
request_failed command body_too_large =
    fail command none false (bytes "Discord REST response exceeded safety limit")

-- The limit that `x-ratelimit-remaining: 0` sets.
abbrev pub note_reset : Dispatcher → HttpResponse → Dispatcher
note_reset d response = elim response.exhausted_reset [
  | none ↦ d
  | some delay ↦ record d { rate_limit_until = some (d.now + delay) }
]

module _ (f : Float) (read_message : Str → Option ApiMessage)
    (read_messages : Str → Option (List ApiMessage))
    (read_error : Str → Option (ApiError f.F)) where
  unfoldable pub discord_error_message : Str → Option Str
  discord_error_message body = elim (read_error body) [ none ↦ none | some e ↦ e.text ]

  unfoldable pub retry_after_from_body : Str → Option ℕ
  unfolding seconds_to_duration
  retry_after_from_body body = elim (read_error body) [
    | none ↦ none
    | some e ↦ elim e.retry_after [ none ↦ none | some seconds ↦ seconds_to_duration f seconds ]
  ]

  -- `retry_after.or_else(..).unwrap_or(1 s)`.
  unfoldable pub retry_delay : HttpResponse → ℕ
  unfolding retry_after_from_body
  retry_delay response = elim response.retry_after [
    | some delay ↦ delay
    | none ↦ unwrap_or (retry_after_from_body response.body) default_retry_delay
  ]

  -- The event of a response that is not a rate limit.
  unfoldable pub conclude : RestCommand → HttpResponse → RestEvent
  unfolding discord_error_message fail succeed
  conclude command response =
      if not (is_success response.status)
      then fail command (some response.status) (is_server_error response.status) (
          unwrap_or (discord_error_message response.body)
            (bytes "Discord REST request was rejected"))
      else succeed read_message read_messages command response.body

  abbrev pub rate_limit_spent : RestCommand → HttpResponse → RestEvent
  rate_limit_spent command response =
      fail command (some response.status) true
        (bytes "Discord REST rate limit retry budget exhausted")

  -- The loop of `execute`, on the retries that are left: the state after it, the event, and the
  -- times at which the tries are sent. `answers n` is the transport's side of try `n`.
  module _ (answers : ℕ → Try) (command : RestCommand) where
    unfoldable pub execute_loop : ℕ → ℕ → Dispatcher → Dispatcher × RestEvent × List ℕ
    unfolding send_once request_failed conclude retry_delay wait_for_rate_limit
    execute_loop zero n d =
        let t = answers n in
        let after = record d { now = d.now + t.elapsed } in
        elim (send_once f command t) [
          | err e ↦ (after, request_failed command e, d.now ∷ [])
          | ok response ↦
              let noted = note_reset after response in
              if response.status == too_many_requests
              then (noted, rate_limit_spent command response, d.now ∷ [])
              else (noted, conclude command response, d.now ∷ [])
        ]
    execute_loop (suc left) n d =
        let t = answers n in
        let after = record d { now = d.now + t.elapsed } in
        elim (send_once f command t) [
          | err e ↦ (after, request_failed command e, d.now ∷ [])
          | ok response ↦
              let noted = note_reset after response in
              let limited = record noted {
                rate_limit_until = some (noted.now + retry_delay response);
              } in
              elim (response.status == too_many_requests) [
                | false ↦ (noted, conclude command response, d.now ∷ [])
                | true ↦
                    let (end, event, times) =
                      execute_loop left (n + 1) (wait_for_rate_limit limited) in
                    (end, event, d.now ∷ times)
              ]
        ]

    unfoldable pub execute : Dispatcher → Dispatcher × RestEvent × List ℕ
    unfolding execute_loop
    execute = execute_loop max_rate_limit_retries 0

    -- A round of `run`: the wait, and the command; the event is sent if there is a receiver.
    unfoldable pub run_command : Bool → Dispatcher → Dispatcher × List RestEvent
    unfolding wait_for_rate_limit execute
    run_command has_receiver d =
        let (end, event, times) = execute (wait_for_rate_limit d) in
        (end, if has_receiver then event ∷ [] else [])
