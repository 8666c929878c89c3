-- ===== src/Rest/Tests.antt =====
-- The dispatcher of src/rest.rs with concrete requests and a concrete transport.
use diddycord.Base.{
  ℕ, ◌+◌, ◌*◌, ◌≤◌, ◌≡◌, refl, List, [], ◌∷◌, Option, none, some, Str, bytes, length, arith, All,
  str_eq, if◌then◌else◌,
}
use diddycord.Base.Results.{ok}
use diddycord.Events.{RestMessage}
use diddycord.Snowflake.{is_snowflake}
use diddycord.Rest.Routes.{read_request-request_of}
use diddycord.Rest.Reader.{read_request}
use diddycord.Rest.Commands.{RestCommand, fetch_messages, request_of}
use diddycord.Rest.Handle.{fresh_handle, sent}
use diddycord.Rest.Whole.{whole}
use diddycord.Rest.Responses.{ApiError, ApiMessage, Response, parse_rest_messages}
use diddycord.Rest.Dispatcher.{Dispatcher, Try, send_once, execute}
use diddycord.Rest.Submits.{IsValid, send, call, call-IsValid}
use diddycord.Rest.Bodies.{IsOfPage, Copies, parse_rest_messages-IsPage}
use diddycord.Rest.Retries.{IsAnswer}
use diddycord.Rest.Waits.{wanted_after}
use diddycord.Rest.Schedule.{Spaced, execute-IsAnswer, execute-Tries, execute-deadline}

abbrev lobby : Str
lobby = bytes "11"

abbrev old_message : ApiMessage
old_message = record {
  id = bytes "99";
  channel_id = lobby;
  content = some (bytes "before");
  author = none;
}

-- A reader of bodies that finds one message, whatever the body.
abbrev read_message : Str → Option ApiMessage
read_message body = some old_message

abbrev read_messages : Str → Option (List ApiMessage)
read_messages body = some (old_message ∷ [])

abbrev read_error : Str → Option (ApiError ℕ)
read_error body = none

-- The server asks for ten minutes, of which the dispatcher waits five.
abbrev headers : Str → Option Str
headers name =
    if str_eq name (bytes "retry-after")
    then some (bytes "600")
    else if str_eq name (bytes "x-ratelimit-remaining")
    then some (bytes "0")
    else none

abbrev limited : Response
limited = record {
  status = 429;
  headers = headers;
  content_length = some 2;
  chunks = ok (bytes "{") ∷ ok (bytes "}") ∷ [];
}

-- A transport that answers each try after 20 ms with a rate limit.
abbrev always_limited : ℕ → Try
always_limited n = record { elapsed = 20; answer = ok limited }

abbrev command : RestCommand
command = record { request_id = 7; kind = fetch_messages lobby none 50 }

abbrev start : Dispatcher
start = record { now = 1000; rate_limit_until = none }

call-IsValid_example : IsValid (call sent fresh_handle (send lobby (bytes "hello"))).0
call-IsValid_example =
    call-IsValid sent fresh_handle (send lobby (bytes "hello"))
      (record { counter = omega arith; queued = tt })

abbrev old_rest : RestMessage
old_rest = record {
  id = bytes "99";
  channel_id = lobby;
  author_username = none;
  content = bytes "before";
}

parse_rest_messages-IsPage_example :
    (length (old_rest ∷ []) ≤ 50)
    × All (IsOfPage lobby) (old_rest ∷ [])
    × Copies (old_message ∷ []) (old_rest ∷ [])
unfolding parse_rest_messages
parse_rest_messages-IsPage_example =
    parse_rest_messages-IsPage read_message read_messages [] lobby 50 (old_message ∷ [])
      (old_rest ∷ []) refl refl

execute-IsAnswer_example :
    IsAnswer command
      (execute whole read_message read_messages read_error always_limited command start).1
execute-IsAnswer_example =
    execute-IsAnswer whole read_message read_messages read_error always_limited command start

execute-Tries_example :
    let tries =
      (execute whole read_message read_messages read_error always_limited command start).2 in
    (times : List ℕ) × (tries ≡ 1000 ∷ times)
    × (length times ≤ 5)
    × Spaced (λ n t. t + 20 + wanted_after whole read_error always_limited command n) 0 tries
execute-Tries_example =
    execute-Tries whole read_message read_messages read_error always_limited command start

execute-deadline_example :
    (execute whole read_message read_messages read_error always_limited command start).0.now
    ≤ 1000 + 6 * 20 + 5 * 300000
unfolding send_once execute
execute-deadline_example =
    execute-deadline whole read_message read_messages read_error always_limited command start 20
      300000 (λ n. omega arith) (λ n. omega arith)

read_request-request_of_example :
    let kind = fetch_messages lobby (some (bytes "102")) 50 in
    read_request (request_of kind) ≡ some kind
unfolding is_snowflake
read_request-request_of_example =
    read_request-request_of (fetch_messages lobby (some (bytes "102")) 50)
      (refl, refl, omega arith, omega arith)
