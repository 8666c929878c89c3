-- ===== src/Rest/Responses.antt =====
-- src/rest.rs: how a response is read and what it becomes. What serde_json reads from a body is
-- an argument: the functions `read_message`, `read_messages` and `read_error`; a duration is in
-- milliseconds.
use diddycord.Base.{
  ℕ, ◌+◌, Bool, false, not, ◌||◌, if◌then◌else◌, List, [], ◌∷◌, ◌++◌, Option, none, some, Str,
  str_eq, bytes, ltb, length, unwrap_or, u64_max, min,
}
use diddycord.Base.Results.{Result, ok, err}
use diddycord.Events.{
  RestMessage, RestEvent, message_sent, message_edited, message_deleted, messages_fetched,
}
use diddycord.Snowflake.{is_snowflake}
use diddycord.Rest.Headers
use diddycord.Rest.Headers.{Float}
use diddycord.Rest.Commands.{
  RestCommand, send_message, edit_message, delete_message, fetch_messages, fail,
}

pub record ApiAuthor : Type 0 where
  pub username : Option Str

pub record ApiMessage : Type 0 where
  pub id : Str
  pub channel_id : Str
  pub content : Option Str
  pub author : Option ApiAuthor

-- `F` is `f64`.
pub record ApiError (F : Type 0) : Type 0 where
  pub text : Option Str
  pub retry_after : Option F

-- What goes wrong with a request; the flag of a network error says that it is a time-out or a
-- failure to connect.
pub data RequestError : Type 0 where
  network : Bool → RequestError
  serialization body_too_large : RequestError

pub record HttpResponse : Type 0 where
  pub status : ℕ
  pub retry_after : Option ℕ
  pub exhausted_reset : Option ℕ
  pub body : Str

-- A response as reqwest gives it: its headers by name, those that are text, and the chunks of the
-- body.
pub record Response : Type 0 where
  pub status : ℕ
  pub headers : Str → Option Str
  pub content_length : Option ℕ
  pub chunks : List (Result Str RequestError)

-- The loop of `read_limited_body`. Lengths are `usize`, 64 bits wide, and their sum saturates.
unfoldable pub read_chunks : ℕ → Str → List (Result Str RequestError) → Result Str RequestError
read_chunks max_body body [] = ok body
read_chunks max_body body (err e ∷ chunks) = err e
read_chunks max_body body (ok chunk ∷ chunks) =
    let rest = read_chunks max_body (body ++ chunk) chunks in
    if ltb max_body (min (length body + length chunk) u64_max)
    then err RequestError.body_too_large
    else rest

abbrev pub exceeds : ℕ → Option ℕ → Bool
exceeds max_body none = false
exceeds max_body (some length) = ltb max_body length

unfoldable pub read_limited_body : Response → ℕ → Result Str RequestError
unfolding read_chunks
read_limited_body response max_body =
    if exceeds max_body response.content_length
    then err RequestError.body_too_large
    else read_chunks max_body [] response.chunks

-- The end of `send_once`.
unfoldable pub receive : Float → Response → ℕ → Result HttpResponse RequestError
unfolding read_limited_body Headers.retry_after_header Headers.exhausted_reset
receive f response max_body = elim (read_limited_body response max_body) [
  | err e ↦ err e
  | ok body ↦ ok (record {
    status = response.status;
    retry_after = Headers.retry_after_header f response.headers;
    exhausted_reset = Headers.exhausted_reset f response.headers;
    body = body;
  })
]

abbrev pub username_of : Option ApiAuthor → Option Str
username_of none = none
username_of (some author) = author.username

unfoldable pub api_message_to_rest : ApiMessage → Option RestMessage
unfolding is_snowflake
api_message_to_rest m =
    if not (is_snowflake m.id) || not (is_snowflake m.channel_id)
    then none
    else some (record {
      id = m.id;
      channel_id = m.channel_id;
      author_username = username_of m.author;
      content = unwrap_or m.content [];
    })

-- The loop of `parse_rest_messages`.
unfoldable pub convert_messages : Str → List ApiMessage → Option (List RestMessage)
unfolding api_message_to_rest str_eq
convert_messages expected_channel_id [] = some []
convert_messages expected_channel_id (m ∷ ms) =
    let rest = convert_messages expected_channel_id ms in
    if not (str_eq m.channel_id expected_channel_id) then none else elim (api_message_to_rest m) [
      | none ↦ none
      | some parsed ↦ elim rest [ none ↦ none | some others ↦ some (parsed ∷ others) ]
    ]

module _ (read_message : Str → Option ApiMessage)
    (read_messages : Str → Option (List ApiMessage)) where
  unfoldable pub parse_rest_message : Str → Option RestMessage
  unfolding api_message_to_rest
  parse_rest_message body = elim (read_message body) [
    | none ↦ none
    | some m ↦ api_message_to_rest m
  ]

  unfoldable pub parse_rest_messages : Str → Str → ℕ → Option (List RestMessage)
  unfolding convert_messages
  parse_rest_messages body expected_channel_id limit = elim (read_messages body) [
    | none ↦ none
    | some messages ↦
        if ltb limit (length messages) then none else convert_messages expected_channel_id messages
  ]

  -- `RestCommand::success`.
  unfoldable pub succeed : RestCommand → Str → RestEvent
  unfolding parse_rest_message parse_rest_messages fail
  succeed command body = elim command.kind [
    | send_message channel_id content ↦ elim (parse_rest_message body) [
      | some m ↦ message_sent command.request_id m
      | none ↦ fail command (some 200) false (bytes "Discord returned an invalid message payload")
    ]
    | edit_message channel_id message_id content ↦ elim (parse_rest_message body) [
      | some m ↦ message_edited command.request_id m
      | none ↦ fail command (some 200) false (bytes "Discord returned an invalid message payload")
    ]
    | delete_message channel_id message_id ↦
        message_deleted command.request_id channel_id message_id
    | fetch_messages channel_id before limit ↦ elim (parse_rest_messages body channel_id limit) [
      | some messages ↦ messages_fetched command.request_id channel_id messages
      | none ↦
          fail command (some 200) false
            (bytes "Discord returned an invalid message history payload")
    ]
  ]
