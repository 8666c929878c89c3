-- ===== src/Rest/Commands.antt =====
-- src/rest.rs: the commands, what they must satisfy to be submitted, and the requests they become.
use diddycord.Base.{
  ℕ, suc, zero, ◌+◌, ◌*◌, ◌/◌, ◌%◌, Bool, not, ◌&&◌, if◌then◌else◌, [], ◌∷◌, ◌++◌, Option, none,
  some, Str, bytes, leb, ltb,
}
use diddycord.Base.Results.{Result, ok, err}
use diddycord.Events.{RestOperation, RestEvent, failed}
use diddycord.Snowflake.{is_snowflake, is_empty}

abbrev pub api_base : Str
api_base = bytes "https://discord.com/api/v9"

abbrev pub max_response_body : ℕ
max_response_body = 256 * 1024

abbrev pub max_history_response_body : ℕ
max_history_response_body = 2 * 1024 * 1024

abbrev pub max_message_chars : ℕ
max_message_chars = 2000

abbrev pub max_history_messages : ℕ
max_history_messages = 100

pub data RestSubmitError : Type 0 where
  invalid_channel_id invalid_message_id invalid_history_limit empty_content content_too_long
        queue_full closed :
      RestSubmitError

pub data RestCommandKind : Type 0 where
  send_message : (channel_id content : Str) → RestCommandKind
  edit_message : (channel_id message_id content : Str) → RestCommandKind
  delete_message : (channel_id message_id : Str) → RestCommandKind
  fetch_messages : (channel_id : Str) → Option Str → (limit : ℕ) → RestCommandKind

pub record RestCommand : Type 0 where
  pub request_id : ℕ
  pub kind : RestCommandKind

unfoldable pub validate_channel_id : Str → Result (Unit {0}) RestSubmitError
unfolding is_snowflake
validate_channel_id value =
    if is_snowflake value then ok tt else err RestSubmitError.invalid_channel_id

unfoldable pub validate_message_id : Str → Result (Unit {0}) RestSubmitError
unfolding is_snowflake
validate_message_id value =
    if is_snowflake value then ok tt else err RestSubmitError.invalid_message_id

-- The limit is a `u8`.
unfoldable pub validate_history_limit : ℕ → Result (Unit {0}) RestSubmitError
validate_history_limit limit =
    if leb 1 limit && leb limit max_history_messages
    then ok tt
    else err RestSubmitError.invalid_history_limit

-- Every character has one byte that is not a continuation byte of UTF-8, 128 to 191.
abbrev pub starts_char : ℕ → Bool
starts_char byte = not (leb 128 byte && leb byte 191)

-- `chars().take(n).count()`.
unfoldable pub count_chars : ℕ → Str → ℕ
count_chars zero content = 0
count_chars (suc n) [] = 0
count_chars (suc n) (byte ∷ content) =
    let rest = count_chars n content in
    let same = count_chars (suc n) content in if starts_char byte then rest + 1 else same

unfoldable pub validate_content : Str → Result (Unit {0}) RestSubmitError
unfolding count_chars
validate_content content =
    if is_empty content
    then err RestSubmitError.empty_content
    else if ltb max_message_chars (count_chars (max_message_chars + 1) content)
    then err RestSubmitError.content_too_long
    else ok tt

unfoldable pub operation : RestCommandKind → RestOperation
operation (send_message channel_id content) = RestOperation.send_message
operation (edit_message channel_id message_id content) = RestOperation.edit_message
operation (delete_message channel_id message_id) = RestOperation.delete_message
operation (fetch_messages channel_id before limit) = RestOperation.fetch_messages

unfoldable pub response_body_limit : RestCommandKind → ℕ
response_body_limit (fetch_messages channel_id before limit) = max_history_response_body
response_body_limit _ = max_response_body

-- `RestCommand::failed`.
unfoldable pub fail : RestCommand → Option ℕ → Bool → Str → RestEvent
unfolding operation
fail command status retryable text = failed (record {
  request_id = command.request_id;
  operation = operation command.kind;
  status = status;
  retryable = retryable;
  text = text;
})

-- A number below 1000 in decimal, as `Display` prints the `u8` limit.
abbrev pub digit : ℕ → ℕ
digit n = 48 + n % 10

unfoldable pub decimal : ℕ → Str
decimal n =
    if ltb n 10
    then digit n ∷ []
    else if ltb n 100
    then digit (n / 10) ∷ digit n ∷ []
    else digit (n / 100) ∷ digit (n / 10) ∷ digit n ∷ []

unfoldable pub history_url : Str → Option Str → ℕ → Str
unfolding decimal
history_url channel_id before limit =
    let url =
      api_base ++ bytes "/channels/" ++ channel_id ++ bytes "/messages?limit=" ++ decimal limit in
    elim before [ none ↦ url | some id ↦ url ++ bytes "&before=" ++ id ]

unfoldable pub messages_url : Str → Str
messages_url channel_id = api_base ++ bytes "/channels/" ++ channel_id ++ bytes "/messages"

unfoldable pub message_url : Str → Str → Str
unfolding messages_url
message_url channel_id message_id = messages_url channel_id ++ bytes "/" ++ message_id

pub data Method : Type 0 where
  get post patch delete : Method

-- The method, the URL and the content of the request that `send_once` sends for a command; the
-- content is serialised as JSON.
pub record Request : Type 0 where
  pub method : Method
  pub url : Str
  pub content : Option Str

unfoldable pub request_of : RestCommandKind → Request
unfolding messages_url message_url history_url
request_of (send_message channel_id content) = record {
  method = Method.post;
  url = messages_url channel_id;
  content = some content;
}
request_of (edit_message channel_id message_id content) = record {
  method = Method.patch;
  url = message_url channel_id message_id;
  content = some content;
}
request_of (delete_message channel_id message_id) = record {
  method = Method.delete;
  url = message_url channel_id message_id;
  content = none;
}
request_of (fetch_messages channel_id before limit) = record {
  method = Method.get;
  url = history_url channel_id before limit;
  content = none;
}
