-- ===== src/Rest/Build.antt =====
-- src/rest.rs: `RestDispatcher::new` and the texts of its error and of `RestSubmitError`. Whether
-- the HTTP library takes a header's value, and whether it builds its client, are arguments.
use diddycord.Base.{ℕ, max, Bool, if◌then◌else◌, ◌++◌, none, Str, bytes}
use diddycord.Base.Results.{Result, ok, err}
use diddycord.Snowflake.{is_empty}
use diddycord.Rest.Commands.{
  RestSubmitError, invalid_channel_id, invalid_message_id, invalid_history_limit, empty_content,
  content_too_long, queue_full, closed,
}
use diddycord.Rest.Handle.{RestHandle, fresh_handle}
use diddycord.Rest.Dispatcher.{Dispatcher}

pub data RestBuildError : Type 0 where
  invalid_token client : RestBuildError

-- `Display`.
unfoldable pub build_error_text : RestBuildError → Str
build_error_text RestBuildError.invalid_token =
    bytes "Discord bot token cannot be used as an HTTP header"
build_error_text RestBuildError.client = bytes "failed to build Discord REST HTTP client"

-- `Display`.
unfoldable pub submit_error_text : RestSubmitError → Str
submit_error_text invalid_channel_id = bytes "channel ID must be a decimal Discord snowflake"
submit_error_text invalid_message_id = bytes "message ID must be a decimal Discord snowflake"
submit_error_text invalid_history_limit = bytes "history limit must be between 1 and 100 messages"
submit_error_text empty_content = bytes "message content cannot be empty"
submit_error_text content_too_long = bytes "message content exceeds the 2000-character limit"
submit_error_text queue_full = bytes "Discord REST command queue is full"
submit_error_text closed = bytes "Discord REST dispatcher is closed"

-- What `new` makes: the handle, the dispatcher at the time `now`, and the capacities of the queue of
-- commands and of the broadcast of events.
pub record Built : Type 0 where
  pub handle : RestHandle
  pub dispatcher : Dispatcher
  pub command_capacity : ℕ
  pub event_capacity : ℕ

-- `accepts` says which values can be headers, `builds` whether the client is built with the
-- authorization header.
unfoldable pub new :
    (accepts builds : Str → Bool)
    → (now : ℕ) → (token : Str) → (command_capacity event_capacity : ℕ)
    → Result Built RestBuildError
new accepts builds now token command_capacity event_capacity =
    let authorization = bytes "Bot " ++ token in
    if is_empty token
    then err RestBuildError.invalid_token
    else if accepts authorization
    then if builds authorization
      then ok (record {
        handle = fresh_handle;
        dispatcher = record { now = now; rate_limit_until = none };
        command_capacity = max command_capacity 4;
        event_capacity = max event_capacity 8;
      })
      else err RestBuildError.client
    else err RestBuildError.invalid_token
