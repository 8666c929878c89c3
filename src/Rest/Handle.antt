-- ===== src/Rest/Handle.antt =====
-- src/rest.rs: `RestHandle`. The handle's state is the atomic counter, a `u32`, and the commands
-- that the queue has accepted, oldest first. What `try_send` of tokio's queue answers is an
-- argument.
use diddycord.Base.{
  ℕ, zero, suc, ◌+◌, ◌%◌, ◌^◌, ◌==◌, if◌then◌else◌, List, [], Option, none, some, Str, push_back,
}
use diddycord.Base.Results.{Result, ok, err, ◌>>=◌}
use diddycord.Rest.Commands.{
  RestCommand, RestCommandKind, RestSubmitError, send_message, edit_message, delete_message,
  fetch_messages, validate_channel_id, validate_message_id, validate_history_limit,
  validate_content,
}

-- The answer of `try_send`.
pub data TrySend : Type 0 where
  sent full closed : TrySend

pub record RestHandle : Type 0 where
  pub next_request_id : ℕ
  pub commands : List RestCommand

-- `RestDispatcher::new` starts the ids at one.
abbrev pub fresh_handle : RestHandle
fresh_handle = record { next_request_id = 1; commands = [] }

-- `fetch_add(1)`, which wraps around.
abbrev pub fetch_add : ℕ → ℕ
fetch_add value = (value + 1) % 2 ^ 32

-- The loop of `next_request_id`, on fuel: the id, and the counter after it.
unfoldable pub request_id_loop : ℕ → ℕ → ℕ × ℕ
request_id_loop zero value = (0, value)
request_id_loop (suc fuel) value =
    let rest = request_id_loop fuel (fetch_add value) in
    if value == 0 then rest else (value, fetch_add value)

-- Two rounds are enough: the value after zero is one.
unfoldable pub next_request_id : ℕ → ℕ × ℕ
unfolding request_id_loop
next_request_id = request_id_loop 2

unfoldable pub submit :
    TrySend → RestHandle → RestCommandKind → RestHandle × Result ℕ RestSubmitError
unfolding next_request_id
submit answer h kind =
    let r = next_request_id h.next_request_id in
    let t = record h { next_request_id = r.1 } in
    elim answer [
      | sent ↦ (
        record t { commands = push_back h.commands (record { request_id = r.0; kind = kind }) },
        ok r.0,
      )
      | full ↦ (t, err RestSubmitError.queue_full)
      | closed ↦ (t, err RestSubmitError.closed)
    ]

-- The command is submitted if its arguments are valid; otherwise nothing happens.
unfoldable pub submit_valid :
    TrySend
    → RestHandle
    → Result (Unit {0}) RestSubmitError
    → RestCommandKind
    → RestHandle × Result ℕ RestSubmitError
unfolding submit
submit_valid answer h (err e) kind = (h, err e)
submit_valid answer h (ok _) kind = submit answer h kind

unfoldable pub try_send_message :
    TrySend → RestHandle → Str → Str → RestHandle × Result ℕ RestSubmitError
unfolding submit_valid validate_channel_id validate_content
try_send_message answer h channel_id content =
    submit_valid answer h (validate_channel_id channel_id >>= λ _. validate_content content)
      (send_message channel_id content)

unfoldable pub try_edit_message :
    TrySend → RestHandle → Str → Str → Str → RestHandle × Result ℕ RestSubmitError
unfolding submit_valid validate_channel_id validate_message_id validate_content
try_edit_message answer h channel_id message_id content =
    submit_valid answer h
      (validate_channel_id channel_id
        >>= (λ _. validate_message_id message_id)
        >>= (λ _. validate_content content))
      (edit_message channel_id message_id content)

unfoldable pub try_delete_message :
    TrySend → RestHandle → Str → Str → RestHandle × Result ℕ RestSubmitError
unfolding submit_valid validate_channel_id validate_message_id
try_delete_message answer h channel_id message_id =
    submit_valid answer h (validate_channel_id channel_id >>= λ _. validate_message_id message_id)
      (delete_message channel_id message_id)

unfoldable pub submit_history :
    TrySend → RestHandle → Str → Option Str → ℕ → RestHandle × Result ℕ RestSubmitError
unfolding submit_valid validate_channel_id validate_history_limit
submit_history answer h channel_id before limit =
    submit_valid answer h (validate_channel_id channel_id >>= λ _. validate_history_limit limit)
      (fetch_messages channel_id before limit)

unfoldable pub try_fetch_messages :
    TrySend → RestHandle → Str → ℕ → RestHandle × Result ℕ RestSubmitError
unfolding submit_history
try_fetch_messages answer h channel_id limit = submit_history answer h channel_id none limit

unfoldable pub try_fetch_messages_before :
    TrySend → RestHandle → Str → Str → ℕ → RestHandle × Result ℕ RestSubmitError
unfolding submit_history validate_message_id
try_fetch_messages_before answer h channel_id before limit = elim (validate_message_id before) [
  | err e ↦ (h, err e)
  | ok _ ↦ submit_history answer h channel_id (some before) limit
]
