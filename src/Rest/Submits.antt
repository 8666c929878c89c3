-- ===== src/Rest/Submits.antt =====
-- What the queue of src/rest.rs accepts: the validation in front of `submit`.
use diddycord.Base.{
  ◌==◌, if◌then◌else◌, ℕ, ◌+◌, ◌%◌, ◌^◌, ◌≤◌, ◌<◌, ◌≡◌, ◌≢◌, true, false, none, some, Str, All,
  All-push_back, arith,
}
use diddycord.Base.Results.{Result, ok, err, ◌>>=◌}
use diddycord.Snowflake.{is_snowflake, is_empty}
use diddycord.Rest.Commands.{
  RestCommand, RestCommandKind, RestSubmitError, send_message, edit_message, delete_message,
  fetch_messages, validate_channel_id, validate_message_id, validate_history_limit,
  validate_content, max_history_messages, max_message_chars, count_chars,
}
use diddycord.Rest.Handle.{
  RestHandle, TrySend, sent, full, closed, request_id_loop, next_request_id, submit, submit_valid,
  try_send_message, try_edit_message, try_delete_message, submit_history, try_fetch_messages,
  try_fetch_messages_before,
}

-- The bound of a `u32`.
abbrev pub u32_bound : ℕ
u32_bound = 2 ^ 32

-- The loop ends within its two rounds: whatever the counter, the id is not zero, it is the counter
-- itself unless that is zero, and the counter moves on to the next value, wrapping around.
pub next_request_id_lem :
    (value : ℕ)
    → value < u32_bound
    → let (id, after) = next_request_id value in
      (id ≢ 0)
      × (id < u32_bound)
      × (after ≡ (id + 1) % u32_bound)
      × (id ≡ (if value == 0 then 1 else value))
unfolding next_request_id request_id_loop
next_request_id_lem value h = ground arith

-- A content of 1 to 2000 characters.
abbrev pub IsContent : Str → Type 0
IsContent content =
    (is_empty content ≡ false) × (count_chars (max_message_chars + 1) content ≤ max_message_chars)

-- What the server can be asked: ids that are decimal snowflakes, contents within the limit, pages
-- of 1 to 100 messages.
abbrev pub IsWellFormed : RestCommandKind → Type 0
IsWellFormed (send_message channel_id content) =
    (is_snowflake channel_id ≡ true) × IsContent content
IsWellFormed (edit_message channel_id message_id content) =
    (is_snowflake channel_id ≡ true) × (is_snowflake message_id ≡ true) × IsContent content
IsWellFormed (delete_message channel_id message_id) =
    (is_snowflake channel_id ≡ true) × (is_snowflake message_id ≡ true)
IsWellFormed (fetch_messages channel_id none limit) =
    (is_snowflake channel_id ≡ true) × (1 ≤ limit) × (limit ≤ max_history_messages)
IsWellFormed (fetch_messages channel_id (some before) limit) =
    (is_snowflake channel_id ≡ true)
    × (is_snowflake before ≡ true)
    × (1 ≤ limit)
    × (limit ≤ max_history_messages)

abbrev pub IsSubmitted : RestCommand → Type 0
IsSubmitted c = (c.request_id ≢ 0) × (c.request_id < u32_bound) × IsWellFormed c.kind

pub record IsValid (h : RestHandle) : Type 0 where
  pub counter : h.next_request_id < u32_bound
  pub queued : All IsSubmitted h.commands

-- The methods of the handle that submit a command.
pub data Call : Type 0 where
  send : (channel_id content : Str) → Call
  edit : (channel_id message_id content : Str) → Call
  delete : (channel_id message_id : Str) → Call
  fetch : (channel_id : Str) → (limit : ℕ) → Call
  fetch_before : (channel_id before : Str) → (limit : ℕ) → Call

unfoldable pub call : TrySend → RestHandle → Call → RestHandle × Result ℕ RestSubmitError
unfolding try_send_message try_edit_message try_delete_message try_fetch_messages
    try_fetch_messages_before
call answer h (send channel_id content) = try_send_message answer h channel_id content
call answer h (edit channel_id message_id content) =
    try_edit_message answer h channel_id message_id content
call answer h (delete channel_id message_id) = try_delete_message answer h channel_id message_id
call answer h (fetch channel_id limit) = try_fetch_messages answer h channel_id limit
call answer h (fetch_before channel_id before limit) =
    try_fetch_messages_before answer h channel_id before limit

submit-IsValid :
    (answer : TrySend) (h : RestHandle) (kind : RestCommandKind)
    → IsValid h
    → IsWellFormed kind
    → IsValid (submit answer h kind).0
unfolding submit
submit-IsValid sent h kind v w =
    let r = next_request_id_lem h.next_request_id v.counter in
    record {
      counter = ground (arith, r);
      queued = All-push_back IsSubmitted h.commands _ v.queued (r.0, r.1, w);
    }
submit-IsValid full h kind v w =
    let r = next_request_id_lem h.next_request_id v.counter in
    record { counter = ground (arith, r); queued = v.queued }
submit-IsValid closed h kind v w =
    let r = next_request_id_lem h.next_request_id v.counter in
    record { counter = ground (arith, r); queued = v.queued }

-- What a check that passes says.
abbrev Passes : Result (Unit {0}) RestSubmitError → Type 0 → Type 0
Passes (ok _) P = P
Passes (err _) P = Unit {0}

submit_valid-IsValid :
    (answer : TrySend) (h : RestHandle) (check : Result (Unit {0}) RestSubmitError)
    (kind : RestCommandKind)
    → IsValid h
    → Passes check (IsWellFormed kind)
    → IsValid (submit_valid answer h check kind).0
unfolding submit_valid
submit_valid-IsValid answer h (ok _) kind v w = submit-IsValid answer h kind v w
submit_valid-IsValid answer h (err e) kind v w = v

channel_id-Passes : (id : Str) → Passes (validate_channel_id id) (is_snowflake id ≡ true)
unfolding validate_channel_id
channel_id-Passes id = ground arith

message_id-Passes : (id : Str) → Passes (validate_message_id id) (is_snowflake id ≡ true)
unfolding validate_message_id
message_id-Passes id = ground arith

IsContent-Passes : (content : Str) → Passes (validate_content content) (IsContent content)
unfolding validate_content
IsContent-Passes content = ground arith

limit-Passes :
    (limit : ℕ)
    → Passes (validate_history_limit limit) ((1 ≤ limit) × (limit ≤ max_history_messages))
unfolding validate_history_limit
limit-Passes limit = ground arith

-- Checks in a row say what each says.
both-Pass :
    (P Q : Type 0) (a b : Result (Unit {0}) RestSubmitError)
    → Passes a P
    → Passes b Q
    → Passes (a >>= λ _. b) (P × Q)
both-Pass P Q (ok _) (ok _) p q = (p, q)
both-Pass P Q (ok _) (err _) p q = tt
both-Pass P Q (err _) b p q = tt

Passes-map :
    (P Q : Type 0) (a : Result (Unit {0}) RestSubmitError) → (P → Q) → Passes a P → Passes a Q
Passes-map P Q (ok _) f p = f p
Passes-map P Q (err _) f p = tt

fetch-IsWellFormed :
    (channel_id : Str) (limit : ℕ)
    → Passes
        (validate_channel_id channel_id >>= λ _. validate_history_limit limit)
        ((is_snowflake channel_id ≡ true) × (1 ≤ limit) × (limit ≤ max_history_messages))
fetch-IsWellFormed channel_id limit =
    Passes-map _ _ (validate_channel_id channel_id >>= λ _. validate_history_limit limit)
      (λ (c, (l, u)). (c, l, u))
      (both-Pass _ _ (validate_channel_id channel_id) (validate_history_limit limit)
        (channel_id-Passes channel_id) (limit-Passes limit))

-- Whatever the callers pass and the queue answers, all commands in the queue keep non-zero ids
-- below 2^32 and are well formed: their ids are decimal snowflakes, their contents have 1 to 2000
-- characters, and their pages 1 to 100 messages; and the counter stays a u32.
pub call-IsValid :
    (answer : TrySend) (h : RestHandle) (c : Call) → IsValid h → IsValid (call answer h c).0
unfolding call try_send_message try_edit_message try_delete_message try_fetch_messages
    try_fetch_messages_before submit_history
call-IsValid answer h (send channel_id content) v = submit_valid-IsValid answer h _ _ v (
    both-Pass _ _ (validate_channel_id channel_id) (validate_content content)
      (channel_id-Passes channel_id) (IsContent-Passes content))
call-IsValid answer h (edit channel_id message_id content) v = submit_valid-IsValid answer h _ _ v (
    Passes-map _ _
      (validate_channel_id channel_id
        >>= (λ _. validate_message_id message_id)
        >>= (λ _. validate_content content))
      (λ ((c, m), t). (c, m, t))
      (both-Pass _ _ (validate_channel_id channel_id >>= λ _. validate_message_id message_id)
        (validate_content content)
        (both-Pass _ _ (validate_channel_id channel_id) (validate_message_id message_id)
          (channel_id-Passes channel_id) (message_id-Passes message_id))
        (IsContent-Passes content)))
call-IsValid answer h (delete channel_id message_id) v = submit_valid-IsValid answer h _ _ v (
    both-Pass _ _ (validate_channel_id channel_id) (validate_message_id message_id)
      (channel_id-Passes channel_id) (message_id-Passes message_id))
call-IsValid answer h (fetch channel_id limit) v =
    submit_valid-IsValid answer h _ _ v (fetch-IsWellFormed channel_id limit)
call-IsValid answer h (fetch_before channel_id before limit) v =
    go (validate_message_id before) (message_id-Passes before)
  where
    go :
        (check : Result (Unit {0}) RestSubmitError)
        → Passes check (is_snowflake before ≡ true)
        → IsValid
            (elim check as (λ _. RestHandle × Result ℕ RestSubmitError) [
              | err e ↦ (h, err e)
              | ok _ ↦ submit_history answer h channel_id (some before) limit
            ]).0
    go (err e) p = v
    go (ok _) p = submit_valid-IsValid answer h _ _ v (
        Passes-map _ _ (validate_channel_id channel_id >>= λ _. validate_history_limit limit)
          (λ (c, l, u). (c, p, l, u)) (fetch-IsWellFormed channel_id limit))
