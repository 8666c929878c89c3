-- ===== src/Rest/Routes.antt =====
-- The requests of src/rest.rs, read back by a server.
use mathlib.Core.List.{append_assoc, append-nil}
use diddycord.Base.{
  ℕ, ◌≤◌, ◌≡◌, refl, sym, ap, ◌∙◌, true, false, [], ◌∷◌, ◌++◌, Option, none, some, Str, bytes,
  arith,
}
use diddycord.Base.Decimal.{parse_digits}
use diddycord.Snowflake.{is_snowflake, is_ascii_digit, all_digits}
use diddycord.Rest.Commands.{
  RestCommandKind, send_message, edit_message, delete_message, fetch_messages, Method, request_of,
  messages_url, message_url, history_url, decimal, max_history_messages,
}
use diddycord.Rest.Submits.{IsWellFormed}
use diddycord.Rest.Reader.{
  span_digits, messages_of, read_path, only_id, read_message_id, limit_of, read_query, read_tail,
  read_route, read_request,
}

-- The text does not go on with a digit.
abbrev Stops : Str → Type 0
Stops [] = Unit {0}
Stops (x ∷ s) = is_ascii_digit x ≡ false

span_digits-append :
    (id rest : Str) → all_digits id ≡ true → Stops rest → span_digits (id ++ rest) ≡ (id, rest)
unfolding span_digits all_digits
span_digits-append [] [] h k = refl
span_digits-append [] (x ∷ rest) h k = ground (arith, k)
span_digits-append (x ∷ id) rest h k =
    ground (arith, h, span_digits-append id rest (ground (arith, h)) k)

snowflake-all_digits : (id : Str) → is_snowflake id ≡ true → all_digits id ≡ true
unfolding is_snowflake
snowflake-all_digits id h = ground (arith, h)

read_path-messages_url :
    (id tail : Str) → is_snowflake id ≡ true → read_path (messages_url id ++ tail) ≡ some (id, tail)
unfolding read_path messages_url
read_path-messages_url id tail h =
    ap (λ path. messages_of (span_digits path)) (append_assoc id (bytes "/messages") tail)
    ∙ ap messages_of
        (span_digits-append id (bytes "/messages" ++ tail) (snowflake-all_digits id h) refl)

read_message_id_lem :
    (id : Str) → is_snowflake id ≡ true → read_message_id (bytes "/" ++ id) ≡ some id
unfolding read_message_id
read_message_id_lem id h =
    ap (λ s. only_id (span_digits s)) (sym (append-nil id))
    ∙ ap only_id (span_digits-append id [] (snowflake-all_digits id h) tt)

decimal-all_digits : (n : ℕ) → all_digits (decimal n) ≡ true
unfolding decimal all_digits
decimal-all_digits n = ground arith

parse_digits-decimal : (n : ℕ) → n ≤ max_history_messages → parse_digits 0 (decimal n) ≡ some n
unfolding decimal parse_digits
parse_digits-decimal n h = ground (arith, h)

abbrev anchor : Option Str → Str
anchor none = []
anchor (some id) = bytes "&before=" ++ id

history_url-messages_url :
    (id : Str) (before : Option Str) (limit : ℕ)
    → history_url id before limit
      ≡ messages_url id ++ (bytes "?limit=" ++ (decimal limit ++ anchor before))
unfolding history_url messages_url
history_url-messages_url id none limit = simp (append_assoc, append-nil)
history_url-messages_url id (some before) limit = simp append_assoc

anchor-Stops : (before : Option Str) → Stops (anchor before)
anchor-Stops none = tt
anchor-Stops (some id) = refl

read_query_lem :
    (before : Option Str) (limit : ℕ)
    → limit ≤ max_history_messages
    → read_query (bytes "?limit=" ++ (decimal limit ++ anchor before)) ≡ some (limit, before)
unfolding read_query
read_query_lem before limit h =
    ap limit_of (
      span_digits-append (decimal limit) (anchor before) (decimal-all_digits limit)
        (anchor-Stops before))
    ∙ read before
  where
    read : (before : Option Str) → limit_of (decimal limit, anchor before) ≡ some (limit, before)
    read none = rw (parse_digits-decimal limit h, limit_of) refl
    read (some id) = rw (parse_digits-decimal limit h, limit_of) refl

read_request-messages_url :
    (method : Method) (content : Option Str) (url id tail : Str)
    → url ≡ messages_url id ++ tail
    → is_snowflake id ≡ true
    → read_request (record { method = method; url = url; content = content })
      ≡ read_tail method id tail content
unfolding read_request read_route
read_request-messages_url method content url id tail e h =
    ap (λ u. read_request (record { method = method; url = u; content = content })) e
    ∙ ap (read_route method content) (read_path-messages_url id tail h)

read_tail-post :
    (id content : Str) → read_tail Method.post id [] (some content) ≡ some (send_message id content)
unfolding read_tail
read_tail-post id content = refl

read_tail-patch :
    (id message_id content : Str)
    → is_snowflake message_id ≡ true
    → read_tail Method.patch id (bytes "/" ++ message_id) (some content)
      ≡ some (edit_message id message_id content)
unfolding read_tail
read_tail-patch id message_id content k = rw (read_message_id_lem message_id k, read_tail) refl

read_tail-delete :
    (id message_id : Str)
    → is_snowflake message_id ≡ true
    → read_tail Method.delete id (bytes "/" ++ message_id) none
      ≡ some (delete_message id message_id)
unfolding read_tail
read_tail-delete id message_id k = rw (read_message_id_lem message_id k, read_tail) refl

read_tail-get :
    (id : Str) (before : Option Str) (limit : ℕ)
    → limit ≤ max_history_messages
    → read_tail Method.get id (bytes "?limit=" ++ (decimal limit ++ anchor before)) none
      ≡ some (fetch_messages id before limit)
unfolding read_tail
read_tail-get id before limit k = rw (read_query_lem before limit k, read_tail) refl

fetch_bounds :
    (id : Str) (before : Option Str) (limit : ℕ)
    → IsWellFormed (fetch_messages id before limit)
    → (is_snowflake id ≡ true) × (limit ≤ max_history_messages)
fetch_bounds id none limit (h, _, k) = (h, k)
fetch_bounds id (some before) limit (h, _, _, k) = (h, k)

-- A server that reads the method, the path, the query and the content of a request recovers the
-- command it was made from, if the command is well formed, as all that are submitted are: no part of
-- an id or a content can end up in another part of the URL.
pub read_request-request_of :
    (kind : RestCommandKind) → IsWellFormed kind → read_request (request_of kind) ≡ some kind
unfolding request_of message_url
read_request-request_of (send_message id content) (h, _) =
    read_request-messages_url Method.post (some content) (messages_url id) id []
      (sym (append-nil (messages_url id))) h
    ∙ read_tail-post id content
read_request-request_of (edit_message id message_id content) (h, k, _) =
    read_request-messages_url Method.patch (some content) (message_url id message_id) id
      (bytes "/" ++ message_id) (append_assoc (messages_url id) (bytes "/") message_id) h
    ∙ read_tail-patch id message_id content k
read_request-request_of (delete_message id message_id) (h, k) =
    read_request-messages_url Method.delete none (message_url id message_id) id
      (bytes "/" ++ message_id) (append_assoc (messages_url id) (bytes "/") message_id) h
    ∙ read_tail-delete id message_id k
read_request-request_of (fetch_messages id before limit) w =
    let (h, k) = fetch_bounds id before limit w in
    read_request-messages_url Method.get none (history_url id before limit) id
      (bytes "?limit=" ++ (decimal limit ++ anchor before))
      (history_url-messages_url id before limit) h
    ∙ read_tail-get id before limit k
