-- ===== src/Rest/Reader.antt =====
-- How a server reads the requests of src/rest.rs: from the method, the URL and the content it recovers
-- the command.
use diddycord.Base.{ℕ, [], ◌∷◌, ◌++◌, Option, none, some, Str, bytes, ◌==◌, if◌then◌else◌}
use diddycord.Base.Decimal.{parse_digits}
use diddycord.Snowflake.{is_ascii_digit}
use diddycord.Rest.Commands.{
  RestCommandKind, send_message, edit_message, delete_message, fetch_messages, Request, Method,
  api_base,
}

-- The text behind a prefix.
unfoldable strip : Str → Str → Option Str
strip [] s = some s
strip (p ∷ prefix) [] = none
strip (p ∷ prefix) (x ∷ s) = let rest = strip prefix s in if p == x then rest else none

-- The leading digits, and what follows them.
unfoldable pub span_digits : Str → Str × Str
span_digits [] = ([], [])
span_digits (x ∷ s) =
    let (digits, rest) = span_digits s in
    if is_ascii_digit x then (x ∷ digits, rest) else ([], x ∷ s)

-- Behind the channel's id, the path of its messages.
pub messages_of : Str × Str → Option (Str × Str)
unfolding strip
messages_of (id, rest) = elim (strip (bytes "/messages") rest) [
  | none ↦ none
  | some tail ↦ some (id, tail)
]

-- The channel's id, and what follows the path of its messages.
unfoldable pub read_path : Str → Option (Str × Str)
unfolding strip span_digits messages_of
read_path url = elim (strip (api_base ++ bytes "/channels/") url) [
  | none ↦ none
  | some path ↦ messages_of (span_digits path)
]

pub only_id : Str × Str → Option Str
only_id (id, []) = some id
only_id (id, _ ∷ _) = none

-- A message's id, at the end of a path.
unfoldable pub read_message_id : Str → Option Str
unfolding strip span_digits only_id
read_message_id tail = elim (strip (bytes "/") tail) [
  | none ↦ none
  | some id ↦ only_id (span_digits id)
]

with_anchor : ℕ → Str → Option (ℕ × Option Str)
unfolding strip
with_anchor limit [] = some (limit, none)
with_anchor limit (x ∷ rest) = elim (strip (bytes "&before=") (x ∷ rest)) [
  | none ↦ none
  | some before ↦ some (limit, some before)
]

pub limit_of : Str × Str → Option (ℕ × Option Str)
unfolding with_anchor
limit_of (digits, rest) = elim (parse_digits 0 digits) [
  | none ↦ none
  | some limit ↦ with_anchor limit rest
]

-- The limit, and the anchor if there is one.
unfoldable pub read_query : Str → Option (ℕ × Option Str)
unfolding strip span_digits limit_of
read_query tail = elim (strip (bytes "?limit=") tail) [
  | none ↦ none
  | some query ↦ limit_of (span_digits query)
]

-- What a method makes of the channel's id, the tail of the path and the content.
unfoldable pub read_tail : Method → Str → Str → Option Str → Option RestCommandKind
unfolding read_message_id read_query
read_tail Method.post id [] (some content) = some (send_message id content)
read_tail Method.patch id tail (some content) = elim (read_message_id tail) [
  | none ↦ none
  | some message_id ↦ some (edit_message id message_id content)
]
read_tail Method.delete id tail none = elim (read_message_id tail) [
  | none ↦ none
  | some message_id ↦ some (delete_message id message_id)
]
read_tail Method.get id tail none = elim (read_query tail) [
  | none ↦ none
  | some (limit, before) ↦ some (fetch_messages id before limit)
]
read_tail _ id tail content = none

unfoldable pub read_route : Method → Option Str → Option (Str × Str) → Option RestCommandKind
unfolding read_tail
read_route method content none = none
read_route method content (some (id, tail)) = read_tail method id tail content

unfoldable pub read_request : Request → Option RestCommandKind
unfolding read_path read_route
read_request r = read_route r.method r.content (read_path r.url)
