-- ===== src/Rest/Bodies.antt =====
-- What `read_limited_body` and `parse_rest_messages` of src/rest.rs let through.
use diddycord.Base.{
  ℕ, ◌+◌, ◌≤◌, ◌<◌, ◌≡◌, sym, ap, ◌∙◌, inl, inr, true, List, [], ◌∷◌, ◌++◌, Option, none, some, Str,
  str_eq, All, arith, ltb, length, length-append, u64_max, min, if◌then◌else◌, if_cases,
  Option-cases, Bool-cases, map, refl,
}
use mathlib.Core.List.{append-nil, append_assoc}
use mathlib.Core.Path.{subst}
use diddycord.Base.Results.{Result, ok, err}
use diddycord.Events.{RestMessage}
use diddycord.Snowflake.{is_snowflake}
use diddycord.Rest.Responses.{
  ApiMessage, RequestError, Response, body_too_large, read_chunks, exceeds, read_limited_body,
  api_message_to_rest, convert_messages, parse_rest_messages,
}

abbrev pub concat : List Str → Str
concat [] = []
concat (chunk ∷ chunks) = chunk ++ concat chunks

read_chunks-concat :
    (max_body : ℕ) (body : Str) (chunks : List Str)
    → max_body < u64_max
    → length body ≤ max_body
    → read_chunks max_body body (map ok chunks) ≡ (
        if ltb max_body (length (body ++ concat chunks))
        then err body_too_large
        else ok (body ++ concat chunks))
unfolding read_chunks
read_chunks-concat max_body body [] big room = rw (append-nil body) (ground arith)
read_chunks-concat max_body body (chunk ∷ chunks) big room =
    let grown = body ++ chunk in
    if_cases
      (λ (r : Result Str RequestError). r ≡ (
        if ltb max_body (length (body ++ (chunk ++ concat chunks)))
        then err body_too_large
        else ok (body ++ (chunk ++ concat chunks))))
      (ltb max_body (min (length body + length chunk) u64_max))
      (λ over.
        ground
          (arith, length-append body (chunk ++ concat chunks), length-append chunk (concat chunks)))
      (λ fits.
        read_chunks-concat max_body grown chunks big (ground (arith, length-append body chunk))
        ∙ ap (λ (b : Str). if ltb max_body (length b) then err body_too_large else ok b)
            (append_assoc body chunk (concat chunks)))

-- A body whose chunks all arrive is read whole, their concatenation, if it and the announced length
-- are within the limit, and refused otherwise; the limit must be below the largest length.
pub read_limited_body-concat :
    (response : Response) (chunks : List Str) (max_body : ℕ)
    → response.chunks ≡ map ok chunks
    → max_body < u64_max
    → read_limited_body response max_body ≡ (
        if exceeds max_body response.content_length
        then err body_too_large
        else if ltb max_body (length (concat chunks))
        then err body_too_large
        else ok (concat chunks))
unfolding read_limited_body
read_limited_body-concat response chunks max_body arrive big =
    ap
      (λ (r : Result Str RequestError).
        if exceeds max_body response.content_length then err body_too_large else r)
      (ap (read_chunks max_body []) arrive
        ∙ read_chunks-concat max_body [] chunks big (omega arith))

-- A message of the page that was asked for.
abbrev pub IsOfPage : Str → RestMessage → Type 0
IsOfPage channel_id m = (str_eq m.channel_id channel_id ≡ true) × (is_snowflake m.id ≡ true)

api_message_to_rest-id :
    (m : ApiMessage) (r : RestMessage)
    → api_message_to_rest m ≡ some r
    → (r.id ≡ m.id) × (r.channel_id ≡ m.channel_id) × (is_snowflake m.id ≡ true)
unfolding api_message_to_rest
api_message_to_rest-id m r h = ground (arith, h)

-- The REST message has the payload's ids, its content, empty where there is none, and the name of
-- its author, if it has one.
abbrev pub IsCopy : ApiMessage → RestMessage → Type 0
IsCopy m r =
    (r.id ≡ m.id)
    × (r.channel_id ≡ m.channel_id)
    × (r.content ≡ elim m.content as (λ _. Str) [ none ↦ [] | some content ↦ content ])
    × (r.author_username
        ≡ elim m.author as (λ _. Option Str) [ none ↦ none | some author ↦ author.username ])

-- The messages are the payload's, one for one and in order.
abbrev pub Copies : List ApiMessage → List RestMessage → Type 0
Copies [] [] = Unit {0}
Copies (m ∷ ms) (r ∷ rs) = IsCopy m r × Copies ms rs
Copies _ _ = ⊥

Copies-length :
    (ms : List ApiMessage) (rs : List RestMessage) → Copies ms rs → length rs ≡ length ms
Copies-length [] [] c = refl
Copies-length [] (r ∷ rs) c = elim c [ ]
Copies-length (m ∷ ms) [] c = elim c [ ]
Copies-length (m ∷ ms) (r ∷ rs) (same, c) = ground (arith, Copies-length ms rs c)

api_message_to_rest-IsCopy :
    (m : ApiMessage) (r : RestMessage)
    → api_message_to_rest m ≡ some r
    → IsCopy m r × (is_snowflake m.id ≡ true)
unfolding api_message_to_rest
api_message_to_rest-IsCopy m r h = ground (arith, h)

-- What a converted page satisfies.
abbrev IsPage : Str → List ApiMessage → List RestMessage → Type 0
IsPage channel_id ms rs = All (IsOfPage channel_id) rs × Copies ms rs

convert_messages-IsPage :
    (channel_id : Str) (ms : List ApiMessage) (rs : List RestMessage)
    → convert_messages channel_id ms ≡ some rs
    → IsPage channel_id ms rs
unfolding convert_messages
convert_messages-IsPage channel_id [] rs h =
    let none_left : [] ≡ rs = ground (arith, h) in subst (IsPage channel_id []) none_left (tt, tt)
convert_messages-IsPage channel_id (m ∷ ms) rs h =
    elim (Option-cases (convert_messages channel_id ms)) [
      | inl f ↦ absurd (ground (arith, h, f))
      | inr (others, f) ↦ elim (Option-cases (api_message_to_rest m)) [
        | inl e ↦ absurd (ground (arith, h, f, e))
        | inr (r, e) ↦
            let (copy, snowflake) = api_message_to_rest-IsCopy m r e in
            let (own, copies) = convert_messages-IsPage channel_id ms others f in
            let here : IsOfPage channel_id r = ground (arith, h, f, e, copy.0, copy.1, snowflake) in
            let shape : (r ∷ others) ≡ rs = ground (arith, h, f, e) in
            subst (IsPage channel_id (m ∷ ms)) shape ((here, own), (copy, copies))
      ]
    ]

-- A page that is parsed has at most `limit` messages, all of the channel that was asked for and
-- with snowflakes as ids, and it is the payload's messages, all of them and in the payload's order:
-- each with its id, its channel's, its content and the name of its author, where it has them.
pub parse_rest_messages-IsPage :
    (read_message : Str → Option ApiMessage) (read_messages : Str → Option (List ApiMessage))
    (body channel_id : Str) (limit : ℕ) (ms : List ApiMessage) (rs : List RestMessage)
    → read_messages body ≡ some ms
    → parse_rest_messages read_message read_messages body channel_id limit ≡ some rs
    → (length rs ≤ limit) × All (IsOfPage channel_id) rs × Copies ms rs
unfolding parse_rest_messages
parse_rest_messages-IsPage read_message read_messages body channel_id limit ms rs read h =
    let parsed : (if ltb limit (length ms) then none else convert_messages channel_id ms)
        ≡ some rs =
      sym (
        ap
          (λ (o : Option (List ApiMessage)). elim o as (λ _. Option (List RestMessage)) [
            | none ↦ none
            | some messages ↦
                if ltb limit (length messages) then none else convert_messages channel_id messages
          ])
          read)
      ∙ h in
    elim (Bool-cases (ltb limit (length ms))) [
      | inl over ↦ absurd (ground (arith, parsed, over))
      | inr fits ↦
          let (own, copies) =
            convert_messages-IsPage channel_id ms rs (ground (arith, parsed, fits)) in
          (ground (arith, Copies-length ms rs copies, fits), own, copies)
    ]
