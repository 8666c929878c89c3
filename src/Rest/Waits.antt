-- ===== src/Rest/Waits.antt =====
-- How long src/rest.rs waits after a rate limit, from the headers and the body of the answer.
use diddycord.Base.{
  ℕ, ◌≡◌, refl, ap, ◌∙◌, List, Option, none, some, Str, arith, not, ◌&&◌, if◌then◌else◌, bytes,
  unwrap_or,
}
use diddycord.Base.Results.{Result, ok, err}
use diddycord.Rest.Commands.{RestCommand, response_body_limit}
use diddycord.Rest.Headers.{
  Float, seconds_to_duration, parse_seconds_header, retry_after_header, exhausted_reset,
}
use diddycord.Rest.Responses.{
  ApiError, ApiMessage, HttpResponse, Response, RequestError, receive, read_limited_body,
}
use diddycord.Rest.Dispatcher.{
  Try, send_once, retry_after_from_body, retry_delay, default_retry_delay,
}

module _ (f : Float) (read_error : Str → Option (ApiError f.F)) (answers : ℕ → Try)
    (command : RestCommand) where
  -- The milliseconds that a number of seconds stands for, if it is finite and not negative: rounded
  -- up, and from one to five minutes' worth.
  abbrev asked : f.F → Option ℕ
  asked seconds =
      if f.is_finite seconds && not (f.is_negative seconds)
      then some (
          f.to_u64 (
            f.fmin (f.fmax (f.ceil (f.mul seconds (f.of_nat 1000))) (f.of_nat 1))
              (f.of_nat 300000)))
      else none

  abbrev header_wait : (Str → Option Str) → Option ℕ
  header_wait headers = elim (headers (bytes "retry-after")) [
    | none ↦ none
    | some value ↦ elim (f.parse value) [ none ↦ none | some seconds ↦ asked seconds ]
  ]

  abbrev body_wait : Str → Option ℕ
  body_wait body = elim (read_error body) [
    | none ↦ none
    | some e ↦ elim e.retry_after [ none ↦ none | some seconds ↦ asked seconds ]
  ]

  abbrev first_of : Option ℕ → Option ℕ → ℕ
  first_of (some delay) _ = delay
  first_of none (some delay) = delay
  first_of none none = 1000

  -- The wait that the answer to a try asks for, if its body can be read.
  abbrev pub wanted_after : ℕ → ℕ
  wanted_after n = elim (answers n).answer [
    | err e ↦ 0
    | ok response ↦ elim (read_limited_body response (response_body_limit command.kind)) [
      | err e ↦ 0
      | ok body ↦ first_of (header_wait response.headers) (body_wait body)
    ]
  ]

  seconds_to_duration_lem : (seconds : f.F) → seconds_to_duration f seconds ≡ asked seconds
  unfolding seconds_to_duration
  seconds_to_duration_lem seconds = ground arith

  header_wait_lem :
      (headers : Str → Option Str) → retry_after_header f headers ≡ header_wait headers
  unfolding retry_after_header parse_seconds_header
  header_wait_lem headers = go (headers (bytes "retry-after"))
    where
      go_text :
          (seconds : Option f.F)
          → (elim seconds as (λ _. Option ℕ) [ none ↦ none | some x ↦ seconds_to_duration f x ])
            ≡ (elim seconds as (λ _. Option ℕ) [ none ↦ none | some x ↦ asked x ])
      go_text none = refl
      go_text (some x) = seconds_to_duration_lem x

      go :
          (value : Option Str)
          → parse_seconds_header f value ≡ (elim value as (λ _. Option ℕ) [
            | none ↦ none
            | some text ↦ elim (f.parse text) as (λ _. Option ℕ) [ none ↦ none | some x ↦ asked x ]
          ])
      go none = refl
      go (some text) = go_text (f.parse text)

  body_wait_lem :
      (read_message : Str → Option ApiMessage) (read_messages : Str → Option (List ApiMessage))
      (body : Str)
      → retry_after_from_body f read_message read_messages read_error body ≡ body_wait body
  unfolding retry_after_from_body
  body_wait_lem read_message read_messages body = go (read_error body)
    where
      go_seconds :
          (seconds : Option f.F)
          → (elim seconds as (λ _. Option ℕ) [ none ↦ none | some x ↦ seconds_to_duration f x ])
            ≡ (elim seconds as (λ _. Option ℕ) [ none ↦ none | some x ↦ asked x ])
      go_seconds none = refl
      go_seconds (some x) = seconds_to_duration_lem x

      go :
          (o : Option (ApiError f.F))
          → (elim o as (λ _. Option ℕ) [
            | none ↦ none
            | some e ↦ elim e.retry_after as (λ _. Option ℕ) [
              | none ↦ none
              | some x ↦ seconds_to_duration f x
            ]
          ])
            ≡ (elim o as (λ _. Option ℕ) [
              | none ↦ none
              | some e ↦ elim e.retry_after as (λ _. Option ℕ) [ none ↦ none | some x ↦ asked x ]
            ])
      go none = refl
      go (some e) = go_seconds e.retry_after

  first_of_lem :
      (header body : Option ℕ)
      → (elim header as (λ _. ℕ) [ some delay ↦ delay | none ↦ unwrap_or body default_retry_delay ])
        ≡ first_of header body
  first_of_lem (some delay) _ = refl
  first_of_lem none (some delay) = refl
  first_of_lem none none = refl

  -- The dispatcher waits what the answer asks for.
  pub wanted_after_lem :
      (read_message : Str → Option ApiMessage) (read_messages : Str → Option (List ApiMessage))
      (n : ℕ)
      → (elim (send_once f command (answers n)) as (λ _. ℕ) [
        | err e ↦ 0
        | ok response ↦ retry_delay f read_message read_messages read_error response
      ])
        ≡ wanted_after n
  unfolding send_once receive retry_delay
  wanted_after_lem read_message read_messages n = go (answers n).answer
    where
      go_body :
          (response : Response) (read : Result Str RequestError)
          → (elim (elim read as (λ _. Result HttpResponse RequestError) [
            | err e ↦ err e
            | ok body ↦ ok (record {
              status = response.status;
              retry_after = retry_after_header f response.headers;
              exhausted_reset = exhausted_reset f response.headers;
              body = body;
            })
          ])
              as (λ _. ℕ) [
                | err e ↦ 0
                | ok r ↦ retry_delay f read_message read_messages read_error r
              ])
            ≡ (elim read as (λ _. ℕ) [
              | err e ↦ 0
              | ok body ↦ first_of (header_wait response.headers) (body_wait body)
            ])
      go_body response (err e) = refl
      go_body response (ok body) =
          first_of_lem (retry_after_header f response.headers)
            (retry_after_from_body f read_message read_messages read_error body)
          ∙ ap
              (λ h. first_of h (retry_after_from_body f read_message read_messages read_error body))
              (header_wait_lem response.headers)
          ∙ ap (first_of (header_wait response.headers))
              (body_wait_lem read_message read_messages body)

      go :
          (answer : Result Response RequestError)
          → (elim (elim answer as (λ _. Result HttpResponse RequestError) [
            | err e ↦ err e
            | ok response ↦ receive f response (response_body_limit command.kind)
          ])
              as (λ _. ℕ) [
                | err e ↦ 0
                | ok r ↦ retry_delay f read_message read_messages read_error r
              ])
            ≡ (elim answer as (λ _. ℕ) [
              | err e ↦ 0
              | ok response ↦
                  elim (read_limited_body response (response_body_limit command.kind)) as (λ _. ℕ) [
                    | err e ↦ 0
                    | ok body ↦ first_of (header_wait response.headers) (body_wait body)
                  ]
            ])
      go (err e) = refl
      go (ok response) =
          go_body response (read_limited_body response (response_body_limit command.kind))
