-- ===== src/Rest/Schedule.antt =====
-- The tries of `execute` in src/rest.rs: how many, when, and the event at the end.
use diddycord.Base.{
  ℕ, zero, suc, ◌+◌, ◌*◌, ◌≤◌, ◌≡◌, refl, sym, ap, ◌∙◌, true, List, [], ◌∷◌, Option, none, some,
  Str, arith, length, not, if_cases,
}
use mathlib.Core.Path.{subst}
use diddycord.Base.Results.{Result, ok, err}
use diddycord.Events.{FailedRequest, failed}
use diddycord.Rest.Commands.{RestCommand, fail}
use diddycord.Rest.Headers.{Float}
use diddycord.Rest.Responses.{
  ApiError, ApiMessage, HttpResponse, RequestError, network, serialization, body_too_large,
}
use diddycord.Rest.Dispatcher.{
  Dispatcher, Try, request_failed, note_reset, wait_for_rate_limit, conclude, execute,
  max_rate_limit_retries, is_success,
}
use diddycord.Rest.Waits.{wanted_after, wanted_after_lem}
use diddycord.Rest.Retries.{
  IsAnswer, succeed-IsAnswer, Outcome, loop, reply, delay_of, after_try, next_try, loop-induct,
}

-- Each time in the list is no earlier than what `earliest` says of the try before it, whose number
-- and time it is given.
abbrev pub Spaced : (ℕ → ℕ → ℕ) → ℕ → List ℕ → Type 0
Spaced earliest n [] = Unit {0}
Spaced earliest n (t ∷ []) = Unit {0}
Spaced earliest n (t ∷ u ∷ times) = (earliest n t ≤ u) × Spaced earliest (n + 1) (u ∷ times)

module _ (f : Float) (read_message : Str → Option ApiMessage)
    (read_messages : Str → Option (List ApiMessage)) (read_error : Str → Option (ApiError f.F))
    (answers : ℕ → Try) (command : RestCommand) where
  abbrev run : ℕ → ℕ → Dispatcher → Outcome
  run = loop f read_message read_messages read_error answers command

  abbrev next : ℕ → Dispatcher → HttpResponse → Dispatcher
  next = next_try f read_message read_messages read_error answers command

  abbrev pub delay_after : ℕ → ℕ
  delay_after n = elim (reply f read_message read_messages read_error answers command n) [
    | err e ↦ 0
    | ok response ↦ delay_of f read_message read_messages read_error answers command response
  ]

  noted-now : (d : Dispatcher) (response : HttpResponse) → (note_reset d response).now ≡ d.now
  noted-now d response = go response.exhausted_reset
    where
      go :
          (o : Option ℕ)
          → (elim o as (λ _. Dispatcher) [
            | none ↦ d
            | some delay ↦ record d { rate_limit_until = some (d.now + delay) }
          ]).now
            ≡ d.now
      go none = refl
      go (some delay) = refl

  -- The wait lasts until the rate limit ends, and no longer.
  next-now :
      (n : ℕ) (d : Dispatcher) (response : HttpResponse)
      → (next n d response).now
        ≡ d.now
          + (answers n).elapsed
          + delay_of f read_message read_messages read_error answers command response
  unfolding wait_for_rate_limit
  next-now n d response = ground (
    arith,
    noted-now (after_try f read_message read_messages read_error answers command n d) response,
  )

  request_failed-IsAnswer : (e : RequestError) → IsAnswer command (request_failed command e)
  unfolding request_failed fail
  request_failed-IsAnswer (network transient) = (refl, refl)
  request_failed-IsAnswer serialization = (refl, refl)
  request_failed-IsAnswer body_too_large = (refl, refl)

  conclude-IsAnswer :
      (response : HttpResponse)
      → IsAnswer command (conclude f read_message read_messages read_error command response)
  unfolding conclude fail
  conclude-IsAnswer response =
      if_cases (IsAnswer command) (not (is_success response.status)) (λ _. (refl, refl))
        (λ _. succeed-IsAnswer read_message read_messages command response.body)

  -- Whatever the transport answers, `execute` ends, and with an event that answers the command: it
  -- carries the command's request id, and it is the success of the command's own operation or a
  -- failure that names this operation.
  pub execute-IsAnswer :
      (d : Dispatcher)
      → IsAnswer command (execute f read_message read_messages read_error answers command d).1
  unfolding execute fail
  execute-IsAnswer d =
      loop-induct f read_message read_messages read_error answers command
        (λ left n d r. IsAnswer command r.1) (λ left n d e h. request_failed-IsAnswer e)
        (λ left n d response h free. conclude-IsAnswer response)
        (λ n d response h limited. (refl, refl)) (λ left n d response r h limited answer. answer)
        max_rate_limit_retries 0 d

  abbrev Tries : ℕ → ℕ → Dispatcher → Outcome → Type 0
  Tries left n d r =
      (times : List ℕ) × (r.2 ≡ d.now ∷ times)
      × (length times ≤ left)
      × Spaced (λ n t. t + (answers n).elapsed + delay_after n) n r.2

  Spaced-again :
      (n t u : ℕ) (later times : List ℕ)
      → times ≡ u ∷ later
      → t + (answers n).elapsed + delay_after n ≤ u
      → Spaced (λ n t. t + (answers n).elapsed + delay_after n) (n + 1) times
      → Spaced (λ n t. t + (answers n).elapsed + delay_after n) n (t ∷ times)
  Spaced-again n t u later times same late spaced =
      let P = λ (times : List ℕ).
        Spaced (λ n t. t + (answers n).elapsed + delay_after n) (n + 1) times
        → Spaced (λ n t. t + (answers n).elapsed + delay_after n) n (t ∷ times) in
      subst P (sym same) (λ spaced. (late, spaced)) spaced

  again-Tries :
      (left n : ℕ) (d : Dispatcher) (response : HttpResponse) (r : Outcome)
      → reply f read_message read_messages read_error answers command n ≡ ok response
      → Tries left (n + 1) (next n d response) r
      → Tries (suc left) n d (r.0, r.1, d.now ∷ r.2)
  again-Tries left n d response r h (times, same, few, spaced) =
      let delay : delay_after n
          ≡ delay_of f read_message read_messages read_error answers command response =
        rw (h, delay_after) refl in
      (
        r.2,
        refl,
        omega (arith, ap length same, few),
        Spaced-again n d.now (next n d response).now times r.2 same
            (omega (arith, next-now n d response, delay)) spaced,
      )

  execute-delays :
      (d : Dispatcher)
      → Tries max_rate_limit_retries 0 d
          (execute f read_message read_messages read_error answers command d)
  unfolding execute
  execute-delays d =
      loop-induct f read_message read_messages read_error answers command Tries
        (λ left n d e h. ([], refl, omega arith, tt))
        (λ left n d response h free. ([], refl, omega arith, tt))
        (λ n d response h limited. ([], refl, omega arith, tt))
        (λ left n d response r h limited more. again-Tries left n d response r h more)
        max_rate_limit_retries 0 d

  -- `execute` sends a first try at once and at most five more, each of them no earlier than the
  -- answer to the one before plus the delay that this answer asks for: the number of seconds of its
  -- `retry-after` header, else the one in its body, if they can be read and are finite and not
  -- negative, in milliseconds, rounded up and clamped to between one and 300,000; else a second.
  pub execute-Tries :
      (d : Dispatcher)
      → let tries = (execute f read_message read_messages read_error answers command d).2 in
        (times : List ℕ) × (tries ≡ d.now ∷ times)
        × (length times ≤ 5)
        × Spaced
            (λ n t. t + (answers n).elapsed + wanted_after f read_error answers command n)
            0
            tries
  execute-Tries d =
      let tries = (execute f read_message read_messages read_error answers command d).2 in
      let (times, same, few, spaced) = execute-delays d in
      (
        times,
        same,
        few,
        subst (λ (w : ℕ → ℕ). Spaced (λ n t. t + (answers n).elapsed + w n) 0 tries)
            (λ i n. wanted_after_lem f read_error answers command read_message read_messages n i)
            spaced,
      )

  abbrev budget : ℕ → ℕ → ℕ → ℕ
  budget zero e w = e
  budget (suc left) e w = e + w + budget left e w

  budget-first : (left e w : ℕ) → e ≤ budget left e w
  budget-first zero e w = omega arith
  budget-first (suc left) e w = omega arith

  -- Where each try takes at most `e` and each wait that an answer asks for, clamped as it is, is at
  -- most `w`, a command is over within six tries and five waits.
  pub execute-deadline :
      (d : Dispatcher) (e w : ℕ)
      → ((n : ℕ) → (answers n).elapsed ≤ e)
      → ((n : ℕ) → delay_after n ≤ w)
      → (execute f read_message read_messages read_error answers command d).0.now
        ≤ d.now + 6 * e + 5 * w
  unfolding execute
  execute-deadline d e w quick short =
      let after = after_try f read_message read_messages read_error answers command in
      let bound =
        loop-induct f read_message read_messages read_error answers command
          (λ left n d r. r.0.now ≤ d.now + budget left e w)
          (λ left n d x h. omega (arith, quick n, budget-first left e w))
          (λ left n d response h free.
            omega (arith, quick n, budget-first left e w, noted-now (after n d) response))
          (λ n d response h limited. omega (arith, quick n, noted-now (after n d) response))
          (λ left n d response r h limited more.
            let delay : delay_after n
                ≡ delay_of f read_message read_messages read_error answers command response =
              rw (h, delay_after) refl in
            omega (arith, quick n, short n, delay, more, next-now n d response))
          max_rate_limit_retries 0 d in
      omega (arith, bound)

  -- A rate limit that lasts through all tries ends in a failure that can be retried, with status
  -- 429, after six tries exactly.
  pub execute-exhausted :
      (d : Dispatcher)
      → ((n : ℕ)
          → (response : HttpResponse) × (reply f read_message read_messages read_error answers
                command n
              ≡ ok response)
            × (response.status ≡ 429))
      → let (end, event, tries) =
          execute f read_message read_messages read_error answers command d in
        (length tries ≡ 6)
        × (failure : FailedRequest) × (event ≡ failed failure)
        × (failure.status ≡ some 429)
        × (failure.retryable ≡ true)
  unfolding execute fail
  execute-exhausted d all =
      let same_ok : (n : ℕ) (response : HttpResponse)
          → reply f read_message read_messages read_error answers command n ≡ ok response
          → response.status ≡ 429 =
        λ n response h.
          let (other, same, limited) = all n in
          ap
            (λ (r : Result HttpResponse RequestError). elim r as (λ _. ℕ) [
              | ok x ↦ x.status
              | err _ ↦ 429
            ])
            (sym h ∙ same)
          ∙ limited in
      loop-induct f read_message read_messages read_error answers command
        (λ left n d r.
          (length r.2 ≡ left + 1)
          × (failure : FailedRequest) × (r.1 ≡ failed failure)
          × (failure.status ≡ some 429)
          × (failure.retryable ≡ true))
        (λ left n d e h. let (response, same, _) = all n in absurd (ground (arith, h, same)))
        (λ left n d response h free. absurd (ground (arith, free, same_ok n response h)))
        (λ n d response h limited. (refl, _, refl, ap some (same_ok n response h), refl))
        (λ left n d response r h limited (count, more, same, status, again).
          (omega (arith, count), more, same, status, again))
        max_rate_limit_retries 0 d
