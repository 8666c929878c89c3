-- ===== src/Rest/Headers.antt =====
-- src/rest.rs: the delays that a response asks for, read from its headers and its body. The numbers of
-- 64-bit floating point are the values of an interface, with the laws of IEEE 754 that the bounds rest
-- on; delays are in milliseconds.
use diddycord.Base.{
  ℕ, ◌*◌, ◌^◌, ◌≤◌, ◌≡◌, Bool, not, ◌||◌, if◌then◌else◌, Option, none, some, Str, bytes, str_eq,
  arith, if_cases,
}

abbrev pub max_rate_limit_delay : ℕ
max_rate_limit_delay = 300 * 1000

-- `f64`: what the conversion to a duration uses of it.
pub record Float : Type 1 where
  pub F : Type 0
  pub is_finite : F → Bool
  pub is_negative : F → Bool
  pub of_nat : ℕ → F
  pub mul : F → F → F
  pub ceil : F → F
  pub fmax : F → F → F
  pub fmin : F → F → F
  pub to_u64 : F → ℕ
  pub parse : Str → Option F
  pub Le : F → F → Type 0
  -- The least and the greatest of two numbers, the first of which may be no number at all.
  pub le_fmax : (x : F) (n : ℕ) → Le (of_nat n) (fmax x (of_nat n))
  pub fmin_le : (x : F) (n : ℕ) → Le (fmin x (of_nat n)) (of_nat n)
  pub le_fmin : (x : F) (m n : ℕ) → m ≤ n → Le (of_nat m) x → Le (of_nat m) (fmin x (of_nat n))
  -- The conversion is monotone, and exact for small whole numbers.
  pub to_u64_mono : (x y : F) → Le x y → to_u64 x ≤ to_u64 y
  pub to_u64_whole : (n : ℕ) → n ≤ 2 ^ 53 → to_u64 (of_nat n) ≡ n

module _ (f : Float) where
  open f use {F, is_finite, is_negative, of_nat, mul, ceil, fmax, fmin, to_u64, parse}

  unfoldable pub seconds_to_duration : F → Option ℕ
  seconds_to_duration seconds =
      if not (is_finite seconds) || is_negative seconds
      then none
      else let millis =
          fmin (fmax (ceil (mul seconds (of_nat 1000))) (of_nat 1)) (of_nat max_rate_limit_delay) in
        some (to_u64 millis)

  -- The value is the header's text, `none` if it is no text.
  unfoldable pub parse_seconds_header : Option Str → Option ℕ
  unfolding seconds_to_duration
  parse_seconds_header none = none
  parse_seconds_header (some value) = elim (parse value) [
    | none ↦ none
    | some seconds ↦ seconds_to_duration seconds
  ]

  -- `headers` looks a header up.
  unfoldable pub retry_after_header : (Str → Option Str) → Option ℕ
  unfolding parse_seconds_header
  retry_after_header headers = parse_seconds_header (headers (bytes "retry-after"))

  unfoldable pub exhausted_reset : (Str → Option Str) → Option ℕ
  unfolding parse_seconds_header str_eq
  exhausted_reset headers = elim (headers (bytes "x-ratelimit-remaining")) [
    | none ↦ none
    | some remaining ↦
        if str_eq remaining (bytes "0")
        then parse_seconds_header (headers (bytes "x-ratelimit-reset-after"))
        else none
  ]

  -- From a millisecond to five minutes.
  abbrev pub InRange : Option ℕ → Type 0
  InRange none = Unit {0}
  InRange (some delay) = (1 ≤ delay) × (delay ≤ max_rate_limit_delay)

  seconds_to_duration-InRange : (seconds : F) → InRange (seconds_to_duration seconds)
  unfolding seconds_to_duration
  seconds_to_duration-InRange seconds =
      let x = fmax (ceil (mul seconds (of_nat 1000))) (of_nat 1) in
      let millis = fmin x (of_nat max_rate_limit_delay) in
      let low = f.to_u64_mono (of_nat 1) millis (
        f.le_fmin x 1 max_rate_limit_delay (omega arith)
          (f.le_fmax (ceil (mul seconds (of_nat 1000))) 1)) in
      let high =
        f.to_u64_mono millis (of_nat max_rate_limit_delay) (f.fmin_le x max_rate_limit_delay) in
      if_cases InRange (not (is_finite seconds) || is_negative seconds) (λ _. tt)
        (λ _. omega (
          arith,
          low,
          high,
          f.to_u64_whole 1 (omega arith),
          f.to_u64_whole max_rate_limit_delay (omega arith),
        ))

  parse_seconds_header-InRange : (value : Option Str) → InRange (parse_seconds_header value)
  unfolding parse_seconds_header
  parse_seconds_header-InRange none = tt
  parse_seconds_header-InRange (some value) = go (parse value)
    where
      go :
          (o : Option F)
          → InRange (elim o as (λ _. Option ℕ) [
            | none ↦ none
            | some seconds ↦ seconds_to_duration seconds
          ])
      go none = tt
      go (some seconds) = seconds_to_duration-InRange seconds

  -- Whatever the headers say, not a number, infinite or huge, the delays that they ask for are from
  -- a millisecond to five minutes, or there are none.
  pub headers-InRange :
      (headers : Str → Option Str)
      → InRange (retry_after_header headers) × InRange (exhausted_reset headers)
  unfolding retry_after_header exhausted_reset
  headers-InRange headers =
      (parse_seconds_header-InRange _, go (headers (bytes "x-ratelimit-remaining")))
    where
      go :
          (o : Option Str)
          → InRange (elim o as (λ _. Option ℕ) [
            | none ↦ none
            | some remaining ↦
                if str_eq remaining (bytes "0")
                then parse_seconds_header (headers (bytes "x-ratelimit-reset-after"))
                else none
          ])
      go none = tt
      go (some remaining) =
          if_cases InRange (str_eq remaining (bytes "0"))
            (λ _. parse_seconds_header-InRange (headers (bytes "x-ratelimit-reset-after")))
            (λ _. tt)
