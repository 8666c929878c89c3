-- ===== src/Base/Decimal.antt =====
-- Numbers as the decimal texts that Rust prints, and `parse::<u64>`, which reads them back.
use Prim.Native.Nat.{ℕ, zero, suc, ◌+◌, ◌-◌, ◌*◌, ◌/◌, ◌%◌, ◌≤◌, ◌<◌}
use mathlib.Core.Path.{◌≡◌, ◌∙◌}
use mathlib.Core.Bool.{true, false, ◌&&◌}
use mathlib.Core.Logic.{inl, inr}
use mathlib.Core.Option.{Option, none, some}
use mathlib.Core.List.{[], ◌∷◌}
use native.Mathlib.Omega.{arith}
use diddycord.Base.Tests.{leb, ltb, ◌==◌, if◌then◌else◌, if_cases, Bool-cases}
use diddycord.Base.Text.{Str}
use diddycord.Base.Words.{u64_max}

-- The digits of a number in front of `rest`, on fuel.
unfoldable pub print_loop : ℕ → ℕ → Str → Str
print_loop zero n rest = rest
print_loop (suc fuel) n rest =
    let text = (48 + n % 10) ∷ rest in
    let longer = print_loop fuel (n / 10) text in if ltb n 10 then text else longer

-- The fuel is enough, since a division by ten makes a number other than zero smaller.
unfoldable pub print : ℕ → Str
unfolding print_loop
print n = print_loop (suc n) n []

-- The digits that follow a value, as long as it stays a `u64`.
unfoldable pub parse_digits : ℕ → Str → Option ℕ
parse_digits value [] = some value
parse_digits value (byte ∷ text) =
    let next = value * 10 + (byte - 48) in
    elim (leb 48 byte && leb byte 57 && leb next u64_max) [
      | true ↦ parse_digits next text
      | false ↦ none
    ]

-- A sign `+` may stand in front, and there must be a digit.
unfoldable pub parse_u64 : Str → Option ℕ
unfolding parse_digits
parse_u64 [] = none
parse_u64 (byte ∷ []) = if byte == 43 then none else parse_digits 0 (byte ∷ [])
parse_u64 (byte ∷ next ∷ text) =
    if byte == 43 then parse_digits 0 (next ∷ text) else parse_digits 0 (byte ∷ next ∷ text)

-- Reading what `print_loop` puts in front of a text is reading the text after the number.
parse_digits-print_loop :
    (fuel n : ℕ) (rest : Str)
    → n < fuel
    → n ≤ u64_max
    → parse_digits 0 (print_loop fuel n rest) ≡ parse_digits n rest
unfolding print_loop parse_digits
parse_digits-print_loop zero n rest h k = absurd (omega arith)
parse_digits-print_loop (suc fuel) n rest h k = elim (Bool-cases (ltb n 10)) [
  | inl last ↦ rw last (ground (arith, last))
  | inr more ↦ rw more (
      parse_digits-print_loop fuel (n / 10) ((48 + n % 10) ∷ rest) (ground (arith, more))
        (omega arith)
      ∙ ground (arith, more))
]

-- A text that starts with a digit.
abbrev StartsWithDigit : Str → Type 0
StartsWithDigit [] = ⊥
StartsWithDigit (byte ∷ text) = 48 ≤ byte

print_loop-StartsWithDigit :
    (fuel n : ℕ) (rest : Str) → n < fuel → StartsWithDigit (print_loop fuel n rest)
unfolding print_loop
print_loop-StartsWithDigit zero n rest h = absurd (omega arith)
print_loop-StartsWithDigit (suc fuel) n rest h =
    if_cases StartsWithDigit (ltb n 10) (λ _. omega arith)
      (λ more.
        print_loop-StartsWithDigit fuel (n / 10) ((48 + n % 10) ∷ rest) (ground (arith, more)))

parse_u64_unsigned : (s : Str) → StartsWithDigit s → parse_u64 s ≡ parse_digits 0 s
unfolding parse_u64
parse_u64_unsigned [] h = elim h [ ]
parse_u64_unsigned (byte ∷ []) h = ground arith
parse_u64_unsigned (byte ∷ next ∷ text) h = ground arith

-- A `u64` is read back from its text.
pub parse_u64-print : (n : ℕ) → n ≤ u64_max → parse_u64 (print n) ≡ some n
unfolding print parse_digits
parse_u64-print n h =
    parse_u64_unsigned (print n) (print_loop-StartsWithDigit (suc n) n [] (omega arith))
    ∙ parse_digits-print_loop (suc n) n [] (omega arith) h
