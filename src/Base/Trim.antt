-- ===== src/Base/Trim.antt =====
-- Rust's `str::trim` on the bytes of a text: the characters of the Unicode property White_Space go
-- at both ends.
use Prim.Native.Nat.{ℕ, zero, suc}
use mathlib.Core.Bool.{Bool, ◌&&◌, ◌||◌}
use mathlib.Core.List.{[], ◌∷◌, reverse}
use diddycord.Base.Tests.{leb, ◌==◌, if◌then◌else◌}
use diddycord.Base.Text.{Str}

-- Tabs, line feeds, carriage returns and spaces.
abbrev pub is_space : ℕ → Bool
is_space byte = (leb 9 byte && leb byte 13) || byte == 32

-- U+0085 and U+00A0.
abbrev is_space2 : ℕ → ℕ → Bool
is_space2 a b = a == 0xc2 && (b == 0x85 || b == 0xa0)

-- U+1680, U+2000 to U+200A, U+2028, U+2029, U+202F, U+205F and U+3000.
abbrev is_space3 : ℕ → ℕ → ℕ → Bool
is_space3 a b c =
    (a == 0xe1 && b == 0x9a && c == 0x80)
    || (a == 0xe2
        && ((b == 0x80 && (leb 0x80 c && leb c 0x8a || c == 0xa8 || c == 0xa9 || c == 0xaf))
            || (b == 0x81 && c == 0x9f)))
    || (a == 0xe3 && b == 0x80 && c == 0x80)

-- The number of bytes of the white character in front, or 0.
unfoldable pub leading_space : Str → ℕ
leading_space [] = 0
leading_space (a ∷ []) = if is_space a then 1 else 0
leading_space (a ∷ b ∷ []) = if is_space a then 1 else if is_space2 a b then 2 else 0
leading_space (a ∷ b ∷ c ∷ s) =
    if is_space a then 1 else if is_space2 a b then 2 else if is_space3 a b c then 3 else 0

-- The same at the end, for a text that is reversed.
unfoldable pub trailing_space : Str → ℕ
trailing_space [] = 0
trailing_space (a ∷ []) = if is_space a then 1 else 0
trailing_space (b ∷ a ∷ []) = if is_space b then 1 else if is_space2 a b then 2 else 0
trailing_space (c ∷ b ∷ a ∷ s) =
    if is_space c then 1 else if is_space2 b c then 2 else if is_space3 a b c then 3 else 0

-- Drops `skip` bytes, and then white characters as long as there are any.
unfoldable pub drop_space : (Str → ℕ) → ℕ → Str → Str
drop_space space skip [] = []
drop_space space (suc skip) (x ∷ s) = drop_space space skip s
drop_space space zero (x ∷ s) = elim (space (x ∷ s)) [
  | zero ↦ x ∷ s
  | suc skip ↦ drop_space space skip s
]

unfoldable pub trim : Str → Str
unfolding drop_space leading_space trailing_space
trim s = reverse (drop_space trailing_space 0 (reverse (drop_space leading_space 0 s)))
