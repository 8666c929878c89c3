-- ===== src/Snowflake.antt =====
-- `is_snowflake`, which src/rest.rs, src/gateway/direct.rs, src/gateway/connection.rs,
-- src/gateway/events.rs and src/gateway/bulk.rs each declare with the same body.
use diddycord.Base.{ℕ, Bool, true, false, not, ◌&&◌, List, [], ◌∷◌, Str, leb}

-- `u8::is_ascii_digit`.
abbrev pub is_ascii_digit : ℕ → Bool
is_ascii_digit byte = leb 48 byte && leb byte 57

unfoldable pub all_digits : Str → Bool
all_digits [] = true
all_digits (byte ∷ value) = is_ascii_digit byte && all_digits value

abbrev pub is_empty {ℓ} : {A : Type ℓ} → List A → Bool
is_empty [] = true
is_empty (x ∷ xs) = false

unfoldable pub is_snowflake : Str → Bool
unfolding all_digits
is_snowflake value = not (is_empty value) && all_digits value
