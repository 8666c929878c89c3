-- ===== src/Gateway/ResumeUrl.antt =====
-- The URL that src/gateway/recovery.rs makes of a session's own.
use diddycord.Base.{
  ◌≡◌, refl, ap, inl, inr, Bool, false, [], ◌∷◌, ◌++◌, Str, bytes, any, All, ◌==◌, arith,
  Bool-cases, if◌then◌else◌,
}
use diddycord.Gateway.Recovery.{trim_slashes, cons_trimmed, gateway_url}

abbrev pub ends_in_slash : Str → Bool
ends_in_slash [] = false
ends_in_slash (b ∷ []) = b == 47
ends_in_slash (b ∷ c ∷ rest) = ends_in_slash (c ∷ rest)

-- The base without the slashes at its end, and the query, after `&` if the base has a `?` already.
abbrev pub IsResumeUrl : Str → Str → Type 0
IsResumeUrl base url =
    (stem : Str) × (slashes : Str) × (base ≡ stem ++ slashes)
    × All (λ b. b ≡ 47) slashes
    × (ends_in_slash stem ≡ false)
    × (url
        ≡ stem
          ++ (if any (λ b. b == 63) stem then bytes "&" else bytes "?")
          ++ bytes "v=9&encoding=json")

-- The stem that is left is followed by slashes only.
abbrev Trims : Str → Str → Type 0
Trims base stem =
    (slashes : Str) × (base ≡ stem ++ slashes)
    × All (λ b. b ≡ 47) slashes
    × (ends_in_slash stem ≡ false)

trim_slashes-Trims : (base : Str) → Trims base (trim_slashes base)
unfolding trim_slashes
trim_slashes-Trims [] = ([], refl, tt, refl)
trim_slashes-Trims (byte ∷ base) = go (trim_slashes base) (trim_slashes-Trims base)
  where
    go : (stem : Str) → Trims base stem → Trims (byte ∷ base) (cons_trimmed byte stem)
    go [] (slashes, e, all, clean) = elim (Bool-cases (byte == 47)) [
      | inl here ↦ rw here (byte ∷ slashes, ap (◌∷◌ byte) e, (ground (arith, here), all), refl)
      | inr other ↦ rw other (slashes, ap (◌∷◌ byte) e, all, other)
    ]
    go (b ∷ stem) (slashes, e, all, clean) = (slashes, ap (◌∷◌ byte) e, all, clean)

pub gateway_url-IsResumeUrl : (base : Str) → IsResumeUrl base (gateway_url base)
unfolding gateway_url
gateway_url-IsResumeUrl base =
    let (slashes, e, all, clean) = trim_slashes-Trims base in
    (trim_slashes base, slashes, e, all, clean, refl)
