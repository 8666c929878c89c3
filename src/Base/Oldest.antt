-- ===== src/Base/Oldest.antt =====
-- `iter().enumerate().min_by_key(..)` and `remove(index)`: the entry with the smallest stamp, the
-- first of them if there are several, and the vector without it.
use Prim.Native.Nat.{ℕ, zero, suc, ◌+◌, ◌≤◌}
use mathlib.Core.Path.{◌≡◌, refl, ap, ◌∙◌}
use mathlib.Core.Logic.{◌⊎◌, inl, inr}
use mathlib.Core.Bool.{Bool, false}
use mathlib.Core.Option.{Option, none, some}
use mathlib.Core.List.{List, [], ◌∷◌}
use native.Mathlib.Omega.{arith}
use diddycord.Base.Tests.{ltb, if◌then◌else◌}
use diddycord.Base.Lists.{All, length, get_elem?}
use diddycord.Base.Text.{Str}
use diddycord.Base.Search.{any}
use diddycord.Base.Keys.{Distinct, has}

module _ {ℓ} {A : Type ℓ} where
  -- `Vec::remove`, its result dropped.
  unfoldable pub remove_at : ℕ → List A → List A
  remove_at i [] = []
  remove_at zero (x ∷ xs) = xs
  remove_at (suc i) (x ∷ xs) = x ∷ remove_at i xs

  -- `x` stands at index `i`.
  abbrev pub At : ℕ → A → List A → Type ℓ
  At i x xs = get_elem? xs i ≡ some x

  pub length-remove_at :
      (i : ℕ) (x : A) (xs : List A) → At i x xs → length (remove_at i xs) + 1 ≡ length xs
  unfolding remove_at
  length-remove_at i x [] h = cc
  length-remove_at zero x (y ∷ xs) h = omega arith
  length-remove_at (suc i) x (y ∷ xs) h = omega (arith, length-remove_at i x xs h)

  pub All-remove_at {κ} : (P : A → Type κ) (i : ℕ) (xs : List A) → All P xs → All P (remove_at i xs)
  unfolding remove_at
  All-remove_at P i [] h = tt
  All-remove_at P zero (y ∷ xs) h = h.1
  All-remove_at P (suc i) (y ∷ xs) h = (h.0, All-remove_at P i xs h.1)

  pub All-at {κ} : (P : A → Type κ) (i : ℕ) (x : A) (xs : List A) → All P xs → At i x xs → P x
  All-at P i x [] h a = cc
  All-at P zero x (y ∷ xs) h a = ground (arith, h.0)
  All-at P (suc i) x (y ∷ xs) h a = All-at P i x xs h.1 a

  pub any-remove_at :
      (p : A → Bool) (i : ℕ) (xs : List A) → any p xs ≡ false → any p (remove_at i xs) ≡ false
  unfolding remove_at any
  any-remove_at p i [] h = refl
  any-remove_at p zero (y ∷ xs) h = ground arith
  any-remove_at p (suc i) (y ∷ xs) h = ground (arith, any-remove_at p i xs)

  pub remove_at-Distinct :
      (key : A → Str) (i : ℕ) (xs : List A) → Distinct key xs → Distinct key (remove_at i xs)
  unfolding remove_at
  remove_at-Distinct key i [] d = tt
  remove_at-Distinct key zero (y ∷ xs) d = d.1
  remove_at-Distinct key (suc i) (y ∷ xs) d =
      (any-remove_at (has key (key y)) i xs d.0, remove_at-Distinct key i xs d.1)

module _ {ℓ} {A : Type ℓ} (stamp : A → ℕ) where
  -- The scan: the best index and entry so far, and the index of the next entry.
  unfoldable pub oldest_from : ℕ → A → ℕ → List A → ℕ × A
  oldest_from best b next [] = (best, b)
  oldest_from best b next (x ∷ xs) =
      let newer = ltb (stamp x) (stamp b) in
      oldest_from (if newer then next else best) (if newer then x else b) (suc next) xs

  unfoldable pub oldest : List A → Option (ℕ × A)
  unfolding oldest_from
  oldest [] = none
  oldest (x ∷ xs) = some (oldest_from 0 x 1 xs)

  -- What the scan returns: an entry of the list with the smallest stamp.
  pub record IsOldest (i : ℕ) (x : A) (xs : List A) : Type ℓ where
    pub at : At i x xs
    pub least : All (λ y. stamp x ≤ stamp y) xs

  oldest_from-least :
      (best : ℕ) (b : A) (next : ℕ) (xs : List A)
      → let r = oldest_from best b next xs in
        (stamp r.1 ≤ stamp b) × All (λ y. stamp r.1 ≤ stamp y) xs
  unfolding oldest_from
  oldest_from-least best b next [] = (omega arith, tt)
  oldest_from-least best b next (x ∷ xs) =
      let newer = ltb (stamp x) (stamp b) in
      let ih =
        oldest_from-least (if newer then next else best) (if newer then x else b) (suc next) xs in
      ground (arith, ih)

  shift {κ} :
      {B : Type κ} (get : ℕ → B) (xs : ℕ → B) (next : ℕ)
      → ((j : ℕ) → xs j ≡ get (next + j))
      → (j : ℕ) → xs (suc j) ≡ get (suc next + j)
  shift get xs next same j = same (suc j) ∙ ap get (omega arith)

  oldest_from-At :
      (ys : List A) (best : ℕ) (b : A) (next : ℕ) (xs : List A)
      → At best b ys
      → ((j : ℕ) → get_elem? xs j ≡ get_elem? ys (next + j))
      → let r = oldest_from best b next xs in At r.0 r.1 ys
  unfolding oldest_from
  oldest_from-At ys best b next [] h same = h
  oldest_from-At ys best b next (x ∷ xs) h same =
      oldest_from-At ys (if ltb (stamp x) (stamp b) then next else best)
        (if ltb (stamp x) (stamp b) then x else b) (suc next) xs
        (ground (arith, same 0, ap (get_elem? ys) here))
        (shift (get_elem? ys) (get_elem? (x ∷ xs)) next same)
    where
      here : next + 0 ≡ next
      here = omega arith

  -- `oldest` finds an entry of the smallest stamp in every list that has an entry.
  pub oldest-IsOldest :
      (xs : List A)
      → (oldest xs ≡ none) × (xs ≡ [])
        ⊎ ((i : ℕ) × (x : A) × (oldest xs ≡ some (i, x)) × IsOldest i x xs)
  unfolding oldest
  oldest-IsOldest [] = inl (refl, refl)
  oldest-IsOldest (x ∷ xs) =
      let r = oldest_from 0 x 1 xs in
      inr (
        r.0,
        r.1,
        refl,
        record {
          at =
              oldest_from-At (x ∷ xs) 0 x 1 xs refl
                (λ j. ap (get_elem? (x ∷ xs)) {x = suc j} {y = 1 + j} (omega arith));
          least = oldest_from-least 0 x 1 xs;
        },
      )
