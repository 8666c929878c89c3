-- ===== src/Base/Search.antt =====
-- The iterator searches of the program over vectors and deques: `any`, `find`, `retain`, and an
-- update through `iter_mut().find` or `iter_mut().rev().find`.
use mathlib.Core.Path.{◌≡◌, refl}
use mathlib.Core.Bool.{Bool, true, false, ◌||◌}
use mathlib.Core.Option.{Option, none, some}
use mathlib.Core.List.{List, [], ◌∷◌, ◌++◌}
use Prim.Native.Nat.{◌≤◌}
use native.Mathlib.Omega.{arith}
use diddycord.Base.Tests.{if◌then◌else◌}
use diddycord.Base.Lists.{All, length}

module _ {ℓ} {A : Type ℓ} (p : A → Bool) where
  unfoldable pub any : List A → Bool
  any [] = false
  any (x ∷ xs) = p x || any xs

  unfoldable pub find : List A → Option A
  find [] = none
  find (x ∷ xs) = if p x then some x else find xs

  unfoldable pub retain : List A → List A
  retain [] = []
  retain (x ∷ xs) = if p x then x ∷ retain xs else retain xs

  -- The first match is replaced by its image.
  unfoldable pub modify_first : (A → A) → List A → List A
  modify_first f [] = []
  modify_first f (x ∷ xs) = if p x then f x ∷ xs else x ∷ modify_first f xs

  -- The last match is replaced by its image.
  unfoldable pub modify_last : (A → A) → List A → List A
  unfolding any
  modify_last f [] = []
  modify_last f (x ∷ xs) = if any xs then x ∷ modify_last f xs else if p x then f x ∷ xs else x ∷ xs

  abbrev pub Fails : A → Type 0
  Fails x = p x ≡ false

  abbrev pub Holds : A → Type 0
  Holds x = p x ≡ true

  pub any-false : (xs : List A) → any xs ≡ false → All Fails xs
  unfolding any
  any-false [] h = tt
  any-false (x ∷ xs) h = ground (arith, any-false xs)

  pub any_none : (xs : List A) → All Fails xs → any xs ≡ false
  unfolding any
  any_none [] h = refl
  any_none (x ∷ xs) h = ground (arith, any_none xs h.1)

  pub find-none : (xs : List A) → find xs ≡ none → any xs ≡ false
  unfolding find any
  find-none [] h = refl
  find-none (x ∷ xs) h = ground (arith, find-none xs)

  pub find_absent : (xs : List A) → any xs ≡ false → find xs ≡ none
  unfolding find any
  find_absent [] h = refl
  find_absent (x ∷ xs) h = ground (arith, find_absent xs)

  pub find-Holds : (xs : List A) (x : A) → find xs ≡ some x → p x ≡ true
  unfolding find
  find-Holds [] y h = cc
  find-Holds (x ∷ xs) y h = ground (arith, find-Holds xs y)

  pub find-append : (xs ys : List A) → any xs ≡ false → find (xs ++ ys) ≡ find ys
  unfolding find any
  find-append [] ys h = refl
  find-append (x ∷ xs) ys h = ground (arith, find-append xs ys)

  pub any-append : (xs ys : List A) → any (xs ++ ys) ≡ (any xs || any ys)
  unfolding any
  any-append [] ys = refl
  any-append (x ∷ xs) ys = ground (arith, any-append xs ys)

  pub length-retain-le : (xs : List A) → length (retain xs) ≤ length xs
  unfolding retain
  length-retain-le [] = omega arith
  length-retain-le (x ∷ xs) = ground (arith, length-retain-le xs)

  pub retain-Holds : (xs : List A) → All Holds (retain xs)
  unfolding retain
  retain-Holds [] = tt
  retain-Holds (x ∷ xs) = ground (arith, retain-Holds xs)

  pub retain_all : (xs : List A) → All Holds xs → retain xs ≡ xs
  unfolding retain
  retain_all [] h = refl
  retain_all (x ∷ xs) h = ground (arith, retain_all xs h.1)

  pub length-modify_first : (f : A → A) (xs : List A) → length (modify_first f xs) ≡ length xs
  unfolding modify_first
  length-modify_first f [] = refl
  length-modify_first f (x ∷ xs) = ground (arith, length-modify_first f xs)

  pub length-modify_last : (f : A → A) (xs : List A) → length (modify_last f xs) ≡ length xs
  unfolding modify_last
  length-modify_last f [] = refl
  length-modify_last f (x ∷ xs) = ground (arith, length-modify_last f xs)

  pub modify_first_absent : (f : A → A) (xs : List A) → any xs ≡ false → modify_first f xs ≡ xs
  unfolding modify_first any
  modify_first_absent f [] h = refl
  modify_first_absent f (x ∷ xs) h = ground (arith, modify_first_absent f xs)

module _ {ℓ κ} {A : Type ℓ} (p : A → Bool) (P : A → Type κ) where
  pub All-retain : (xs : List A) → All P xs → All P (retain p xs)
  unfolding retain
  All-retain [] h = tt
  All-retain (x ∷ xs) h = ground (arith, All-retain xs h.1)

  pub find-All : (xs : List A) (x : A) → All P xs → find p xs ≡ some x → P x
  unfolding find
  find-All [] y a h = cc
  find-All (x ∷ xs) y a h = ground (arith, find-All xs y a.1)

  pub All-modify_first :
      (f : A → A) (xs : List A)
      → ((x : A) → p x ≡ true → P x → P (f x))
      → All P xs
      → All P (modify_first p f xs)
  unfolding modify_first
  All-modify_first f [] keep h = tt
  All-modify_first f (x ∷ xs) keep h = ground (arith, keep x, All-modify_first f xs keep h.1)

  pub All-modify_last :
      (f : A → A) (xs : List A)
      → ((x : A) → p x ≡ true → P x → P (f x))
      → All P xs
      → All P (modify_last p f xs)
  unfolding modify_last
  All-modify_last f [] keep h = tt
  All-modify_last f (x ∷ xs) keep h = ground (arith, keep x, All-modify_last f xs keep h.1)

-- How a search by `q` sees a list that an operation by `p` has changed.
module _ {ℓ} {A : Type ℓ} (p q : A → Bool) where
  pub any-retain : (xs : List A) → any q xs ≡ false → any q (retain p xs) ≡ false
  any-retain xs h = any_none q _ (All-retain p (Fails q) xs (any-false q xs h))

  -- `retain` leaves the first match of `q` alone where it keeps all matches of `q`.
  pub find-retain :
      (xs : List A) → ((x : A) → q x ≡ true → p x ≡ true) → find q (retain p xs) ≡ find q xs
  unfolding find retain
  find-retain [] h = refl
  find-retain (x ∷ xs) h = ground (arith, h x, find-retain xs h)

  -- `retain` removes all matches of `q` where it keeps none.
  pub find-retain-none :
      (xs : List A) → ((x : A) → q x ≡ true → p x ≡ false) → find q (retain p xs) ≡ none
  unfolding find retain
  find-retain-none [] h = refl
  find-retain-none (x ∷ xs) h = ground (arith, h x, find-retain-none xs h)

  pub retain-retain :
      (xs : List A) → ((x : A) → q x ≡ true → p x ≡ true) → retain q (retain p xs) ≡ retain q xs
  unfolding retain
  retain-retain [] h = refl
  retain-retain (x ∷ xs) h = ground (arith, h x, retain-retain xs h)

  pub retain-retain_absent :
      (xs : List A) → ((x : A) → q x ≡ true → p x ≡ false) → retain q (retain p xs) ≡ []
  unfolding retain
  retain-retain_absent [] h = refl
  retain-retain_absent (x ∷ xs) h = ground (arith, h x, retain-retain_absent xs h)

  pub find-modify_first_ne :
      (f : A → A) (xs : List A)
      → ((x : A) → p x ≡ true → q x ≡ false)
      → ((x : A) → p x ≡ true → q (f x) ≡ false)
      → find q (modify_first p f xs) ≡ find q xs
  unfolding find modify_first
  find-modify_first_ne f [] h k = refl
  find-modify_first_ne f (x ∷ xs) h k = ground (arith, h x, k x, find-modify_first_ne f xs h k)

  pub any-modify_first :
      (f : A → A) (xs : List A)
      → ((x : A) → p x ≡ true → q (f x) ≡ q x)
      → any q (modify_first p f xs) ≡ any q xs
  unfolding any modify_first
  any-modify_first f [] h = refl
  any-modify_first f (x ∷ xs) h = ground (arith, h x, any-modify_first f xs h)

  pub any-modify_last :
      (f : A → A) (xs : List A)
      → ((x : A) → p x ≡ true → q (f x) ≡ q x)
      → any q (modify_last p f xs) ≡ any q xs
  unfolding any modify_last
  any-modify_last f [] h = refl
  any-modify_last f (x ∷ xs) h = ground (arith, h x, any-modify_last f xs h)
