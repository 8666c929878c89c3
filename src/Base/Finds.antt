-- ===== src/Base/Finds.antt =====
-- What searches find in lists that have been changed.
use mathlib.Core.Path.{◌≡◌, refl, ap}
use mathlib.Core.Bool.{Bool, true, false, ◌||◌, ◌&&◌}
use mathlib.Core.Option
use mathlib.Core.Option.{Option, none, some}
use mathlib.Core.List.{List, [], ◌∷◌, ◌++◌, map}
use Prim.Native.Nat.{suc}
use native.Mathlib.Omega.{arith}
use diddycord.Base.Tests.{if◌then◌else◌}
use diddycord.Base.Lists.{All, length}
use diddycord.Base.Search.{any, find, modify_first, retain}

-- An update of the first match is what the search then finds.
pub find-modify_first {ℓ} :
    {A : Type ℓ} (p : A → Bool) (f : A → A) (xs : List A)
    → ((y : A) → p y ≡ true → p (f y) ≡ true)
    → find p (modify_first p f xs) ≡ Option.map f (find p xs)
unfolding find modify_first
find-modify_first p f [] k = refl
find-modify_first p f (y ∷ xs) k = ground (arith, k y, find-modify_first p f xs k)

module _ {ℓ} {A : Type ℓ} (p : A → Bool) where
  pub find-replace_first :
      (x : A) (xs : List A)
      → p x ≡ true
      → any p xs ≡ true
      → find p (modify_first p (λ _. x) xs) ≡ some x
  unfolding find any modify_first
  find-replace_first x [] hx h = cc
  find-replace_first x (y ∷ xs) hx h = ground (arith, find-replace_first x xs)

  pub find-push_back :
      (x : A) (xs : List A) → p x ≡ true → any p xs ≡ false → find p (xs ++ x ∷ []) ≡ some x
  unfolding find any
  find-push_back x [] hx h = ground arith
  find-push_back x (y ∷ xs) hx h = ground (arith, find-push_back x xs)

  pub find-push_back_ne : (x : A) (xs : List A) → p x ≡ false → find p (xs ++ x ∷ []) ≡ find p xs
  unfolding find
  find-push_back_ne x [] hx = ground arith
  find-push_back_ne x (y ∷ xs) hx = ground (arith, find-push_back_ne x xs)

  -- A match exists exactly where the search finds one.
  pub find-any : (x : A) (xs : List A) → find p xs ≡ some x → any p xs ≡ true
  unfolding find any
  find-any x [] h = cc
  find-any x (y ∷ xs) h = ground (arith, find-any x xs)

module _ {ℓ} {A : Type ℓ} (p : A → Bool) where
  -- The vector without its first match.
  unfoldable pub drop_first : List A → List A
  drop_first [] = []
  drop_first (x ∷ xs) = if p x then xs else x ∷ drop_first xs

  -- `insert(position(p).unwrap_or(len()), x)`: before the first match, or at the end.
  unfoldable pub insert_before : A → List A → List A
  insert_before x [] = x ∷ []
  insert_before x (y ∷ xs) = if p y then x ∷ y ∷ xs else y ∷ insert_before x xs

  pub length-drop_first : (xs : List A) → any p xs ≡ true → suc (length (drop_first xs)) ≡ length xs
  unfolding drop_first any
  length-drop_first [] h = cc
  length-drop_first (x ∷ xs) h = ground (arith, length-drop_first xs)

  pub length-insert_before : (x : A) (xs : List A) → length (insert_before x xs) ≡ suc (length xs)
  unfolding insert_before
  length-insert_before x [] = refl
  length-insert_before x (y ∷ xs) = ground (arith, length-insert_before x xs)

module _ {ℓ κ} {A : Type ℓ} (p : A → Bool) (P : A → Type κ) where
  pub All-drop_first : (xs : List A) → All P xs → All P (drop_first p xs)
  unfolding drop_first
  All-drop_first [] h = tt
  All-drop_first (x ∷ xs) h = ground (arith, All-drop_first xs h.1)

  pub All-insert_before : (x : A) (xs : List A) → P x → All P xs → All P (insert_before p x xs)
  unfolding insert_before
  All-insert_before x [] hx h = (hx, tt)
  All-insert_before x (y ∷ xs) hx h = ground (arith, All-insert_before x xs hx h.1)

pub any-insert_before {ℓ} :
    {A : Type ℓ} (p q : A → Bool) (x : A) (xs : List A)
    → any q (insert_before p x xs) ≡ (q x || any q xs)
unfolding any insert_before
any-insert_before p q x [] = refl
any-insert_before p q x (y ∷ xs) = ground (arith, any-insert_before p q x xs)

-- A search in a list that was built from another is a search in the other.
pub any-map {ℓ κ} :
    {A : Type ℓ} {B : Type κ} (p : B → Bool) (f : A → B) (xs : List A)
    → any p (map f xs) ≡ any (λ x. p (f x)) xs
unfolding any
any-map p f [] = refl
any-map p f (x ∷ xs) = ap (◌||◌ (p (f x))) (any-map p f xs)

pub any-retain_and {ℓ} :
    {A : Type ℓ} (p q : A → Bool) (xs : List A) → any q (retain p xs) ≡ any (λ x. p x && q x) xs
unfolding any retain
any-retain_and p q [] = refl
any-retain_and p q (x ∷ xs) = ground (arith, any-retain_and p q xs)

pub modify_first-push_back {ℓ} :
    {A : Type ℓ} (p : A → Bool) (f : A → A) (x : A) (xs : List A)
    → p x ≡ true
    → any p xs ≡ false
    → modify_first p f (xs ++ x ∷ []) ≡ xs ++ f x ∷ []
unfolding any modify_first
modify_first-push_back p f x [] hx h = ground arith
modify_first-push_back p f x (y ∷ xs) hx h = ground (arith, modify_first-push_back p f x xs)
