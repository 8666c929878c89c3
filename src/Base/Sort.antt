-- ===== src/Base/Sort.antt =====
-- Rust's stable `sort_by`, as the insertion of one element after another from the back, over the
-- test that an element may stand before another.
use mathlib.Core.Path.{◌≡◌, refl}
use mathlib.Core.Bool.{Bool, true, false, ◌&&◌}
use mathlib.Core.List.{List, [], ◌∷◌}
use mathlib.Core.List.{Perm}
use mathlib.Core.List.Perm
use native.Mathlib.Omega.{arith}
use diddycord.Base.Tests.{if◌then◌else◌, if_cases}
use diddycord.Base.Lists.{All, All-imp}
use diddycord.Base.Search.{retain}

module _ {ℓ} {A : Type ℓ} (before : A → A → Bool) where
  unfoldable pub insert_sorted : A → List A → List A
  insert_sorted x [] = x ∷ []
  insert_sorted x (y ∷ ys) = if before x y then x ∷ y ∷ ys else y ∷ insert_sorted x ys

  unfoldable pub sort_by : List A → List A
  unfolding insert_sorted
  sort_by [] = []
  sort_by (x ∷ xs) = insert_sorted x (sort_by xs)

  -- Each element may stand before all that follow it.
  abbrev pub Sorted : List A → Type ℓ
  Sorted [] = Unit
  Sorted (x ∷ xs) = All (λ y. before x y ≡ true) xs × Sorted xs

  -- The element stands level with `r`.
  abbrev pub level : A → A → Bool
  level r x = before r x && before x r

  insert_sorted-perm : (x : A) (ys : List A) → Perm (insert_sorted x ys) (x ∷ ys)
  unfolding insert_sorted
  insert_sorted-perm x [] = Perm.refl (x ∷ [])
  insert_sorted-perm x (y ∷ ys) =
      if_cases (λ zs. Perm zs (x ∷ y ∷ ys)) (before x y) (λ _. Perm.refl (x ∷ y ∷ ys))
        (λ _. Perm.trans (Perm.cons y (insert_sorted-perm x ys)) (Perm.swap x y ys))

  pub sort_by-perm : (xs : List A) → Perm (sort_by xs) xs
  unfolding sort_by
  sort_by-perm [] = Perm.refl []
  sort_by-perm (x ∷ xs) =
      Perm.trans (insert_sorted-perm x (sort_by xs)) (Perm.cons x (sort_by-perm xs))

  module _ (total : (x y : A) → before x y ≡ false → before y x ≡ true)
      (transitive : (x y z : A) → before x y ≡ true → before y z ≡ true → before x z ≡ true) where
    All-insert_sorted :
        (w x : A) (ys : List A)
        → before w x ≡ true
        → All (λ y. before w y ≡ true) ys
        → All (λ y. before w y ≡ true) (insert_sorted x ys)
    unfolding insert_sorted
    All-insert_sorted w x [] wx h = (wx, tt)
    All-insert_sorted w x (y ∷ ys) wx (wy, h) =
        if_cases (All (λ y. before w y ≡ true)) (before x y) (λ _. (wx, (wy, h)))
          (λ _. (wy, All-insert_sorted w x ys wx h))

    insert_sorted-Sorted : (x : A) (ys : List A) → Sorted ys → Sorted (insert_sorted x ys)
    unfolding insert_sorted
    insert_sorted-Sorted x [] h = (tt, tt)
    insert_sorted-Sorted x (y ∷ ys) (least, h) =
        if_cases Sorted (before x y)
          (λ xy. (
            (
              xy,
              All-imp (λ z. before y z ≡ true) (λ z. before x z ≡ true) ys
                  (λ z yz. transitive x y z xy yz) least,
            ),
            (least, h),
          ))
          (λ yx. (All-insert_sorted y x ys (total x y yx) least, insert_sorted-Sorted x ys h))

    pub sort_by-Sorted : (xs : List A) → Sorted (sort_by xs)
    unfolding sort_by
    sort_by-Sorted [] = tt
    sort_by-Sorted (x ∷ xs) = insert_sorted-Sorted x (sort_by xs) (sort_by-Sorted xs)

    retain-insert_sorted :
        (r x : A) (ys : List A) → retain (level r) (insert_sorted x ys) ≡ retain (level r) (x ∷ ys)
    unfolding insert_sorted retain
    retain-insert_sorted r x [] = refl
    retain-insert_sorted r x (y ∷ ys) =
        ground (arith, retain-insert_sorted r x ys, transitive x r y)

    -- The sort is stable: elements that stand level keep their order.
    pub retain-sort_by : (r : A) (xs : List A) → retain (level r) (sort_by xs) ≡ retain (level r) xs
    unfolding sort_by retain
    retain-sort_by r [] = refl
    retain-sort_by r (x ∷ xs) =
        ground (arith, retain-insert_sorted r x (sort_by xs), retain-sort_by r xs)

-- Each element stands in a relation to all that follow it.
abbrev pub Pairwise {ℓ κ} : {A : Type ℓ} → (A → A → Type κ) → List A → Type κ
Pairwise R [] = Unit
Pairwise R (x ∷ xs) = All (R x) xs × Pairwise R xs

pub Sorted-Pairwise {ℓ} :
    {A : Type ℓ} (before : A → A → Bool) (R : A → A → Type 0)
    → ((x y : A) → before x y ≡ true → R x y)
    → (xs : List A) → Sorted before xs
    → Pairwise R xs
Sorted-Pairwise before R means [] h = tt
Sorted-Pairwise before R means (x ∷ xs) (least, h) =
    (All-imp (λ y. before x y ≡ true) (R x) xs (means x) least, Sorted-Pairwise before R means xs h)
