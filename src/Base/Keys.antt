-- ===== src/Base/Keys.antt =====
-- Vectors and deques that hold at most one entry for each key, a text.
use mathlib.Core.Path.{◌≡◌, refl, ap}
use mathlib.Core.Bool.{Bool, true, false, not}
use mathlib.Core.List.{List, [], ◌∷◌, ◌++◌}
use native.Mathlib.Omega.{arith}
use diddycord.Base.Lists.{push_back, pop_front}
use diddycord.Base.Text.{Str, str_eq, str_eq_iff}
use diddycord.Base.Search.{
  any, retain, modify_first, modify_last, any-retain, any-append, any-modify_first, any-modify_last,
  any_none, any-false, Fails,
}
use diddycord.Base.Finds.{drop_first, insert_before, All-drop_first, any-insert_before}

module _ {ℓ} {A : Type ℓ} (key : A → Str) where
  -- The test that an entry has the key.
  abbrev pub has : Str → A → Bool
  has k x = str_eq (key x) k

  abbrev pub lacks : Str → A → Bool
  lacks k x = not (str_eq (key x) k)

  -- No two entries have the same key.
  abbrev pub Distinct : List A → Type 0
  Distinct [] = Unit {0}
  Distinct (x ∷ xs) = (any (has (key x)) xs ≡ false) × Distinct xs

  pub retain-Distinct : (p : A → Bool) (xs : List A) → Distinct xs → Distinct (retain p xs)
  unfolding retain
  retain-Distinct p [] d = tt
  retain-Distinct p (x ∷ xs) d =
      ground (arith, any-retain p (has (key x)) xs d.0, retain-Distinct p xs d.1)

  pub drop_first-Distinct : (p : A → Bool) (xs : List A) → Distinct xs → Distinct (drop_first p xs)
  unfolding drop_first
  drop_first-Distinct p [] d = tt
  drop_first-Distinct p (x ∷ xs) d = ground (
    arith,
    any_none (has (key x)) (drop_first p xs)
        (All-drop_first p (Fails (has (key x))) xs (any-false (has (key x)) xs d.0)),
    drop_first-Distinct p xs d.1,
  )

  pub insert_before-Distinct :
      (p : A → Bool) (x : A) (xs : List A)
      → any (has (key x)) xs ≡ false
      → Distinct xs
      → Distinct (insert_before p x xs)
  unfolding insert_before any
  insert_before-Distinct p x [] h d = (refl, tt)
  insert_before-Distinct p x (y ∷ xs) h d = ground (
    arith,
    any-insert_before p (has (key y)) x xs,
    str_eq_iff (key x) (key y),
    str_eq_iff (key y) (key x),
    insert_before-Distinct p x xs,
  )

  pub push_back-Distinct :
      (xs : List A) (x : A) → any (has (key x)) xs ≡ false → Distinct xs → Distinct (push_back xs x)
  unfolding any
  push_back-Distinct [] x h d = (refl, tt)
  push_back-Distinct (y ∷ xs) x h d = ground (
    arith,
    any-append (has (key y)) xs (x ∷ []),
    str_eq_iff (key x) (key y),
    str_eq_iff (key y) (key x),
    push_back-Distinct xs x,
  )

  -- An entry in the middle has a key of its own.
  pub Distinct-middle :
      (xs : List A) (y : A) (ys : List A) → Distinct (xs ++ y ∷ ys) → any (has (key y)) xs ≡ false
  unfolding any
  Distinct-middle [] y ys d = refl
  Distinct-middle (x ∷ xs) y ys d = ground (
    arith,
    any-append (has (key x)) xs (y ∷ ys),
    str_eq_iff (key x) (key y),
    str_eq_iff (key y) (key x),
    Distinct-middle xs y ys d.1,
  )

  pub pop_front-Distinct : (xs : List A) → Distinct xs → Distinct (pop_front xs)
  pop_front-Distinct [] d = tt
  pop_front-Distinct (x ∷ xs) d = d.1

  module _ (p : A → Bool) (f : A → A) (keep : (x : A) → p x ≡ true → key (f x) ≡ key x) where
    kept : (k : Str) (x : A) → p x ≡ true → has k (f x) ≡ has k x
    kept k x h = ap (λ s. str_eq s k) (keep x h)

    pub modify_first-Distinct : (xs : List A) → Distinct xs → Distinct (modify_first p f xs)
    unfolding modify_first
    modify_first-Distinct [] d = tt
    modify_first-Distinct (x ∷ xs) d = ground (
      arith,
      keep x,
      any-modify_first p (has (key x)) f xs (kept (key x)),
      modify_first-Distinct xs d.1,
    )

    pub modify_last-Distinct : (xs : List A) → Distinct xs → Distinct (modify_last p f xs)
    unfolding modify_last
    modify_last-Distinct [] d = tt
    modify_last-Distinct (x ∷ xs) d = ground (
      arith,
      keep x,
      any-modify_last p (has (key x)) f xs (kept (key x)),
      modify_last-Distinct xs d.1,
    )
