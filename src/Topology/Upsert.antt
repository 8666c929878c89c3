-- ===== src/Topology/Upsert.antt =====
-- The update in place or push of src/topology.rs, which channels, threads and syncs share.
use diddycord.Base.{
  ℕ, ◌≤◌, inl, inr, List, Str, str_eq_iff, arith, leb, length, length-push_back, All, All-push_back,
  any, has, Distinct, Bool-cases,
}
use diddycord.Base.Search.{length-modify_first, All-modify_first}
use diddycord.Base.Keys.{push_back-Distinct, modify_first-Distinct}
use diddycord.Topology.Guilds.{upsert}

module _ {ℓ} {A : Type ℓ} (key : A → Str) (limit : ℕ) (x : A) (xs : List A) where
  pub length-upsert-le : length xs ≤ limit → length (upsert key limit x xs).0 ≤ limit
  unfolding upsert
  length-upsert-le h =
      ground (arith, length-modify_first (has key (key x)) (λ _. x) xs, length-push_back xs x)

  pub upsert-All {κ} : (P : A → Type κ) → P x → All P xs → All P (upsert key limit x xs).0
  unfolding upsert
  upsert-All P new h = elim (Bool-cases (any (has key (key x)) xs)) [
    | inl old ↦ rw old (All-modify_first _ P (λ _. x) xs (λ y _ _. new) h)
    | inr absent ↦ rw absent (elim (Bool-cases (leb limit (length xs))) [
      | inl full ↦ rw full h
      | inr room ↦ rw room (All-push_back P xs x h new)
    ])
  ]

  pub upsert-Distinct : Distinct key xs → Distinct key (upsert key limit x xs).0
  unfolding upsert
  upsert-Distinct d = elim (Bool-cases (any (has key (key x)) xs)) [
    | inl old ↦ rw old (
        modify_first-Distinct key _ (λ _. x) (λ y h. ground (arith, str_eq_iff (key y) (key x))) xs
          d)
    | inr absent ↦ rw absent (elim (Bool-cases (leb limit (length xs))) [
      | inl full ↦ rw full d
      | inr room ↦ rw room (push_back-Distinct key xs x absent d)
    ])
  ]
