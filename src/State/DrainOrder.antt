-- ===== src/State/DrainOrder.antt =====
-- The order in which the drains of src/state.rs apply the events that wait.
use mathlib.Core.Path.{ap}
use diddycord.Base.{
  ℕ, zero, suc, ◌+◌, ◌-◌, ◌≤◌, ◌<◌, ◌≡◌, refl, sym, ◌∙◌, false, List, [], ◌∷◌, ltb, ltb→lt,
  Bool-cases, inl, inr, arith, foldl, map, take, length, min,
}
use diddycord.Events.{FrontendEvent, RestEvent}
use diddycord.State.Cache.{FrontendState, DrainReport}
use diddycord.State.Ops.{apply, apply_rest}
use diddycord.State.Drain.{received, drain_loop, skip_gateway, skip_rest, drain, drain_rest}

pub take_nil {ℓ} : {A : Type ℓ} (n : ℕ) → take {A = A} n [] ≡ []
take_nil zero = refl
take_nil (suc n) = refl

-- The report of a drain that met no lag and no closing.
abbrev pub applied_only : ℕ → DrainReport
applied_only n = record { applied = n; lagged = 0; closed = false }

abbrev pub drained : FrontendState → ℕ → FrontendState × DrainReport
drained s n = (s, applied_only n)

pair_eq : (s t : FrontendState) (m n : ℕ) → s ≡ t → m ≡ n → drained s m ≡ drained t n
pair_eq s t m n p q = ap (λ s. drained s m) p ∙ ap (λ m. drained t m) q

pub take_more {ℓ} :
    {A : Type ℓ} (x : A) (xs : List A) (n b : ℕ)
    → n < b
    → x ∷ take (b - (n + 1)) xs ≡ take (b - n) (x ∷ xs)
take_more x xs n b lt = ap (λ k. take k (x ∷ xs)) {x = suc (b - (n + 1))} {y = b - n} (omega arith)

module _ {ℓ} {E : Type ℓ} (step : FrontendState → E → FrontendState)
    (skip : FrontendState → ℕ → FrontendState) (budget : ℕ) where
  drain_loop-takes :
      (s : FrontendState) (n : ℕ) (events : List E)
      → n ≤ budget
      → drain_loop step skip budget s (applied_only n) (map received events)
        ≡ drained (foldl step s (take (budget - n) events)) (min budget (n + length events))
  unfolding drain_loop
  drain_loop-takes s n [] room =
      pair_eq s _ n _ (ap (foldl step s) (sym (take_nil (budget - n)))) (omega arith)
  drain_loop-takes s n (event ∷ events) room = elim (Bool-cases (ltb n budget)) [
    | inr full ↦
        rw (full, drain_loop)
          (pair_eq s _ n _
            (ap (λ k. foldl step s (take k (event ∷ events))) {x = 0} {y = budget - n}
              (ground (arith, full, room)))
            (ground (arith, full, room)))
    | inl more ↦
        rw (more, drain_loop)
          (drain_loop-takes (step s event) (n + 1) events (omega (arith, ltb→lt n budget more))
            ∙ pair_eq _ _ _ _
                (ap (foldl step s) (take_more event events n budget (ltb→lt n budget more)))
                (omega arith))
  ]

-- Where nothing was lost, each drain applies the events that wait in their order, the first `budget`
-- of them or all, and reports how many.
pub drain-takes :
    (s : FrontendState) (events : List FrontendEvent) (rest : List RestEvent) (budget : ℕ)
    → (drain s (map received events) budget
        ≡ drained (foldl apply s (take budget events)) (min budget (length events)))
      × (drain_rest s (map received rest) budget
          ≡ drained (foldl apply_rest s (take budget rest)) (min budget (length rest)))
unfolding drain drain_rest
drain-takes s events rest budget = (
  drain_loop-takes apply skip_gateway budget s 0 events (omega arith)
      ∙ pair_eq _ _ _ _ (ap (λ k. foldl apply s (take k events)) (omega arith)) (omega arith),
  drain_loop-takes apply_rest skip_rest budget s 0 rest (omega arith)
      ∙ pair_eq _ _ _ _ (ap (λ k. foldl apply_rest s (take k rest)) (omega arith)) (omega arith),
)
