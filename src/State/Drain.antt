-- ===== src/State/Drain.antt =====
-- src/state.rs: `drain` and `drain_rest`. What `try_recv` of tokio's broadcast receiver answers,
-- call by call, is an argument, a list; its end stands for `Empty`.
use diddycord.Base.{ℕ, ◌+◌, true, false, List, [], ◌∷◌, ltb, sat_add}
use diddycord.Events.{FrontendEvent, RestEvent}
use diddycord.State.Cache.{FrontendState, DrainReport}
use diddycord.State.Ops.{apply, apply_rest}

-- `Ok(event)`, or one of the errors of `try_recv`.
pub data Received {ℓ} (E : Type ℓ) : Type ℓ where
  received : E → Received E
  lagged : ℕ → Received E
  empty : Received E
  closed : Received E

abbrev pub no_report : DrainReport
no_report = record { applied = 0; lagged = 0; closed = false }

abbrev pub one_more : DrainReport → DrainReport
one_more r = record r { applied = r.applied + 1 }

abbrev pub add_lag : DrainReport → ℕ → DrainReport
add_lag r skipped = record r { lagged = sat_add r.lagged skipped }

-- The loop that both drains share, over how an event is applied and how a lag is counted.
module _ {ℓ} {E : Type ℓ} (step : FrontendState → E → FrontendState)
    (skip : FrontendState → ℕ → FrontendState) (budget : ℕ) where
  unfoldable pub drain_loop :
      FrontendState → DrainReport → List (Received E) → FrontendState × DrainReport
  drain_loop s r [] = (s, r)
  drain_loop s r (answer ∷ answers) = elim (ltb r.applied budget) [
    | false ↦ (s, r)
    | true ↦ elim answer [
      | received event ↦ drain_loop (step s event) (one_more r) answers
      | lagged skipped ↦ drain_loop (skip s skipped) (add_lag r skipped) answers
      | empty ↦ (s, r)
      | closed ↦ (s, record r { closed = true })
    ]
  ]

abbrev pub skip_gateway : FrontendState → ℕ → FrontendState
skip_gateway s skipped = record s {
  dropped_gateway_events = sat_add s.dropped_gateway_events skipped;
}

abbrev pub skip_rest : FrontendState → ℕ → FrontendState
skip_rest s skipped = record s { dropped_rest_events = sat_add s.dropped_rest_events skipped }

unfoldable pub drain :
    FrontendState → List (Received FrontendEvent) → ℕ → FrontendState × DrainReport
unfolding drain_loop apply
drain s answers budget = drain_loop apply skip_gateway budget s no_report answers

unfoldable pub drain_rest :
    FrontendState → List (Received RestEvent) → ℕ → FrontendState × DrainReport
unfolding drain_loop apply_rest
drain_rest s answers budget = drain_loop apply_rest skip_rest budget s no_report answers
