-- ===== src/State/DrainEffects.antt =====
-- What the drains of src/state.rs do within a frame.
use diddycord.Base.{ℕ, suc, ◌+◌, ◌≤◌, List, [], ◌∷◌, ltb, ltb→lt, Bool-cases, inl, inr, arith}
use diddycord.Events.{FrontendEvent, RestEvent}
use diddycord.State.Cache.{FrontendState, DrainReport}
use diddycord.State.Ops.{apply, apply_rest}
use diddycord.State.Drain.{
  Received, received, lagged, empty, closed, no_report, one_more, add_lag, drain_loop, skip_gateway,
  skip_rest, drain, drain_rest,
}
use diddycord.State.Valid.{IsValid}
use diddycord.State.Invariant.{apply_gateway-IsValid, apply_rest-IsValid}

-- The number of answers that are events.
unfoldable pub count_received {ℓ} : {E : Type ℓ} → List (Received E) → ℕ
count_received [] = 0
count_received (received event ∷ answers) = suc (count_received answers)
count_received (_ ∷ answers) = count_received answers

module _ {ℓ} {E : Type ℓ} (step : FrontendState → E → FrontendState)
    (skip : FrontendState → ℕ → FrontendState) (budget : ℕ) where
  -- The budget and the answers bound what is applied; validity is kept.
  abbrev IsDrained : DrainReport → List (Received E) → FrontendState × DrainReport → Type 0
  IsDrained r answers (t, q) =
      (q.applied ≤ budget) × (q.applied ≤ r.applied + count_received answers) × IsValid t

  drain_loop-IsDrained :
      ((s : FrontendState) (event : E) → IsValid s → IsValid (step s event))
      → ((s : FrontendState) (n : ℕ) → IsValid s → IsValid (skip s n))
      → (s : FrontendState) (r : DrainReport) (answers : List (Received E)) → IsValid s
      → r.applied ≤ budget
      → IsDrained r answers (drain_loop step skip budget s r answers)
  unfolding drain_loop count_received
  drain_loop-IsDrained steps skips s r [] v room = (room, omega arith, v)
  drain_loop-IsDrained steps skips s r (received event ∷ answers) v room =
      elim (Bool-cases (ltb r.applied budget)) [
        | inr full ↦ rw (full, drain_loop) (room, omega arith, v)
        | inl more ↦
            let (b, c, w) =
              drain_loop-IsDrained steps skips (step s event) (one_more r) answers (steps s event v)
                (omega (arith, ltb→lt r.applied budget more)) in
            rw (more, drain_loop) (b, omega (arith, c), w)
      ]
  drain_loop-IsDrained steps skips s r (lagged skipped ∷ answers) v room =
      elim (Bool-cases (ltb r.applied budget)) [
        | inr full ↦ rw (full, drain_loop) (room, omega arith, v)
        | inl more ↦
            rw (more, drain_loop)
              (drain_loop-IsDrained steps skips (skip s skipped) (add_lag r skipped) answers
                (skips s skipped v) room)
      ]
  drain_loop-IsDrained steps skips s r (empty ∷ answers) v room =
      elim (Bool-cases (ltb r.applied budget)) [
        | inr full ↦ rw (full, drain_loop) (room, omega arith, v)
        | inl more ↦ rw (more, drain_loop) (room, omega arith, v)
      ]
  drain_loop-IsDrained steps skips s r (closed ∷ answers) v room =
      elim (Bool-cases (ltb r.applied budget)) [
        | inr full ↦ rw (full, drain_loop) (room, omega arith, v)
        | inl more ↦ rw (more, drain_loop) (room, omega arith, v)
      ]

skip_gateway-IsValid : (s : FrontendState) (n : ℕ) → IsValid s → IsValid (skip_gateway s n)
skip_gateway-IsValid s n v = record {
  channel_limit = v.channel_limit;
  message_limit = v.message_limit;
  channel_room = v.channel_room;
  channel_ids = v.channel_ids;
  timelines = v.timelines;
  live = v.live;
  retired_room = v.retired_room;
  topology = v.topology;
}

skip_rest-IsValid : (s : FrontendState) (n : ℕ) → IsValid s → IsValid (skip_rest s n)
skip_rest-IsValid s n v = record {
  channel_limit = v.channel_limit;
  message_limit = v.message_limit;
  channel_room = v.channel_room;
  channel_ids = v.channel_ids;
  timelines = v.timelines;
  live = v.live;
  retired_room = v.retired_room;
  topology = v.topology;
}

-- Whatever the receivers answer, lags and closings included, each drain ends, has applied at most
-- `budget` events and no more than there were, and keeps a valid state valid.
pub drain-bounded :
    (s : FrontendState) (events : List (Received FrontendEvent)) (rest : List (Received RestEvent))
    (budget : ℕ)
    → IsValid s
    → let (t, report) = drain s events budget in
      let (u, rest_report) = drain_rest s rest budget in
      (report.applied ≤ budget)
      × (report.applied ≤ count_received events)
      × IsValid t
      × (rest_report.applied ≤ budget)
      × (rest_report.applied ≤ count_received rest)
      × IsValid u
unfolding drain drain_rest
drain-bounded s events rest budget v =
    let (a, b, c) =
      drain_loop-IsDrained apply skip_gateway budget apply_gateway-IsValid skip_gateway-IsValid s
        no_report events v (omega arith) in
    let (d, e, f) =
      drain_loop-IsDrained apply_rest skip_rest budget apply_rest-IsValid skip_rest-IsValid s
        no_report rest v (omega arith) in
    (a, omega (arith, b), c, d, omega (arith, e), f)
