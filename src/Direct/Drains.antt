-- ===== src/Direct/Drains.antt =====
-- The drain of src/gateway/direct.rs keeps the invariant.
use diddycord.Base.{ℕ, ◌+◌, List, [], ◌∷◌, if◌then◌else◌, ltb, Bool-cases, inl, inr, sat_add}
use diddycord.Events.{FrontendEvent}
use diddycord.State.Drain.{Received, received, lagged, empty, closed}
use diddycord.Direct.Cache.{
  DirectTopologyState, DirectDrainReport, apply, drain_loop, drain, no_direct_report,
}
use diddycord.Direct.Invariant.{IsValid, apply_direct-IsValid}

skip-IsValid :
    (s : DirectTopologyState) (n : ℕ)
    → IsValid s
    → IsValid (record s { dropped_gateway_events = sat_add s.dropped_gateway_events n })
skip-IsValid s n v = record {
  limit = v.limit;
  room = v.room;
  ids = v.ids;
  past = v.past;
  clock_range = v.clock_range;
  dropped_range = v.dropped_range;
}

-- The report after an event.
abbrev pub counted : DirectTopologyState → FrontendEvent → DirectDrainReport → DirectDrainReport
counted s event r = record r {
  processed = r.processed + 1;
  direct_events = if (apply s event).1 then r.direct_events + 1 else r.direct_events;
}

drain_loop-IsValid :
    (budget : ℕ) (s : DirectTopologyState) (r : DirectDrainReport)
    (answers : List (Received FrontendEvent))
    → IsValid s
    → IsValid (drain_loop budget s r answers).0
unfolding drain_loop
drain_loop-IsValid budget s r [] v = v
drain_loop-IsValid budget s r (received event ∷ answers) v =
    elim (Bool-cases (ltb r.processed budget)) [
      | inr full ↦ rw (full, drain_loop) v
      | inl more ↦
          rw (more, drain_loop)
            (drain_loop-IsValid budget (apply s event).0 (counted s event r) answers
              (apply_direct-IsValid s event v))
    ]
drain_loop-IsValid budget s r (lagged skipped ∷ answers) v =
    elim (Bool-cases (ltb r.processed budget)) [
      | inr full ↦ rw (full, drain_loop) v
      | inl more ↦
          rw (more, drain_loop)
            (drain_loop-IsValid budget
              (record s { dropped_gateway_events = sat_add s.dropped_gateway_events skipped })
              (record r { lagged = sat_add r.lagged skipped }) answers (skip-IsValid s skipped v))
    ]
drain_loop-IsValid budget s r (empty ∷ answers) v = elim (Bool-cases (ltb r.processed budget)) [
  | inr full ↦ rw (full, drain_loop) v
  | inl more ↦ rw (more, drain_loop) v
]
drain_loop-IsValid budget s r (closed ∷ answers) v = elim (Bool-cases (ltb r.processed budget)) [
  | inr full ↦ rw (full, drain_loop) v
  | inl more ↦ rw (more, drain_loop) v
]

pub drain-IsValid :
    (s : DirectTopologyState) (answers : List (Received FrontendEvent)) (budget : ℕ)
    → IsValid s
    → IsValid (drain s answers budget).0
unfolding drain
drain-IsValid s answers budget v = drain_loop-IsValid budget s no_direct_report answers v
