-- ===== src/Gateway/Backbone.antt =====
-- src/gateway/mod.rs: `NetworkBackbone::run`, whose rounds make a connection, judge how it ended and
-- wait. How a connection ended, with the session that it leaves, is an argument, and so are the
-- shutdown signals; delays are in milliseconds.
use diddycord.Base.{
  ℕ, ◌-◌, max, Bool, true, false, ◌&&◌, if◌then◌else◌, List, [], ◌∷◌, sat_add32, Option, none,
}
use diddycord.Base.Results.{Result, ok, err}
use diddycord.Gateway.Recovery.{
  SessionState, AuthMode, ConnectionNext, ConnectionExit, no_session, can_resume, clear,
  resume_or_reidentify, reconnect_delay,
}
use diddycord.Gateway.Connection.{NetworkStatus}

pub record Backbone : Type 0 where
  pub session : SessionState
  pub next_auth : AuthMode
  pub failed_attempts : ℕ
  pub status : NetworkStatus
  pub latency : Option ℕ

abbrev pub fresh_backbone : Backbone
fresh_backbone = record {
  session = no_session;
  next_auth = AuthMode.identify;
  failed_attempts = 0;
  status = NetworkStatus.idle;
  latency = none;
}

-- The end of a connection: the session that it leaves, and its exit or an error. Whatever latency it
-- has measured is cleared.
pub record Ended : Type 0 where
  pub session : SessionState
  pub result : Result ConnectionExit (Unit {0})

-- What the end of a connection comes to.
pub data Verdict : Type 0 where
  reconnect_after : Backbone → (delay : ℕ) → Verdict
  give_up : Backbone → (code : ℕ) → Verdict

abbrev pub is_resume : AuthMode → Bool
is_resume AuthMode.resume = true
is_resume AuthMode.identify = false

unfoldable pub starting : Backbone → Backbone
unfolding can_resume
starting b = record b {
  status = NetworkStatus.connecting (is_resume b.next_auth && can_resume b.session);
  latency = none;
}

-- The exit, or what an error stands for.
unfoldable pub exit_of : Ended → ConnectionExit
unfolding resume_or_reidentify
exit_of e = elim e.result [
  | ok result ↦ result
  | err _ ↦ record { next = resume_or_reidentify e.session; stable = false }
]

-- The `match next`, for the two ways to go on: the session and the next authentication.
unfoldable pub next_session : ConnectionNext → SessionState → SessionState × AuthMode
unfolding can_resume clear
next_session ConnectionNext.resume s =
    if can_resume s then (s, AuthMode.resume) else (clear s, AuthMode.identify)
next_session _ s = (clear s, AuthMode.identify)

abbrev pub attempts_after : Bool → ℕ → ℕ
attempts_after stable attempts = if stable then 0 else sat_add32 attempts 1

-- The wait after a connection that can be made again.
abbrev pub wait_after : ℕ → Backbone → Verdict
wait_after entropy b =
    reconnect_after
      (record b {
        status =
            NetworkStatus.reconnecting (max b.failed_attempts 1)
              (is_resume b.next_auth && can_resume b.session);
      })
      (reconnect_delay entropy (b.failed_attempts - 1) b.next_auth)

unfoldable pub settle : ℕ → Backbone → Ended → Verdict
unfolding exit_of next_session reconnect_delay can_resume
settle entropy b e =
    let result = exit_of e in
    let counted = record b {
      session = e.session;
      failed_attempts = attempts_after result.stable b.failed_attempts;
      latency = none;
    } in
    let (session, auth) = next_session result.next e.session in
    let going_on = wait_after entropy (record counted { session = session; next_auth = auth }) in
    elim result.next [
      | ConnectionNext.fatal code ↦
          give_up (record counted { status = NetworkStatus.fatal code }) code
      | ConnectionNext.resume ↦ going_on
      | ConnectionNext.reidentify ↦ going_on
    ]

-- A round: what the connection came to, and whether a shutdown came while it stood or during the
-- wait after it.
pub record Round : Type 0 where
  pub shutdown_connected : Bool
  pub ended : Ended
  pub entropy : ℕ
  pub shutdown_waiting : Bool

pub data Run : Type 0 where
  running : Backbone → Run
  stopped : Backbone → Run
  died : Backbone → (code : ℕ) → Run

abbrev pub stop : Backbone → Run
stop b = stopped (record b { status = NetworkStatus.stopped; latency = none })

unfoldable pub play_round : Backbone → Round → Run
unfolding starting settle
play_round b r =
    if r.shutdown_connected then stop b else elim (settle r.entropy (starting b) r.ended) [
      | reconnect_after c delay ↦ if r.shutdown_waiting then stop c else running c
      | give_up c code ↦ died c code
    ]

unfoldable pub play : Backbone → List Round → Run
unfolding play_round
play b [] = running b
play b (r ∷ rounds) = elim (play_round b r) [
  | running c ↦ play c rounds
  | stopped c ↦ stopped c
  | died c code ↦ died c code
]

-- `run`, which returns at once where the shutdown came before it.
unfoldable pub run : Bool → List Round → Run
unfolding play
run stopping rounds = if stopping then stop fresh_backbone else play fresh_backbone rounds
