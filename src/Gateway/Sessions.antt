-- ===== src/Gateway/Sessions.antt =====
-- Which session src/gateway resumes, and what a connection leaves in it.
use mathlib.Core.Path.{subst}
use diddycord.Base.{
  ℕ, ◌+◌, ◌-◌, ◌≡◌, refl, true, Bool, none, List, [], ◌∷◌, Option, some, Str, if_cases, is_some,
  ◌*◌, ◌≤◌, ◌<◌, if◌then◌else◌,
}
use diddycord.Gateway.Recovery.{
  SessionState, AuthMode, ConnectionNext, no_session, can_resume, clear, delay_bounds,
}
use diddycord.Gateway.Delays.{reconnect_delay-bounds}
use diddycord.Gateway.Connection.{NetworkStatus}
use diddycord.Gateway.Greeting.{effective_auth, connection_url, greeting}
use diddycord.Gateway.Backbone.{
  Backbone, Ended, Round, Run, Verdict, running, stopped, died, reconnect_after, give_up, starting,
  exit_of, next_session, attempts_after, settle, play_round, play, wait_after, run, fresh_backbone,
}

-- The next connection resumes only a session that it can resume, and identifies only where nothing
-- of the old session is left.
abbrev pub IsConsistent : SessionState → AuthMode → Type 0
IsConsistent s AuthMode.resume = can_resume s ≡ true
IsConsistent s AuthMode.identify = s ≡ no_session

abbrev pub IsValid : Backbone → Type 0
IsValid b = IsConsistent b.session b.next_auth

next_session-IsConsistent :
    (next : ConnectionNext) (s : SessionState)
    → let (t, auth) = next_session next s in IsConsistent t auth
unfolding next_session clear
next_session-IsConsistent ConnectionNext.resume s =
    if_cases (λ (r : SessionState × AuthMode). IsConsistent r.0 r.1) (can_resume s) (λ h. h)
      (λ _. refl)
next_session-IsConsistent ConnectionNext.reidentify s = refl
next_session-IsConsistent (ConnectionNext.fatal code) s = refl

-- How the backbone goes on after a connection: with a consistent session and authentication, and
-- after a delay within the authentication's bounds.
abbrev pub GoesOn : Verdict → Type 0
GoesOn (reconnect_after b delay) =
    IsValid b
    × ((delay_bounds b.next_auth).0 * 1000 ≤ delay)
    × (delay < (delay_bounds b.next_auth).1 * 1000 + 500)
GoesOn (give_up b code) = (b.status ≡ NetworkStatus.fatal code) × (b.latency ≡ none)

settle-GoesOn : (entropy : ℕ) (b : Backbone) (e : Ended) → GoesOn (settle entropy b e)
unfolding settle
settle-GoesOn entropy b e = go (exit_of e).next
  where
    counted : Backbone
    counted = record b {
      session = e.session;
      failed_attempts = attempts_after (exit_of e).stable b.failed_attempts;
      latency = none;
    }

    went : ConnectionNext → Backbone
    went next = record counted {
      session = (next_session next e.session).0;
      next_auth = (next_session next e.session).1;
    }

    waits : (c : Backbone) → IsValid c → GoesOn (wait_after entropy c)
    waits c v =
        let (low, high) = reconnect_delay-bounds entropy (c.failed_attempts - 1) c.next_auth in
        (v, low, high)

    go :
        (next : ConnectionNext)
        → GoesOn (elim next as (λ _. Verdict) [
          | ConnectionNext.fatal code ↦
              give_up (record counted { status = NetworkStatus.fatal code }) code
          | ConnectionNext.resume ↦ wait_after entropy (went next)
          | ConnectionNext.reidentify ↦ wait_after entropy (went next)
        ])
    go (ConnectionNext.fatal code) = (refl, refl)
    go ConnectionNext.resume =
        waits (went ConnectionNext.resume)
          (next_session-IsConsistent ConnectionNext.resume e.session)
    go ConnectionNext.reidentify =
        waits (went ConnectionNext.reidentify)
          (next_session-IsConsistent ConnectionNext.reidentify e.session)

-- What a run of the backbone comes to.
abbrev pub EndsWell : Run → Type 0
EndsWell (running b) = IsValid b
EndsWell (stopped b) = (b.status ≡ NetworkStatus.stopped) × (b.latency ≡ none)
EndsWell (died b code) = (b.status ≡ NetworkStatus.fatal code) × (b.latency ≡ none)

play_round-EndsWell : (b : Backbone) (r : Round) → EndsWell (play_round b r)
unfolding play_round
play_round-EndsWell b r =
    if_cases EndsWell r.shutdown_connected (λ _. (refl, refl))
      (λ _.
        go (settle r.entropy (starting b) r.ended) (settle-GoesOn r.entropy (starting b) r.ended))
  where
    go :
        (v : Verdict)
        → GoesOn v
        → EndsWell (elim v as (λ _. Run) [
          | reconnect_after c delay ↦
              if r.shutdown_waiting
              then stopped (record c { status = NetworkStatus.stopped; latency = none })
              else running c
          | give_up c code ↦ died c code
        ])
    go (reconnect_after c delay) g =
        if_cases EndsWell r.shutdown_waiting (λ _. (refl, refl)) (λ _. g.0)
    go (give_up c code) g = g

-- However its connections end and whenever it is told to stop, a backbone that runs on resumes
-- only a session that has its id, its URL and a sequence number, and identifies only after the old
-- session is cleared; one that stops says so in its status, and one that gives up shows the close
-- code, and both show no latency.
pub play-EndsWell : (b : Backbone) (rounds : List Round) → IsValid b → EndsWell (play b rounds)
unfolding play
play-EndsWell b [] v = v
play-EndsWell b (r ∷ rounds) v =
    go (play_round b r) (λ c w. play-EndsWell c rounds w) (play_round-EndsWell b r)
  where
    go :
        (o : Run)
        → ((c : Backbone) → IsValid c → EndsWell (play c rounds))
        → EndsWell o
        → EndsWell (elim o as (λ _. Run) [
          | running c ↦ play c rounds
          | stopped c ↦ stopped c
          | died c code ↦ died c code
        ])
    go (running c) more w = more c w
    go (stopped c) more w = w
    go (died c code) more w = w

-- The whole of `run`, told to stop in front of its loop or not, ends so.
pub run-EndsWell : (stopping : Bool) (rounds : List Round) → EndsWell (run stopping rounds)
unfolding run
run-EndsWell stopping rounds =
    if_cases EndsWell stopping (λ _. (refl, refl)) (λ _. play-EndsWell fresh_backbone rounds refl)

-- The wait between two connections: at least 5 s before an IDENTIFY and at least 1 s before a
-- RESUME, below 120.5 s and 30.5 s, and what follows it is consistent with the session.
pub settle-delay :
    (entropy : ℕ) (b c : Backbone) (e : Ended) (delay : ℕ)
    → settle entropy b e ≡ reconnect_after c delay
    → IsValid c
      × ((delay_bounds c.next_auth).0 * 1000 ≤ delay)
      × (delay < (delay_bounds c.next_auth).1 * 1000 + 500)
settle-delay entropy b c e delay h = subst GoesOn h (settle-GoesOn entropy b e)

-- A connection never lacks what its authentication needs: whatever was requested and whatever is
-- left of the session, there is a URL to connect to and a greeting to send.
pub effective_auth-ready :
    (requested : AuthMode) (s : SessionState)
    → let auth = effective_auth requested s in
      (is_some (connection_url auth s) ≡ true) × (is_some (greeting auth s) ≡ true)
unfolding effective_auth connection_url greeting can_resume
effective_auth-ready AuthMode.identify s = (refl, refl)
effective_auth-ready AuthMode.resume s = go s.session_id s.resume_gateway_url s.seq
  where
    go :
        (id url : Option Str) (seq : Option ℕ)
        → let s : SessionState = record { session_id = id; resume_gateway_url = url; seq = seq } in
          let auth = effective_auth AuthMode.resume s in
          (is_some (connection_url auth s) ≡ true) × (is_some (greeting auth s) ≡ true)
    go none url seq = (refl, refl)
    go (some id) none seq = (refl, refl)
    go (some id) (some url) none = (refl, refl)
    go (some id) (some url) (some seq) = (refl, refl)
