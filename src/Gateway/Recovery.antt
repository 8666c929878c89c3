-- ===== src/Gateway/Recovery.antt =====
-- src/gateway/recovery.rs: the session that a reconnection may resume, and the delays. The entropy
-- that `time_entropy` reads off the clock, a `u64`, is an argument; durations are in the unit that
-- their names say.
use diddycord.Base.{
  ℕ, ◌+◌, ◌*◌, ◌/◌, ◌%◌, ◌^◌, ◌==◌, min, Bool, ◌&&◌, ◌||◌, if◌then◌else◌, List, [], ◌∷◌, ◌++◌,
  Option, none, Str, is_some, any, bytes, u64_max,
}

pub record SessionState : Type 0 where
  pub session_id : Option Str
  pub resume_gateway_url : Option Str
  pub seq : Option ℕ

abbrev pub no_session : SessionState
no_session = record { session_id = none; resume_gateway_url = none; seq = none }

unfoldable pub can_resume : SessionState → Bool
can_resume s = is_some s.session_id && is_some s.resume_gateway_url && is_some s.seq

unfoldable pub clear : SessionState → SessionState
clear s = record s { session_id = none; resume_gateway_url = none; seq = none }

pub data AuthMode : Type 0 where
  identify resume : AuthMode

pub data ConnectionNext : Type 0 where
  resume reidentify : ConnectionNext
  fatal : ℕ → ConnectionNext

pub record ConnectionExit : Type 0 where
  pub next : ConnectionNext
  pub stable : Bool

unfoldable pub resume_or_reidentify : SessionState → ConnectionNext
unfolding can_resume
resume_or_reidentify s = if can_resume s then ConnectionNext.resume else ConnectionNext.reidentify

abbrev pub fatal_codes : List ℕ
fatal_codes = 4001 ∷ 4002 ∷ 4003 ∷ 4004 ∷ 4005 ∷ 4010 ∷ 4011 ∷ 4012 ∷ 4013 ∷ 4014 ∷ []

unfoldable pub classify_close : ℕ → SessionState → ConnectionNext
unfolding any resume_or_reidentify
classify_close code s =
    if any (λ fatal_code. code == fatal_code) fatal_codes
    then ConnectionNext.fatal code
    else if code == 4007 || code == 4009
    then ConnectionNext.reidentify
    else resume_or_reidentify s

-- `trim_end_matches('/')`.
abbrev slash : ℕ
slash = 47

abbrev pub cons_trimmed : ℕ → Str → Str
cons_trimmed byte [] = if byte == slash then [] else byte ∷ []
cons_trimmed byte (b ∷ rest) = byte ∷ b ∷ rest

unfoldable pub trim_slashes : Str → Str
trim_slashes [] = []
trim_slashes (byte ∷ base) = cons_trimmed byte (trim_slashes base)

abbrev question_mark : ℕ
question_mark = 63

unfoldable pub gateway_url : Str → Str
unfolding trim_slashes any
gateway_url base =
    let trimmed = trim_slashes base in
    let separator = if any (λ byte. byte == question_mark) trimmed then bytes "&" else bytes "?" in
    trimmed ++ separator ++ bytes "v=9&encoding=json"

-- Microseconds.
unfoldable pub heartbeat_jitter : ℕ → ℕ → ℕ
heartbeat_jitter entropy interval =
    min (min interval u64_max * (entropy % 1000000)) u64_max / 1000000

-- Milliseconds.
unfoldable pub invalid_session_delay : ℕ → ℕ
invalid_session_delay entropy = 1000 + entropy % 4001

-- Seconds: the base and the cap.
abbrev pub delay_bounds : AuthMode → ℕ × ℕ
delay_bounds AuthMode.resume = (1, 30)
delay_bounds AuthMode.identify = (5, 120)

-- Milliseconds.
unfoldable pub reconnect_delay : ℕ → ℕ → AuthMode → ℕ
reconnect_delay entropy attempt auth =
    let (base_secs, cap_secs) = delay_bounds auth in
    let exponent = min attempt 7 in
    let delay_secs = min (min (base_secs * 2 ^ exponent) u64_max) cap_secs in
    delay_secs * 1000 + entropy % 500
