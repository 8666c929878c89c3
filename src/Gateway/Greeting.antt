-- ===== src/Gateway/Greeting.antt =====
-- src/gateway/connection.rs: what `run_connection` decides before it connects: whether it resumes,
-- where it connects to, and what it greets with.
use diddycord.Base.{ℕ, if◌then◌else◌, Option, none, some, Str, bytes}
use diddycord.Gateway.Recovery.{SessionState, AuthMode, can_resume, gateway_url}

-- The start of `run_connection`: the authentication that is used, the URL, and the local state with
-- the first heartbeat's time.
unfoldable pub effective_auth : AuthMode → SessionState → AuthMode
unfolding can_resume
effective_auth AuthMode.identify s = AuthMode.identify
effective_auth AuthMode.resume s = if can_resume s then AuthMode.resume else AuthMode.identify

abbrev pub initial_gateway_url : Str
initial_gateway_url = bytes "wss://gateway.discord.gg/?v=9&encoding=json"

-- `none` is the error that the URL to resume at is missing.
unfoldable pub connection_url : AuthMode → SessionState → Option Str
unfolding gateway_url
connection_url AuthMode.identify s = some initial_gateway_url
connection_url AuthMode.resume s = elim s.resume_gateway_url [
  | none ↦ none
  | some url ↦ some (gateway_url url)
]

-- What is sent once HELLO has come: IDENTIFY, or RESUME with the session's id and sequence number;
-- `none` is the error that one of them is missing.
pub data Greeting : Type 0 where
  send_identify : Greeting
  send_resume : (session_id : Str) → (seq : ℕ) → Greeting

unfoldable pub greeting : AuthMode → SessionState → Option Greeting
greeting AuthMode.identify s = some send_identify
greeting AuthMode.resume s = elim s.session_id [
  | none ↦ none
  | some session_id ↦ elim s.seq [ none ↦ none | some seq ↦ some (send_resume session_id seq) ]
]
