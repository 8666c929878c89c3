-- ===== src/Gateway/Opening.antt =====
-- src/gateway/connection.rs: how `run_connection` opens a connection, up to its loop. What the
-- network answers is an argument. Instants and intervals are microseconds.
use diddycord.Base.{ℕ, ◌+◌, ◌*◌, Bool, false, List, [], Option, none, some, Str}
use diddycord.Base.Results.{Result, ok, err, ◌>>=◌}
use diddycord.Gateway.Recovery.{SessionState, AuthMode, heartbeat_jitter}
use diddycord.Gateway.Connection.{Connection, NetworkStatus, Frame, Turn, run_frames}
use diddycord.Gateway.Greeting.{
  Greeting, send_identify, send_resume, effective_auth, connection_url, greeting,
}
use diddycord.Gateway.Control.{GatewayConfig}
use diddycord.Gateway.Protocol
use diddycord.Gateway.Protocol.{Incoming, GatewayError, Outgoing, Written, receive_hello}

-- The errors of the opening: those of the protocol, or a part of the session is missing.
pub data OpenError : Type 0 where
  protocol : GatewayError → OpenError
  missing : OpenError

-- What the attempt to connect to a URL meets, what comes in before HELLO, the result of the greeting's
-- write, and the clock afterwards with its entropy.
pub record Network : Type 0 where
  pub connected : Str → Result (Unit {0}) GatewayError
  pub incoming : List (ℕ × Incoming)
  pub written : Written
  pub os : Str
  pub now : ℕ
  pub entropy : ℕ

-- A connection that is open: its local state, its interval, and what has been written.
pub record Opened : Type 0 where
  pub connection : Connection
  pub interval : ℕ
  pub wire : List Outgoing

abbrev pub or_missing {ℓ} : {A : Type ℓ} → Option A → Result A OpenError
or_missing none = err OpenError.missing
or_missing (some a) = ok a

abbrev pub or_protocol {ℓ} : {A : Type ℓ} → Result A GatewayError → Result A OpenError
or_protocol (err error) = err (protocol error)
or_protocol (ok a) = ok a

-- The status once HELLO has come.
unfoldable pub greeting_status : AuthMode → NetworkStatus
greeting_status AuthMode.identify = NetworkStatus.identifying
greeting_status AuthMode.resume = NetworkStatus.resuming

unfoldable pub write_greeting :
    Network → GatewayConfig → Greeting → Result (List Outgoing) GatewayError
unfolding Protocol.send_identify Protocol.send_resume
write_greeting net config send_identify =
    Protocol.send_identify net.written net.os config.token config.intents []
write_greeting net config (send_resume session_id seq) =
    Protocol.send_resume net.written config.token session_id seq []

-- The local variables in front of the loop.
unfoldable pub opened : Network → SessionState → AuthMode → ℕ → List Outgoing → Opened
unfolding greeting_status heartbeat_jitter
opened net session auth interval wire = record {
  connection = record {
    session = session;
    next_heartbeat = net.now + heartbeat_jitter net.entropy (interval * 1000);
    awaiting_heartbeat_ack = false;
    heartbeat_sent_at = none;
    stable = false;
    frames_since_yield = 0;
    status = greeting_status auth;
    self_user = none;
    latency = none;
    heartbeats = [];
    broadcast = [];
  };
  interval = interval * 1000;
  wire = wire;
}

unfoldable pub open_connection :
    Network → GatewayConfig → SessionState → AuthMode → Result Opened OpenError
unfolding effective_auth connection_url receive_hello greeting write_greeting opened
open_connection net config session requested =
    let auth = effective_auth requested session in
    or_missing (connection_url auth session)
    >>= (λ url. or_protocol (net.connected url))
    >>= (λ _. or_protocol (receive_hello net.incoming))
    >>= (λ interval.
        or_missing (greeting auth session)
        >>= (λ g. or_protocol (write_greeting net config g))
        >>= (λ wire. ok (opened net session auth interval wire)))

-- The whole of `run_connection`, over the frames that come in once it is open.
unfoldable pub run_connection :
    Network
    → GatewayConfig
    → Bool
    → List (ℕ × Frame)
    → SessionState
    → AuthMode
    → Result Turn OpenError
unfolding open_connection run_frames
run_connection net config has_receivers frames session requested =
    open_connection net config session requested
    >>= (λ o. ok (run_frames has_receivers o.interval frames o.connection))
