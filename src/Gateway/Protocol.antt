-- ===== src/Gateway/Protocol.antt =====
-- src/gateway/protocol.rs: the frames that open a connection, and those that the client writes. What
-- serde_json reads from a text, and what becomes of a write, are arguments. Times are milliseconds
-- since the socket opened.
use diddycord.Base.{
  ℕ, true, false, ◌&&◌, if◌then◌else◌, List, [], ◌∷◌, Option, none, some, Str, bytes, leb, ltb,
  ◌==◌,
}
use diddycord.Base.Results.{Result, ok, err}

abbrev pub hello_timeout : ℕ
hello_timeout = 10000

-- An envelope, as far as HELLO goes: `d` is the payload, if there is one, with the interval that is
-- read from it, if it has one.
pub record GatewayEnvelope : Type 0 where
  pub op : ℕ
  pub d : Option (Option ℕ)

pub record HelloData : Type 0 where
  pub heartbeat_interval : ℕ

-- What `socket.next()` gives: a frame (a text is `none` where it is no envelope), an error, or the
-- end.
pub data Incoming : Type 0 where
  text : Option GatewayEnvelope → Incoming
  close silent broken ended : Incoming

pub data GatewayError : Type 0 where
  timed_out closed socket malformed missing_d invalid_interval : GatewayError

-- `serde_json::from_str::<HelloData>`.
unfoldable pub parse_hello : Option ℕ → Result HelloData GatewayError
parse_hello none = err GatewayError.malformed
parse_hello (some interval) = ok (record { heartbeat_interval = interval })

-- HELLO itself: the interval, if it is between a second and five minutes.
unfoldable pub accept_hello : Option (Option ℕ) → Result ℕ GatewayError
unfolding parse_hello
accept_hello none = err GatewayError.missing_d
accept_hello (some raw) = elim (parse_hello raw) [
  | err error ↦ err error
  | ok hello ↦
      if leb 1000 hello.heartbeat_interval && leb hello.heartbeat_interval 300000
      then ok hello.heartbeat_interval
      else err GatewayError.invalid_interval
]

-- The loop over what comes in, each with its time. Nothing that comes after the deadline is waited
-- for, nor is there anything behind the end of the list.
unfoldable pub receive_hello : List (ℕ × Incoming) → Result ℕ GatewayError
unfolding accept_hello
receive_hello [] = err GatewayError.timed_out
receive_hello ((at, incoming) ∷ rest) = elim (ltb hello_timeout at) [
  | true ↦ err GatewayError.timed_out
  | false ↦ elim incoming [
    | broken ↦ err GatewayError.socket
    | ended ↦ err GatewayError.closed
    | close ↦ err GatewayError.closed
    | silent ↦ receive_hello rest
    | text parsed ↦ elim parsed [
      | none ↦ err GatewayError.malformed
      | some envelope ↦ elim (envelope.op == 10) [
        | false ↦ receive_hello rest
        | true ↦ accept_hello envelope.d
      ]
    ]
  ]
]

pub record IdentifyProperties : Type 0 where
  pub os : Str
  pub browser : Str
  pub device : Str

pub record IdentifyData : Type 0 where
  pub token : Str
  pub intents : ℕ
  pub properties : IdentifyProperties

pub record IdentifyPayload : Type 0 where
  pub op : ℕ
  pub d : IdentifyData

pub record ResumeData : Type 0 where
  pub token : Str
  pub session_id : Str
  pub seq : ℕ

pub record ResumePayload : Type 0 where
  pub op : ℕ
  pub d : ResumeData

pub record HeartbeatPayload : Type 0 where
  pub op : ℕ
  pub d : Option ℕ

-- A payload that is serialised and written as a text frame.
pub data Outgoing : Type 0 where
  identify : IdentifyPayload → Outgoing
  resume : ResumePayload → Outgoing
  heartbeat : HeartbeatPayload → Outgoing

-- What becomes of a write: it is done, or it does not end in time, or it fails.
pub data Written : Type 0 where
  done late failed : Written

-- The frames on the wire so far, and how the write ends.
unfoldable pub send_json : Written → List Outgoing → Outgoing → Result (List Outgoing) GatewayError
send_json done wire payload = ok (payload ∷ wire)
send_json late wire payload = err GatewayError.timed_out
send_json failed wire payload = err GatewayError.socket

-- `std::env::consts::OS` is the argument `os`.
unfoldable pub send_identify :
    Written → (os token : Str) → ℕ → List Outgoing → Result (List Outgoing) GatewayError
unfolding send_json
send_identify written os token intents wire = send_json written wire (
    identify (record {
      op = 2;
      d = record {
        token = token;
        intents = intents;
        properties = record { os = os; browser = bytes "diddycord"; device = bytes "diddycord" };
      };
    }))

unfoldable pub send_resume :
    Written → (token session_id : Str) → ℕ → List Outgoing → Result (List Outgoing) GatewayError
unfolding send_json
send_resume written token session_id seq wire =
    send_json written wire
      (resume (record { op = 6; d = record { token = token; session_id = session_id; seq = seq } }))

unfoldable pub send_heartbeat :
    Written → Option ℕ → List Outgoing → Result (List Outgoing) GatewayError
unfolding send_json
send_heartbeat written seq wire = send_json written wire (heartbeat (record { op = 1; d = seq }))
