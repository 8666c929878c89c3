-- ===== src/Gateway/Connection.antt =====
-- src/gateway/connection.rs: the loop of `run_connection` over the frames of an open connection, as
-- a step on its local state and the session. What serde_json reads from a text frame is the frame
-- itself; what the payload of a dispatch becomes for the frontend is its list of events. The clock's
-- instants are numbers.
use diddycord.Base.{
  ℕ, ◌+◌, ◌-◌, Bool, true, false, ◌&&◌, if◌then◌else◌, List, [], ◌∷◌, ◌++◌, Option, none, some, Str,
  leb, unwrap_or, sat_add32,
}
use diddycord.Events.{FrontendEvent, gateway_ready, gateway_resumed}
use diddycord.Gateway.Recovery.{
  SessionState, ConnectionNext, ConnectionExit, can_resume, classify_close, resume_or_reidentify,
}

abbrev pub cooperative_yield_every : ℕ
cooperative_yield_every = 64

pub record CurrentUser : Type 0 where
  pub id : Str
  pub username : Str
  pub global_name : Option Str
  pub discriminator : Option Str
  pub avatar_hash : Option Str
  pub bot : Bool

pub data NetworkStatus : Type 0 where
  idle : NetworkStatus
  connecting : (resume : Bool) → NetworkStatus
  identifying resuming ready : NetworkStatus
  reconnecting : (attempt : ℕ) → (resume : Bool) → NetworkStatus
  stopped : NetworkStatus
  fatal : (code : ℕ) → NetworkStatus

-- The data of READY that `serde_json` finds: the session, and the user if it is valid.
pub record Ready : Type 0 where
  pub session_id : Str
  pub resume_gateway_url : Str
  pub user : Option CurrentUser

-- A dispatch by its name: `ready none` is one without readable data, and `topical` one of the
-- events for the frontend alone, with what its emit functions would send. `Gateway.Routing` finds it
-- by an envelope's name.
pub data Dispatch : Type 0 where
  ready : Option Ready → Dispatch
  resumed : Dispatch
  user_update : Option CurrentUser → Dispatch
  topical : List FrontendEvent → Dispatch
  unknown : Dispatch

-- The operations of an envelope, by `op`: 0, 1, 7, 9, 11 and the others.
pub data Operation : Type 0 where
  dispatch : Dispatch → Operation
  heartbeat_request : (written : Bool) → Operation
  reconnect : Operation
  invalid_session : (resumable : Option Bool) → Operation
  heartbeat_ack other : Operation

pub record Envelope : Type 0 where
  pub seq : Option ℕ
  pub op : Operation

-- What `timeout_at(next_heartbeat, socket.next())` gives, with the time. `malformed` is a text that
-- is no envelope, `silent` a ping, a pong, or a binary or raw frame. The flag of a time-out, like
-- that of a request for a heartbeat, says whether the write of the heartbeat succeeds.
pub data Frame : Type 0 where
  text : Envelope → Frame
  malformed silent : Frame
  close : Option ℕ → Frame
  ended failed : Frame
  timed_out : (written : Bool) → Frame

-- The local variables, and what the connection has told the outside: the heartbeats it sent, with
-- their sequence numbers, and the events it broadcast.
pub record Connection : Type 0 where
  pub session : SessionState
  pub next_heartbeat : ℕ
  pub awaiting_heartbeat_ack : Bool
  pub heartbeat_sent_at : Option ℕ
  pub stable : Bool
  pub frames_since_yield : ℕ
  pub status : NetworkStatus
  pub self_user : Option CurrentUser
  pub latency : Option ℕ
  pub heartbeats : List (Option ℕ)
  pub broadcast : List FrontendEvent

-- The loop goes on, returns `Ok`, or returns `Err`.
pub data Turn : Type 0 where
  continue : Connection → Turn
  exit : Connection → ConnectionExit → Turn
  error : Connection → Turn

-- Heartbeats are sent by the clock, and one more on request.
abbrev pub send_heartbeat : ℕ → Connection → Connection
send_heartbeat now c = record c {
  heartbeats = c.heartbeats ++ c.session.seq ∷ [];
  heartbeat_sent_at = some now;
  awaiting_heartbeat_ack = true;
}

abbrev pub emit : FrontendEvent → Connection → Connection
emit event c = record c { broadcast = c.broadcast ++ event ∷ [] }

unfoldable pub on_ready : Ready → Connection → Connection
on_ready r c = emit gateway_ready (record c {
  session = record c.session {
    session_id = some r.session_id;
    resume_gateway_url = some r.resume_gateway_url;
  };
  self_user = elim r.user [ none ↦ c.self_user | some user ↦ some user ];
  status = NetworkStatus.ready;
})

-- The arm of `op` 0. `has_receivers` is `receiver_count() != 0`.
unfoldable pub on_dispatch : Bool → Dispatch → Connection → Connection
unfolding on_ready
on_dispatch has_receivers (ready none) c = record c { stable = true }
on_dispatch has_receivers (ready (some r)) c = on_ready r (record c { stable = true })
on_dispatch has_receivers resumed c =
    emit gateway_resumed (record c { stable = true; status = NetworkStatus.ready })
on_dispatch has_receivers (user_update none) c = record c { stable = true }
on_dispatch has_receivers (user_update (some user)) c = record c {
  stable = true;
  self_user = some user;
}
on_dispatch has_receivers (topical events) c = record c {
  stable = true;
  broadcast = if has_receivers then c.broadcast ++ events else c.broadcast;
}
on_dispatch has_receivers unknown c = record c { stable = true }

abbrev pub leave : Connection → ConnectionNext → Turn
leave c next = exit c (record { next = next; stable = c.stable })

-- `heartbeat_sent_at.take()`.
unfoldable pub on_ack : ℕ → Connection → Connection
on_ack now c = elim c.heartbeat_sent_at [
  | none ↦ record c { awaiting_heartbeat_ack = false }
  | some sent_at ↦ record c {
    awaiting_heartbeat_ack = false;
    heartbeat_sent_at = none;
    latency = some (now - sent_at);
  }
]

unfoldable pub on_operation : Bool → ℕ → Operation → Connection → Turn
unfolding on_dispatch resume_or_reidentify can_resume on_ack
on_operation has_receivers now (dispatch d) c = continue (on_dispatch has_receivers d c)
on_operation has_receivers now (heartbeat_request written) c =
    if written then continue (send_heartbeat now c) else error c
on_operation has_receivers now reconnect c = leave c (resume_or_reidentify c.session)
on_operation has_receivers now (invalid_session resumable) c = leave c (
    if unwrap_or resumable false && can_resume c.session
    then ConnectionNext.resume
    else ConnectionNext.reidentify)
on_operation has_receivers now heartbeat_ack c = continue (on_ack now c)
on_operation has_receivers now other c = continue c

-- The end of a round: the counter of frames starts again at each yield.
abbrev pub yield_now : Turn → Turn
yield_now (continue c) = continue (record c {
  frames_since_yield =
      if leb cooperative_yield_every c.frames_since_yield then 0 else c.frames_since_yield;
})
yield_now (exit c result) = exit c result
yield_now (error c) = error c

abbrev pub count_frame : Connection → Connection
count_frame c = record c { frames_since_yield = sat_add32 c.frames_since_yield 1 }

abbrev pub note_seq : Option ℕ → SessionState → SessionState
note_seq none s = s
note_seq (some seq) s = record s { seq = some seq }

-- A round of the loop, at a time, with the heartbeat interval.
unfoldable pub step : Bool → ℕ → ℕ → Frame → Connection → Turn
unfolding on_operation classify_close resume_or_reidentify
step has_receivers interval now failed c = error c
step has_receivers interval now ended c = leave c (resume_or_reidentify c.session)
step has_receivers interval now (timed_out written) c =
    if c.awaiting_heartbeat_ack
    then leave c (resume_or_reidentify c.session)
    else if written
    then continue (record (send_heartbeat now c) { next_heartbeat = now + interval })
    else error c
step has_receivers interval now malformed c = continue (count_frame c)
step has_receivers interval now (text envelope) c = yield_now (
    on_operation has_receivers now envelope.op
      (record (count_frame c) { session = note_seq envelope.seq c.session }))
step has_receivers interval now (close code) c = leave (count_frame c) (elim code [
  | none ↦ resume_or_reidentify c.session
  | some code ↦ classify_close code c.session
])
step has_receivers interval now silent c = yield_now (continue (count_frame c))

-- The loop over the frames that arrive, each with its time; it goes on where they end.
unfoldable pub run_frames : Bool → ℕ → List (ℕ × Frame) → Connection → Turn
unfolding step
run_frames has_receivers interval [] c = continue c
run_frames has_receivers interval ((now, frame) ∷ frames) c =
    elim (step has_receivers interval now frame c) [
      | continue d ↦ run_frames has_receivers interval frames d
      | exit d result ↦ exit d result
      | error d ↦ error d
    ]
