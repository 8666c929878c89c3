-- ===== src/Gateway/Acks.antt =====
-- The heartbeats of src/gateway/connection.rs and their acknowledgements.
use diddycord.Base.{◌≡◌, Bool, true, false}
use diddycord.Gateway.Connection.{Connection, Frame, Operation, text}

-- The frame acknowledges a heartbeat.
abbrev pub is_ack_operation : Operation → Bool
is_ack_operation Operation.heartbeat_ack = true
is_ack_operation _ = false

abbrev pub is_ack : Frame → Bool
is_ack (text envelope) = is_ack_operation envelope.op
is_ack _ = false

abbrev IsWaiting : Connection → Type 0
IsWaiting d = d.awaiting_heartbeat_ack ≡ true
