-- ===== src/Gateway/Tests.antt =====
-- The connection and the backbone of src/gateway at concrete frames and rounds.
use diddycord.Base.{if◌then◌else◌, ◌≡◌, refl, true, false, [], ◌∷◌, none, some, bytes, ℕ, List, ◌↔◌}
use diddycord.Base.Results.{ok, err}
use mathlib.Core.List.{foldl}
use diddycord.Base.{retain, not, pos}
use diddycord.Topology.Cache.{channels, threads}
use diddycord.State.Cache.{new, timeline}
use diddycord.State.Ops.{apply}
use diddycord.Gateway.Payloads.{GuildCreate, MessageBulkDelete}
use diddycord.Gateway.Emits.{emit_message_delete_bulk}
use diddycord.Gateway.Bulk.{is_acceptable, is_deleted, emit_bulk-timeline}
use diddycord.Gateway.Recovery.{SessionState, AuthMode}
use diddycord.Gateway.Connection.{Connection, Dispatch, Frame, NetworkStatus, Operation, text}
use diddycord.Gateway.Backbone.{Backbone, Ended, Round, fresh_backbone, play}
use diddycord.Gateway.Sessions.{EndsWell, play-EndsWell}
use diddycord.Gateway.Control.{GatewayConfig, default_intents}
use diddycord.Gateway.Protocol
use diddycord.Gateway.Protocol.{Incoming, receive_hello}
use diddycord.Gateway.Opening
use diddycord.Gateway.Opening.{Network}
use diddycord.Gateway.Hello.{Brings, receive_hello-Brings}
use diddycord.Gateway.Opens.{Opens, open_connection-Opens}

abbrev session : SessionState
session = record {
  session_id = some (bytes "s");
  resume_gateway_url = some (bytes "wss://r");
  seq = some 4;
}

abbrev failed_connection : Ended
failed_connection = record { session = session; result = err tt }

abbrev round : Round
round = record {
  shutdown_connected = false;
  ended = failed_connection;
  entropy = 9;
  shutdown_waiting = false;
}

play-EndsWell_example : EndsWell (play fresh_backbone (round ∷ []))
play-EndsWell_example = play-EndsWell fresh_backbone (round ∷ []) refl

abbrev resuming : Backbone
resuming = record {
  session = session;
  next_auth = AuthMode.resume;
  failed_attempts = 1;
  status = NetworkStatus.reconnecting 1 true;
  latency = none;
}

abbrev open_connection : Connection
open_connection = record {
  session = session;
  next_heartbeat = 100;
  awaiting_heartbeat_ack = true;
  heartbeat_sent_at = some 60;
  stable = false;
  frames_since_yield = 0;
  status = NetworkStatus.resuming;
  self_user = none;
  latency = none;
  heartbeats = some 4 ∷ [];
  broadcast = [];
}

abbrev resumed_frame : Frame
resumed_frame = text (record { seq = some 5; op = Operation.dispatch Dispatch.resumed })

abbrev bulk : MessageBulkDelete
bulk = record { ids = bytes "102" ∷ bytes "99" ∷ []; channel_id = bytes "11" }

emit_bulk-timeline_example :
    timeline (foldl apply (new 2 3) (emit_message_delete_bulk (some bulk))) (bytes "11") ≡ (
      if is_acceptable bulk
      then retain (λ event. not (is_deleted bulk.ids event)) (timeline (new 2 3) (bytes "11"))
      else timeline (new 2 3) (bytes "11"))
emit_bulk-timeline_example = emit_bulk-timeline (new 2 3) bulk

abbrev guild : GuildCreate
guild = record {
  id = bytes "1";
  name = bytes "first";
  unavailable = false;
  channels =
      record {
        id = bytes "11";
        name = some (bytes "general");
        kind = 0;
        position = pos 0;
        parent_id = none;
      }
      ∷ [];
  threads =
      record {
        id = bytes "21";
        parent_id = some (bytes "11");
        name = none;
        kind = 11;
        thread_metadata = none;
      }
      ∷ [];
}

-- HELLO behind a ping and another operation.
abbrev hello_frames : List (ℕ × Incoming)
hello_frames =
    (10, Protocol.silent)
    ∷ (20, Protocol.text (some (record { op = 11; d = none })))
    ∷ (30, Protocol.text (some (record { op = 10; d = some (some 41250) })))
    ∷ []

receive_hello-Brings_example : (receive_hello hello_frames ≡ ok 41250) ↔ Brings 41250 hello_frames
receive_hello-Brings_example = receive_hello-Brings hello_frames 41250

-- HELLO is found there.
hello_found : receive_hello hello_frames ≡ ok 41250
unfolding receive_hello
hello_found = refl

abbrev network : Network
network = record {
  connected = λ url. ok tt;
  incoming = hello_frames;
  written = Protocol.done;
  os = bytes "linux";
  now = 1000;
  entropy = 7;
}

abbrev config : GatewayConfig
config = record { token = bytes "t"; intents = default_intents }

open_connection-Opens_example :
    Opens network config session AuthMode.resume
      (Opening.open_connection network config session AuthMode.resume)
open_connection-Opens_example = open_connection-Opens network config session AuthMode.resume
