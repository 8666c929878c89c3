-- ===== src/Gui/Session.antt =====
-- src/gui_app.rs: `GuiSession`, what a connected client keeps between frames, with its methods. What
-- the receivers, the worker thread and the command queue answer are arguments.
use diddycord.Base.{
  ℕ, Bool, true, false, not, ◌&&◌, if◌then◌else◌, List, [], Option, none, some, Str, bytes, ◌++◌,
  ◌==◌, str_eq,
}
use diddycord.Base.Results.{Result, ok, err}
use diddycord.Events.{FrontendEvent, RestEvent}
use diddycord.Snowflake.{is_empty}
use diddycord.State.Cache
use diddycord.State.Cache.{FrontendState, channel_message_count}
use diddycord.State.Drain
use diddycord.State.Drain.{Received}
use diddycord.Direct.Cache as Direct
use diddycord.Direct.Cache.{DirectTopologyState}
use diddycord.Rest.Handle.{RestHandle, TrySend, try_fetch_messages}
use diddycord.Rest.Build
use diddycord.Rest.Build.{Built, RestBuildError, build_error_text, submit_error_text}
use diddycord.Gateway.Control
use diddycord.Gateway.Control.{NetworkControl, default_intents}

abbrev pub gateway_event_budget : ℕ
gateway_event_budget = 512

abbrev pub rest_event_budget : ℕ
rest_event_budget = 256

abbrev pub default_history_page : ℕ
default_history_page = 50

-- What joining the worker thread gives: its result, or a panic.
pub data Joined : Type 0 where
  stopped : Joined
  failed : (error : Str) → Joined
  panicked : Joined

-- `worker` says that the handle of the worker thread is still held.
pub record GuiSession : Type 0 where
  pub control : NetworkControl
  pub rest : RestHandle
  pub state : FrontendState
  pub direct : DirectTopologyState
  pub worker : Bool
  pub worker_finished : Bool
  pub selected_guild : Option Str
  pub direct_mode : Bool
  pub selected_channel : Option Str
  pub selected_channel_name : Option Str
  pub compose : Str
  pub notice : Option Str

-- The session of a client whose parts are built and whose worker is spawned.
unfoldable pub started : NetworkControl → RestHandle → GuiSession
unfolding Cache.new Direct.new
started control rest = record {
  control = control;
  rest = rest;
  state = Cache.new 128 200;
  direct = Direct.new Direct.default_max_direct_channels;
  worker = true;
  worker_finished = false;
  selected_guild = none;
  direct_mode = false;
  selected_channel = none;
  selected_channel_name = none;
  compose = [];
  notice = none;
}

-- `accepts` and `builds` are those of `RestDispatcher::new`; `spawned` is what the attempt to spawn
-- the worker gives, with the error's text.
unfoldable pub connect :
    (accepts builds : Str → Bool)
    → (now : ℕ) → (spawned : Result (Unit {0}) Str) → (token : Str) → Result GuiSession Str
unfolding Build.new build_error_text started Control.new
connect accepts builds now spawned token =
    if is_empty token
    then err (bytes "The bot token cannot be empty.")
    else let backbone =
        Control.new (record { token = token; intents = default_intents }) gateway_event_budget in
      elim (Build.new accepts builds now token 64 rest_event_budget) [
        | err error ↦ err (build_error_text error)
        | ok built ↦ elim spawned [
          | err error ↦ err (bytes "failed to start network worker: " ++ error)
          | ok _ ↦ ok (started (Control.control backbone) built.handle)
        ]
      ]

-- What a frame finds at the receivers, and at the worker: `none` while it runs.
pub record Arrivals : Type 0 where
  pub gateway_events : List (Received FrontendEvent)
  pub direct_events : List (Received FrontendEvent)
  pub rest_events : List (Received RestEvent)
  pub joined : Option Joined

-- The notice that the end of the worker leaves.
unfoldable pub worker_notice : Joined → Str
worker_notice stopped = bytes "Network worker stopped."
worker_notice (failed error) = error
worker_notice panicked = bytes "Network worker terminated unexpectedly."

-- The second half of `poll`: a worker that has finished is joined.
unfoldable pub join_worker : Option Joined → GuiSession → GuiSession
unfolding worker_notice
join_worker none s = s
join_worker (some joined) s =
    if s.worker
    then record s { worker = false; worker_finished = true; notice = some (worker_notice joined) }
    else s

unfoldable pub poll : Arrivals → GuiSession → GuiSession
unfolding join_worker Drain.drain Direct.drain Drain.drain_rest
poll a s =
    let gateway = (Drain.drain s.state a.gateway_events gateway_event_budget).0 in
    let direct = (Direct.drain s.direct a.direct_events gateway_event_budget).0 in
    let rest = (Drain.drain_rest gateway a.rest_events rest_event_budget).0 in
    join_worker a.joined (record s { state = rest; direct = direct })

unfoldable pub select_guild : Str → GuiSession → GuiSession
select_guild guild_id s = record s {
  direct_mode = false;
  selected_guild = some guild_id;
  selected_channel = none;
  selected_channel_name = none;
}

unfoldable pub select_direct_messages : GuiSession → GuiSession
select_direct_messages s = record s {
  direct_mode = true;
  selected_guild = none;
  selected_channel = none;
  selected_channel_name = none;
}

-- `selected.as_deref() == Some(id)`.
unfoldable pub is_at : Str → Option Str → Bool
is_at id none = false
is_at id (some selected) = str_eq selected id

-- The request for the latest page of the channel.
unfoldable pub fetch_page : TrySend → Str → GuiSession → GuiSession
unfolding try_fetch_messages submit_error_text
fetch_page answer channel_id s =
    let (rest, result) = try_fetch_messages answer s.rest channel_id default_history_page in
    let t = record s { rest = rest } in
    elim result [ ok _ ↦ t | err error ↦ record t { notice = some (submit_error_text error) } ]

unfoldable pub select_channel : TrySend → Str → Str → GuiSession → GuiSession
unfolding is_at fetch_page channel_message_count
select_channel answer channel_id name s =
    let changed = not (is_at channel_id s.selected_channel) in
    let t = record s { selected_channel = some channel_id; selected_channel_name = some name } in
    if changed && channel_message_count s.state channel_id == 0
    then fetch_page answer channel_id t
    else t

unfoldable pub back_to_channels : GuiSession → GuiSession
back_to_channels s = record s {
  selected_channel = none;
  selected_channel_name = none;
  compose = [];
}

unfoldable pub back_to_servers : GuiSession → GuiSession
unfolding back_to_channels
back_to_servers s = record (back_to_channels s) { selected_guild = none; direct_mode = false }
