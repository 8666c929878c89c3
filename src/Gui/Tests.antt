-- ===== src/Gui/Tests.antt =====
-- The graphical client of src/gui_app.rs with concrete input.
use mathlib.Core.Option
use diddycord.Base.{
  ◌≡◌, refl, true, false, not, [], ◌∷◌, none, some, Str, bytes, is_some, if◌then◌else◌, push_back,
  map, pos, negsuc, find, str_eq,
}
use diddycord.Base.Results.{ok}
use diddycord.Base.Trim.{trim}
use diddycord.Events.{FrontendChannel}
use diddycord.Topology.Cache
use diddycord.Topology.Cache.{CachedGuild, TopologyState}
use diddycord.Rest.Commands.{send_message}
use diddycord.Rest.Handle.{sent, next_request_id, fresh_handle}
use diddycord.Gateway.Control
use diddycord.Gateway.Control.{NetworkControl, default_intents}
use diddycord.Gui.Session.{GuiSession, Arrivals, started}
use diddycord.Gui.Rows.{channel_row, channel_rows}
use diddycord.Gui.Panels.{can_send, send_clicked}
use diddycord.Gui.Lists.{Actions}
use diddycord.Gui.App.{DiddycordApp, default, Login, FrameInput, desktop, mobile, update, drop}
use diddycord.Gui.Protocol.{Reachable, HasValid, reachable-HasValid}
use diddycord.Gui.Effects.{goes_out, send_clicked_lem}
use diddycord.Gui.Lifecycle.{update-is_stopped}

abbrev lobby : Str
lobby = bytes "11"

abbrev quiet : Arrivals
quiet = record { gateway_events = []; direct_events = []; rest_events = []; joined = none }

abbrev idle : Actions
idle = record {
  disconnect = false;
  back = false;
  direct_messages = false;
  guild = λ id. false;
  channel = λ id. false;
  thread = λ id. false;
  typed = λ text. text;
  send = false;
  fetch_answer = λ id. sent;
  send_answer = sent;
}

abbrev login : Login
login = record {
  typed = λ text. text;
  connect = true;
  accepts = λ header. true;
  builds = λ header. true;
  now = 0;
  spawned = ok tt;
}

abbrev first_frame : FrameInput
first_frame = record { arrivals = quiet; actions = idle; login = login }

reachable-HasValid_example :
    HasValid (update desktop first_frame (default (some (bytes " token ")))).app.session
reachable-HasValid_example =
    reachable-HasValid (Reachable.frame (Reachable.start (some (bytes " token "))) first_frame)

-- The white space is gone.
trimmed : trim (bytes " hi  ") ≡ bytes "hi"
unfolding trim
trimmed = refl

abbrev control : NetworkControl
control = Control.control (Control.new (record { token = []; intents = default_intents }) 8)

abbrev talking : GuiSession
talking = record (started control fresh_handle) {
  selected_guild = some (bytes "1");
  selected_channel = some lobby;
  selected_channel_name = some (bytes "lobby");
  compose = bytes " hello ";
}

send_clicked_lem_example :
    let t = send_clicked sent lobby talking in
    let out = goes_out sent lobby (trim (bytes " hello ")) in
    (t.rest.commands ≡ (
      if out
      then push_back talking.rest.commands (record {
        request_id = (next_request_id talking.rest.next_request_id).0;
        kind = send_message lobby (trim (bytes " hello "));
      })
      else talking.rest.commands))
    × (t.compose ≡ (if out then [] else bytes " hello "))
    × (is_some t.notice ≡ not out)
unfolding can_send started
send_clicked_lem_example = send_clicked_lem sent lobby talking refl

-- The message is queued.
hello_queued :
    (send_clicked sent lobby talking).rest.commands
    ≡ record { request_id = 1; kind = send_message lobby (bytes "hello") } ∷ []
unfolding send_clicked started
hello_queued = refl

abbrev connected : DiddycordApp
connected = record { token = []; session = some talking; connect_error = none }

abbrev last_frame : FrameInput
last_frame = record first_frame { actions = record idle { disconnect = true } }

update-is_stopped_example :
    let f = update mobile last_frame connected in
    let told : NetworkControl = record control { stopping = true } in
    (Option.map (λ t. t.control) f.app.session ≡ (if true then none else some control))
    × (f.released ≡ (if true then some told else none))
    × (f.app.token ≡ [])
    × (drop connected ≡ some told)
unfolding started
update-is_stopped_example = update-is_stopped mobile last_frame connected talking refl

abbrev general : FrontendChannel
general = record {
  id = bytes "11";
  name = some (bytes "general");
  kind = 0;
  position = pos 1;
  parent_id = none;
}

abbrev news : FrontendChannel
news = record general { id = bytes "12"; name = some (bytes "news"); position = negsuc 0 }

abbrev listed : GuiSession
listed = record talking {
  state = record talking.state {
    topology = record talking.state.topology {
      guilds =
          record {
            id = bytes "1";
            name = bytes "first";
            unavailable = false;
            channels = general ∷ news ∷ [];
            threads = [];
            touched = 0;
          }
          ∷ [];
    };
  };
}

-- The channel at the lesser position comes first.
news_first : channel_rows listed (bytes "1") ≡ channel_row news ∷ channel_row general ∷ []
unfolding channel_rows started find str_eq
news_first = refl
