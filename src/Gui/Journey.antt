-- ===== src/Gui/Journey.antt =====
-- A message on its way from the composer of src/gui_app.rs through the queue and the dispatcher of
-- src/rest.rs and back into the timeline that the panel shows.
mod Tests
use diddycord.Base.{List, [], none, Str, map}
use diddycord.Base.Trim.{trim}
use diddycord.Events.{RestEvent}
use diddycord.State.Drain
use diddycord.State.Drain.{received}
use diddycord.Direct.Cache as Direct
use diddycord.Rest.Commands.{RestCommand, send_message}
use diddycord.Rest.Handle.{next_request_id}
use diddycord.Rest.Dispatcher.{Dispatcher}
use diddycord.Gui.Session.{GuiSession, Arrivals}

-- What a frame finds that only events of the dispatcher have reached.
abbrev pub only_rest : List RestEvent → Arrivals
only_rest events = record {
  gateway_events = [];
  direct_events = [];
  rest_events = map received events;
  joined = none;
}

-- The command that a click on Send queues.
abbrev pub send_command : Str → GuiSession → RestCommand
send_command channel_id s = record {
  request_id = (next_request_id s.rest.next_request_id).0;
  kind = send_message channel_id (trim s.compose);
}
