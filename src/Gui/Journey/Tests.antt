-- ===== src/Gui/Journey/Tests.antt =====
-- The journey of one message, with concrete input.
use diddycord.Base.{ℕ, Option, List, [], ◌∷◌, none, some, Str, bytes}
use diddycord.Base.Results.{ok}
use diddycord.Events.{RestMessage}
use diddycord.Rest.Handle.{fresh_handle}
use diddycord.Gateway.Control
use diddycord.Gateway.Control.{NetworkControl, default_intents}
use diddycord.Gui.Session.{GuiSession, started}
use diddycord.Rest.Responses.{ApiMessage, ApiError, HttpResponse}
use diddycord.Rest.Dispatcher.{Dispatcher, Try}

abbrev lobby : Str
lobby = bytes "11"

abbrev control : NetworkControl
control = Control.control (Control.new (record { token = []; intents = default_intents }) 8)

abbrev talking : GuiSession
talking = record (started control fresh_handle) {
  selected_guild = some (bytes "1");
  selected_channel = some lobby;
  selected_channel_name = some (bytes "lobby");
  compose = bytes " hello ";
}

-- The server's message, and a reader of bodies that finds it.
abbrev stored : ApiMessage
stored = record {
  id = bytes "99";
  channel_id = lobby;
  content = some (bytes "hello");
  author = some (record { username = some (bytes "bot") });
}

abbrev read_message : Str → Option ApiMessage
read_message body = some stored

abbrev read_messages : Str → Option (List ApiMessage)
read_messages body = none

abbrev read_error : Str → Option (ApiError ℕ)
read_error body = none

abbrev created : HttpResponse
created = record { status = 200; retry_after = none; exhausted_reset = none; body = bytes "{}" }

-- A transport that creates the message within 20 ms.
abbrev creates : ℕ → Try
creates n = record {
  elapsed = 20;
  answer = ok (record {
    status = 200;
    headers = λ name. none;
    content_length = some 2;
    chunks = ok (bytes "{}") ∷ [];
  });
}

abbrev returned : RestMessage
returned = record {
  id = bytes "99";
  channel_id = lobby;
  author_username = some (bytes "bot");
  content = bytes "hello";
}

abbrev limited_until : Dispatcher
limited_until = record { now = 1000; rate_limit_until = some 1500 }
