-- ===== src/Gui/Delivery/Tests.antt =====
-- A direct message, with concrete input.
use diddycord.Base.{true, false, [], none, some, bytes}
use diddycord.Direct.Cache as Direct
use diddycord.Direct.Payloads.{DirectRecipient, direct_channel}
use diddycord.Rest.Handle.{fresh_handle}
use diddycord.Gateway.Payloads.{MessageCreate, MessageCreateAuthor}
use diddycord.Gateway.Connection.{Connection, CurrentUser, NetworkStatus}
use diddycord.Gateway.Control
use diddycord.Gateway.Control.{default_intents}
use diddycord.Gateway.Routing.{Readings}
use diddycord.Gui.Session.{GuiSession, started}

abbrev bot : CurrentUser
bot = record {
  id = bytes "1";
  username = bytes "bot";
  global_name = none;
  discriminator = none;
  avatar_hash = none;
  bot = true;
}

abbrev connection : Connection
connection = record {
  session = record { session_id = none; resume_gateway_url = none; seq = none };
  next_heartbeat = 41250;
  awaiting_heartbeat_ack = false;
  heartbeat_sent_at = none;
  stable = true;
  frames_since_yield = 0;
  status = NetworkStatus.ready;
  self_user = some bot;
  latency = none;
  heartbeats = [];
  broadcast = [];
}

abbrev ann : MessageCreateAuthor
ann = record { username = bytes "ann" }

abbrev ann_herself : DirectRecipient
ann_herself = record { id = bytes "2"; username = bytes "ann"; global_name = none; avatar = none }

abbrev hello : MessageCreate
hello = record {
  id = bytes "102";
  channel_id = bytes "31";
  content = some (bytes "hello");
  author = some ann;
}

abbrev readings : Readings
readings = record {
  ready_data = none;
  ready_identity = none;
  user = none;
  guild_create = none;
  guild_update = none;
  guild_delete = none;
  channel_change = none;
  direct_channel = none;
  channel_delete = none;
  direct_channel_delete = none;
  thread_change = none;
  thread_delete = none;
  thread_list_sync = none;
  discovery = some (record { channel_id = bytes "31"; guild_id = none; author = some ann_herself });
  message_create = some hello;
  message_update = none;
  message_delete = none;
  bulk_delete = none;
}

abbrev session : GuiSession
session =
    started (Control.control (Control.new (record { token = []; intents = default_intents }) 8))
      fresh_handle
