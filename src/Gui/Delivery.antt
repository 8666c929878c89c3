-- ===== src/Gui/Delivery.antt =====
-- A direct message on its way from the gateway of src/gateway/connection.rs into what a frame of
-- src/gui_app.rs shows.
mod Tests
use diddycord.Base.{◌≡◌, true, List, [], ◌∷◌, none, some, map, unwrap_or}
use diddycord.Events.{FrontendEvent, FrontendMessage, message, direct_channel_update}
use diddycord.Snowflake.{is_snowflake}
use diddycord.State.Drain
use diddycord.State.Drain.{received}
use diddycord.Direct.Cache as Direct
use diddycord.Direct.Payloads.{DirectRecipient, direct_channel, is_correspondent}
use diddycord.Gateway.Payloads.{MessageCreate, MessageCreateAuthor}
use diddycord.Gateway.Connection.{Connection, CurrentUser}
use diddycord.Gateway.Routing.{Readings}
use diddycord.Gui.Session.{Arrivals}

-- What a frame finds that events of the gateway have reached, at both of its receivers.
abbrev pub only_gateway : List FrontendEvent → Arrivals
only_gateway events = record {
  gateway_events = map received events;
  direct_events = map received events;
  rest_events = [];
  joined = none;
}

-- The message that the frontend keeps.
abbrev pub delivered : MessageCreate → MessageCreateAuthor → FrontendMessage
delivered m author = record {
  id = m.id;
  channel_id = m.channel_id;
  author_username = author.username;
  content = unwrap_or m.content [];
}

-- A payload of a direct message, by someone else than the user who is signed in.
pub record IsDirect (c : Connection) (r : Readings) (m : MessageCreate)
    (author : MessageCreateAuthor) (other : DirectRecipient) : Type 0 where
  pub me : CurrentUser
  pub signed_in : c.self_user ≡ some me
  pub reads : r.message_create ≡ some m
  pub has_author : m.author ≡ some author
  pub discovers :
      r.discovery
      ≡ some (record { channel_id = m.channel_id; guild_id = none; author = some other })
  pub channel : is_snowflake m.channel_id ≡ true
  pub correspondent : is_correspondent me.id other ≡ true

-- What is broadcast for it: the channel, then the message.
abbrev pub deliveries : MessageCreate → MessageCreateAuthor → DirectRecipient → List FrontendEvent
deliveries m author other =
    direct_channel_update (direct_channel m.channel_id (some other))
    ∷ message (delivered m author)
    ∷ []
