-- ===== src/Direct/Payloads.antt =====
-- src/gateway/direct.rs and src/gateway/connection.rs: the events that the payloads of a channel
-- and of a message become. What serde_json reads from the payload is the argument; `none` stands for
-- a payload that it refuses.
use diddycord.Base.{
  ℕ, Bool, not, ◌&&◌, ◌||◌, ◌==◌, if◌then◌else◌, List, [], ◌∷◌, Option, none, some, Str, str_eq,
  is_some,
}
use diddycord.Events.{
  FrontendDirectChannel, FrontendEvent, direct_channel_create, direct_channel_update,
  direct_channel_delete,
}
use diddycord.Snowflake.{is_snowflake, is_empty}

abbrev pub dm_channel_kind : ℕ
dm_channel_kind = 1

pub record DirectRecipient : Type 0 where
  pub id : Str
  pub username : Str
  pub global_name : Option Str
  pub avatar : Option Str

-- The first recipient only: `deserialize_first_recipient` skips the others.
pub record DirectChannel : Type 0 where
  pub id : Str
  pub guild_id : Option Str
  pub kind : ℕ
  pub recipient : Option DirectRecipient

pub record DirectChannelDelete : Type 0 where
  pub id : Str
  pub guild_id : Option Str

pub record DirectMessageDiscovery : Type 0 where
  pub channel_id : Str
  pub guild_id : Option Str
  pub author : Option DirectRecipient

-- A channel with the recipient's fields, or with none of them.
unfoldable pub direct_channel : Str → Option DirectRecipient → FrontendDirectChannel
direct_channel id none = record {
  id = id;
  recipient_id = none;
  recipient_username = none;
  recipient_global_name = none;
  recipient_avatar_hash = none;
}
direct_channel id (some r) = record {
  id = id;
  recipient_id = some r.id;
  recipient_username = some r.username;
  recipient_global_name = r.global_name;
  recipient_avatar_hash = r.avatar;
}

-- `recipient.filter(..)`.
unfoldable pub usable_recipient : Option DirectRecipient → Option DirectRecipient
unfolding is_snowflake
usable_recipient none = none
usable_recipient (some r) = if is_snowflake r.id && not (is_empty r.username) then some r else none

-- The events that the function emits: at most one.
unfoldable pub emit_direct_channel_change : Option DirectChannel → Bool → List FrontendEvent
unfolding is_snowflake direct_channel usable_recipient
emit_direct_channel_change none update = []
emit_direct_channel_change (some c) update =
    let event = direct_channel c.id (usable_recipient c.recipient) in
    if is_some c.guild_id || not (c.kind == dm_channel_kind) || not (is_snowflake c.id)
    then []
    else (if update then direct_channel_update event else direct_channel_create event) ∷ []

unfoldable pub emit_direct_channel_delete : Option DirectChannelDelete → List FrontendEvent
unfolding is_snowflake
emit_direct_channel_delete none = []
emit_direct_channel_delete (some c) =
    if is_some c.guild_id || not (is_snowflake c.id)
    then []
    else direct_channel_delete (record { channel_id = c.id }) ∷ []

-- The author is a stranger with a usable name: neither the user nor malformed.
unfoldable pub is_correspondent : Str → DirectRecipient → Bool
unfolding is_snowflake str_eq
is_correspondent self_user_id author =
    not (str_eq author.id self_user_id || not (is_snowflake author.id) || is_empty author.username)

unfoldable pub emit_direct_message_discovery :
    Option DirectMessageDiscovery → Option Str → List FrontendEvent
unfolding is_snowflake direct_channel is_correspondent
emit_direct_message_discovery none self_user_id = []
emit_direct_message_discovery (some m) self_user_id =
    if is_some m.guild_id || not (is_snowflake m.channel_id) then [] else elim self_user_id [
      | none ↦ []
      | some me ↦ elim m.author [
        | none ↦ []
        | some author ↦
            if is_correspondent me author
            then direct_channel_update (direct_channel m.channel_id (some author)) ∷ []
            else []
      ]
    ]
