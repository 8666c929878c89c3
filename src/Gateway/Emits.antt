-- ===== src/Gateway/Emits.antt =====
-- src/gateway/events.rs and src/gateway/bulk.rs: the emit functions. Each is the list of events that
-- it sends, for the payload that serde_json reads; `none` stands for a payload that it refuses.
use diddycord.Base.{
  Bool, false, not, ◌||◌, if◌then◌else◌, List, [], ◌∷◌, Option, none, some, Str, map, any,
  unwrap_or,
}
use diddycord.Events.{
  FrontendChannel, FrontendChannelChange, FrontendEvent, FrontendThread, message, message_update,
  message_delete, guild_create, guild_update, guild_delete, channel_create, channel_update,
  channel_delete, thread_create, thread_update, thread_delete, thread_list_sync,
}
use diddycord.Snowflake.{is_snowflake}
use diddycord.Gateway.Payloads.{
  MessageCreate, MessageUpdate, MessageUpdateAuthor, MessageDelete, GuildChannel, GuildThread,
  GuildCreate, GuildUpdate, GuildDelete, ChannelChange, ChannelDelete, ThreadChange, ThreadDelete,
  ThreadListSync, ThreadMetadata, MessageBulkDelete, deserialize_bulk_ids,
}

unfoldable pub emit_message_create : Option MessageCreate → List FrontendEvent
emit_message_create none = []
emit_message_create (some m) = elim m.author [
  | none ↦ []
  | some author ↦
      message (record {
        id = m.id;
        channel_id = m.channel_id;
        author_username = author.username;
        content = unwrap_or m.content [];
      })
      ∷ []
]

abbrev username_of : Option MessageUpdateAuthor → Option Str
username_of none = none
username_of (some author) = author.username

unfoldable pub emit_message_update : Option MessageUpdate → List FrontendEvent
emit_message_update none = []
emit_message_update (some m) =
    message_update (record {
      id = m.id;
      channel_id = m.channel_id;
      author_username = username_of m.author;
      content = m.content;
    })
    ∷ []

unfoldable pub emit_message_delete : Option MessageDelete → List FrontendEvent
emit_message_delete none = []
emit_message_delete (some m) = message_delete (record { id = m.id; channel_id = m.channel_id }) ∷ []

unfoldable pub frontend_channel : GuildChannel → FrontendChannel
frontend_channel c = record {
  id = c.id;
  name = c.name;
  kind = c.kind;
  position = c.position;
  parent_id = c.parent_id;
}

abbrev pub no_metadata : ThreadMetadata
no_metadata = record { archived = false; locked = false }

unfoldable pub frontend_guild_thread : Str → GuildThread → FrontendThread
frontend_guild_thread guild_id t =
    let metadata = unwrap_or t.thread_metadata no_metadata in
    record {
      id = t.id;
      guild_id = guild_id;
      parent_id = t.parent_id;
      name = t.name;
      kind = t.kind;
      archived = metadata.archived;
      locked = metadata.locked;
    }

unfoldable pub frontend_thread : ThreadChange → FrontendThread
frontend_thread t =
    let metadata = unwrap_or t.thread_metadata no_metadata in
    record {
      id = t.id;
      guild_id = t.guild_id;
      parent_id = t.parent_id;
      name = t.name;
      kind = t.kind;
      archived = metadata.archived;
      locked = metadata.locked;
    }

-- The snapshot, and the threads of an available guild as a sync of the whole guild.
unfoldable pub emit_guild_create : Option GuildCreate → List FrontendEvent
unfolding frontend_channel frontend_guild_thread
emit_guild_create none = []
emit_guild_create (some g) =
    guild_create (record {
      id = g.id;
      name = g.name;
      unavailable = g.unavailable;
      channels = map frontend_channel g.channels;
    })
    ∷ (if not g.unavailable
        then thread_list_sync (record {
          guild_id = g.id;
          parent_channel_ids = none;
          threads = map (frontend_guild_thread g.id) g.threads;
        })
          ∷ []
        else [])

unfoldable pub emit_guild_update : Option GuildUpdate → List FrontendEvent
emit_guild_update none = []
emit_guild_update (some g) =
    guild_update (record { id = g.id; name = g.name; unavailable = g.unavailable }) ∷ []

unfoldable pub emit_guild_delete : Option GuildDelete → List FrontendEvent
emit_guild_delete none = []
emit_guild_delete (some g) = guild_delete (record { id = g.id; unavailable = g.unavailable }) ∷ []

unfoldable pub emit_channel_change : Option ChannelChange → Bool → List FrontendEvent
emit_channel_change none update = []
emit_channel_change (some c) update =
    let event : FrontendChannelChange = record {
      guild_id = c.guild_id;
      channel = record {
        id = c.id;
        name = c.name;
        kind = c.kind;
        position = c.position;
        parent_id = c.parent_id;
      };
    } in
    (if update then channel_update event else channel_create event) ∷ []

unfoldable pub emit_channel_delete : Option ChannelDelete → List FrontendEvent
emit_channel_delete none = []
emit_channel_delete (some c) =
    channel_delete (record { guild_id = c.guild_id; channel_id = c.id }) ∷ []

unfoldable pub emit_thread_change : Option ThreadChange → Bool → List FrontendEvent
unfolding frontend_thread
emit_thread_change none update = []
emit_thread_change (some t) update =
    (if update then thread_update (frontend_thread t) else thread_create (frontend_thread t)) ∷ []

unfoldable pub emit_thread_delete : Option ThreadDelete → List FrontendEvent
emit_thread_delete none = []
emit_thread_delete (some t) =
    thread_delete (record { id = t.id; guild_id = t.guild_id; parent_id = t.parent_id }) ∷ []

unfoldable pub emit_thread_list_sync : Option ThreadListSync → List FrontendEvent
unfolding frontend_thread
emit_thread_list_sync none = []
emit_thread_list_sync (some sync) =
    thread_list_sync (record {
      guild_id = sync.guild_id;
      parent_channel_ids = sync.channel_ids;
      threads = map frontend_thread sync.threads;
    })
    ∷ []

-- The loop over the ids of `emit_message_delete_bulk`, once they are found to be snowflakes.
abbrev pub delete_all : Str → List Str → List FrontendEvent
delete_all channel_id = map (λ id. message_delete (record { id = id; channel_id = channel_id }))

unfoldable pub emit_message_delete_bulk : Option MessageBulkDelete → List FrontendEvent
unfolding is_snowflake any deserialize_bulk_ids
emit_message_delete_bulk none = []
emit_message_delete_bulk (some d) = elim (deserialize_bulk_ids d.ids) [
  | none ↦ []
  | some ids ↦
      if not (is_snowflake d.channel_id) || any (λ id. not (is_snowflake id)) ids
      then []
      else delete_all d.channel_id ids
]
