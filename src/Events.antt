-- ===== src/Events.antt =====
-- src/gateway/events.rs and src/gateway/direct.rs: the events that the gateway task broadcasts to
-- the frontend, and src/rest.rs: the events of the REST dispatcher. Texts are `Box<str>`; the
-- integer fields `kind` (u8) and `position` (i32) are only carried.
use diddycord.Base.{Str, ℕ, ℤ, Bool, Option, List}

pub record FrontendMessage : Type 0 where
  pub id : Str
  pub channel_id : Str
  pub author_username : Str
  pub content : Str

pub record FrontendMessageUpdate : Type 0 where
  pub id : Str
  pub channel_id : Str
  pub author_username : Option Str
  pub content : Option Str

pub record FrontendMessageDelete : Type 0 where
  pub id : Str
  pub channel_id : Str

pub record FrontendChannel : Type 0 where
  pub id : Str
  pub name : Option Str
  pub kind : ℕ
  pub position : ℤ
  pub parent_id : Option Str

pub record FrontendThread : Type 0 where
  pub id : Str
  pub guild_id : Str
  pub parent_id : Option Str
  pub name : Option Str
  pub kind : ℕ
  pub archived : Bool
  pub locked : Bool

pub record FrontendThreadDelete : Type 0 where
  pub id : Str
  pub guild_id : Str
  pub parent_id : Option Str

pub record FrontendThreadListSync : Type 0 where
  pub guild_id : Str
  pub parent_channel_ids : Option (List Str)
  pub threads : List FrontendThread

pub record FrontendGuildSnapshot : Type 0 where
  pub id : Str
  pub name : Str
  pub unavailable : Bool
  pub channels : List FrontendChannel

pub record FrontendGuildUpdate : Type 0 where
  pub id : Str
  pub name : Option Str
  pub unavailable : Option Bool

pub record FrontendGuildDelete : Type 0 where
  pub id : Str
  pub unavailable : Bool

pub record FrontendChannelChange : Type 0 where
  pub guild_id : Str
  pub channel : FrontendChannel

pub record FrontendChannelDelete : Type 0 where
  pub guild_id : Str
  pub channel_id : Str

pub record FrontendDirectChannel : Type 0 where
  pub id : Str
  pub recipient_id : Option Str
  pub recipient_username : Option Str
  pub recipient_global_name : Option Str
  pub recipient_avatar_hash : Option Str

pub record FrontendDirectChannelDelete : Type 0 where
  pub channel_id : Str

pub data FrontendEvent : Type 0 where
  gateway_ready : FrontendEvent
  gateway_resumed : FrontendEvent
  message : FrontendMessage → FrontendEvent
  message_update : FrontendMessageUpdate → FrontendEvent
  message_delete : FrontendMessageDelete → FrontendEvent
  guild_create : FrontendGuildSnapshot → FrontendEvent
  guild_update : FrontendGuildUpdate → FrontendEvent
  guild_delete : FrontendGuildDelete → FrontendEvent
  channel_create : FrontendChannelChange → FrontendEvent
  channel_update : FrontendChannelChange → FrontendEvent
  channel_delete : FrontendChannelDelete → FrontendEvent
  direct_channel_create : FrontendDirectChannel → FrontendEvent
  direct_channel_update : FrontendDirectChannel → FrontendEvent
  direct_channel_delete : FrontendDirectChannelDelete → FrontendEvent
  thread_create : FrontendThread → FrontendEvent
  thread_update : FrontendThread → FrontendEvent
  thread_delete : FrontendThreadDelete → FrontendEvent
  thread_list_sync : FrontendThreadListSync → FrontendEvent

pub data RestOperation : Type 0 where
  send_message edit_message delete_message fetch_messages : RestOperation

pub record RestMessage : Type 0 where
  pub id : Str
  pub channel_id : Str
  pub author_username : Option Str
  pub content : Str

pub record FailedRequest : Type 0 where
  pub request_id : ℕ
  pub operation : RestOperation
  pub status : Option ℕ
  pub retryable : Bool
  pub text : Str

-- The request id is a `u32`. The fields of `Failed` stand in a record.
pub data RestEvent : Type 0 where
  message_sent : ℕ → RestMessage → RestEvent
  message_edited : ℕ → RestMessage → RestEvent
  message_deleted : ℕ → (channel_id message_id : Str) → RestEvent
  messages_fetched : ℕ → (channel_id : Str) → List RestMessage → RestEvent
  failed : FailedRequest → RestEvent
