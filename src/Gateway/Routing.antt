-- ===== src/Gateway/Routing.antt =====
-- src/gateway/connection.rs: how the arm of `op` 0 finds the emit functions by the name of the
-- dispatch. What serde_json reads from the payload, by the type that it is asked for, is an argument.
use diddycord.Base.{
  Bool, true, false, if◌then◌else◌, List, ◌++◌, Option, none, some, Str, bytes, str_eq,
}
use diddycord.Events.{FrontendEvent}
use diddycord.Direct.Payloads.{
  DirectChannel, DirectChannelDelete, DirectMessageDiscovery, emit_direct_channel_change,
  emit_direct_channel_delete, emit_direct_message_discovery,
}
use diddycord.Gateway.Payloads.{
  BorrowedUser, ReadyIdentity, MessageCreate, MessageUpdate, MessageDelete, MessageBulkDelete,
  GuildCreate, GuildUpdate, GuildDelete, ChannelChange, ChannelDelete, ThreadChange, ThreadDelete,
  ThreadListSync, from_ready, from_user_update,
}
use diddycord.Gateway.Emits.{
  emit_message_create, emit_message_update, emit_message_delete, emit_message_delete_bulk,
  emit_guild_create, emit_guild_update, emit_guild_delete, emit_channel_change, emit_channel_delete,
  emit_thread_change, emit_thread_delete, emit_thread_list_sync,
}
use diddycord.Gateway.Connection.{
  CurrentUser, Ready, Dispatch, ready, resumed, user_update, topical, unknown, Connection,
  on_dispatch,
}

pub record ReadyData : Type 0 where
  pub session_id : Str
  pub resume_gateway_url : Str

-- What serde_json reads from one payload; `none` where it refuses.
pub record Readings : Type 0 where
  pub ready_data : Option ReadyData
  pub ready_identity : Option ReadyIdentity
  pub user : Option BorrowedUser
  pub guild_create : Option GuildCreate
  pub guild_update : Option GuildUpdate
  pub guild_delete : Option GuildDelete
  pub channel_change : Option ChannelChange
  pub direct_channel : Option DirectChannel
  pub channel_delete : Option ChannelDelete
  pub direct_channel_delete : Option DirectChannelDelete
  pub thread_change : Option ThreadChange
  pub thread_delete : Option ThreadDelete
  pub thread_list_sync : Option ThreadListSync
  pub discovery : Option DirectMessageDiscovery
  pub message_create : Option MessageCreate
  pub message_update : Option MessageUpdate
  pub message_delete : Option MessageDelete
  pub bulk_delete : Option MessageBulkDelete

-- The arms that call emit functions: what they send for a payload, `none` for a name that has no
-- arm. `self_user_id` is the id of the user that is signed in.
unfoldable pub route :
    (self_user_id : Option Str) → (name : Str) → Readings → Option (List FrontendEvent)
unfolding str_eq emit_message_create emit_message_update emit_message_delete
    emit_message_delete_bulk emit_guild_create emit_guild_update emit_guild_delete
    emit_channel_change emit_channel_delete emit_thread_change emit_thread_delete
    emit_thread_list_sync emit_direct_channel_change emit_direct_channel_delete
    emit_direct_message_discovery
route self_user_id name r =
    if str_eq name (bytes "GUILD_CREATE")
    then some (emit_guild_create r.guild_create)
    else if str_eq name (bytes "GUILD_UPDATE")
    then some (emit_guild_update r.guild_update)
    else if str_eq name (bytes "GUILD_DELETE")
    then some (emit_guild_delete r.guild_delete)
    else if str_eq name (bytes "CHANNEL_CREATE")
    then some (
        emit_channel_change r.channel_change false
        ++ emit_direct_channel_change r.direct_channel false)
    else if str_eq name (bytes "CHANNEL_UPDATE")
    then some (
        emit_channel_change r.channel_change true
        ++ emit_direct_channel_change r.direct_channel true)
    else if str_eq name (bytes "CHANNEL_DELETE")
    then some
        (emit_channel_delete r.channel_delete ++ emit_direct_channel_delete r.direct_channel_delete)
    else if str_eq name (bytes "THREAD_CREATE")
    then some (emit_thread_change r.thread_change false)
    else if str_eq name (bytes "THREAD_UPDATE")
    then some (emit_thread_change r.thread_change true)
    else if str_eq name (bytes "THREAD_DELETE")
    then some (emit_thread_delete r.thread_delete)
    else if str_eq name (bytes "THREAD_LIST_SYNC")
    then some (emit_thread_list_sync r.thread_list_sync)
    else if str_eq name (bytes "MESSAGE_CREATE")
    then some (
        emit_direct_message_discovery r.discovery self_user_id
        ++ emit_message_create r.message_create)
    else if str_eq name (bytes "MESSAGE_UPDATE")
    then some (emit_message_update r.message_update)
    else if str_eq name (bytes "MESSAGE_DELETE")
    then some (emit_message_delete r.message_delete)
    else if str_eq name (bytes "MESSAGE_DELETE_BULK")
    then some (emit_message_delete_bulk r.bulk_delete)
    else none

-- READY has its session, and its user if it is valid.
unfoldable pub read_ready : Option Readings → Option Ready
unfolding from_ready
read_ready none = none
read_ready (some r) = elim r.ready_data [
  | none ↦ none
  | some session ↦ some (record {
    session_id = session.session_id;
    resume_gateway_url = session.resume_gateway_url;
    user = from_ready r.ready_identity;
  })
]

unfoldable pub read_user : Option Readings → Option CurrentUser
unfolding from_user_update
read_user none = none
read_user (some r) = from_user_update r.user

-- A name that is routed, and the payload if there is one.
unfoldable pub routed : Option (List FrontendEvent) → Dispatch
routed none = unknown
routed (some events) = topical events

-- The name `t` and the payload `d` of an envelope.
unfoldable pub read_dispatch : Option Str → Option Str → Option Readings → Dispatch
unfolding read_ready read_user routed route
read_dispatch self_user_id none d = unknown
read_dispatch self_user_id (some name) d =
    if str_eq name (bytes "READY")
    then ready (read_ready d)
    else if str_eq name (bytes "RESUMED")
    then resumed
    else if str_eq name (bytes "USER_UPDATE")
    then user_update (read_user d)
    else elim d as (λ _. Dispatch) [ none ↦ unknown | some r ↦ routed (route self_user_id name r) ]

abbrev pub self_user_id : Connection → Option Str
self_user_id c = elim c.self_user [ none ↦ none | some user ↦ some user.id ]

-- The arm of `op` 0, from the envelope's name and payload.
unfoldable pub receive_dispatch : Bool → Option Str → Option Readings → Connection → Connection
unfolding read_dispatch on_dispatch
receive_dispatch has_receivers t d c =
    on_dispatch has_receivers (read_dispatch (self_user_id c) t d) c
