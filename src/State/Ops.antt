-- ===== src/State/Ops.antt =====
-- src/state.rs: `apply`, `apply_rest`, `apply_history`, the drains and the eviction.
use Prim.Native.Nat.{min}
use diddycord.Base.{
  ℕ, Bool, true, ◌&&◌, if◌then◌else◌, List, [], ◌∷◌, Option, none, some, Str, str_eq, leb, ◌==◌,
  length, push_back, any, modify_first, has, sat_add, is_some,
}
use diddycord.Base.Finds.{drop_first}
use diddycord.Events.{
  FrontendEvent, FrontendMessage, FrontendMessageUpdate, FrontendMessageDelete, RestEvent,
  RestMessage, gateway_ready, gateway_resumed, message, message_update, message_delete,
  direct_channel_create, direct_channel_update, message_sent, message_edited, message_deleted,
  messages_fetched, failed,
}
use diddycord.Topology.Ops
use diddycord.State.Cache.{FrontendState, Entry, entry_key, empty_timeline, is_retired_channel}
use diddycord.State.Retire.{
  invalidate_topology_timelines, restore_topology_timelines, unretire_channel,
}
use diddycord.State.Timeline.{put_message, update_message, delete_message, merge_history, from_rest}

-- The smallest stamp of the map.
unfoldable pub min_touched : List Entry → Option ℕ
min_touched [] = none
min_touched (e ∷ es) = elim (min_touched es) [
  | none ↦ some e.1.touched
  | some oldest ↦ some (min e.1.touched oldest)
]

-- `retain` with its flag `removed`: the first entry with the smallest stamp goes.
unfoldable pub evict_least_recently_used_channel : FrontendState → FrontendState
unfolding min_touched drop_first
evict_least_recently_used_channel s = elim (min_touched s.channels) [
  | none ↦ s
  | some oldest ↦ record s {
    channels = drop_first (λ (e : Entry). e.1.touched == oldest) s.channels;
  }
]

-- The timeline of the channel exists afterwards; a full cache loses its least recently used one.
unfoldable pub ensure_channel : FrontendState → Str → ℕ → FrontendState
unfolding any evict_least_recently_used_channel empty_timeline
ensure_channel s channel_id touched =
    if any (has entry_key channel_id) s.channels
    then s
    else let room =
        if leb s.max_channels (length s.channels) then evict_least_recently_used_channel s else s in
      record room { channels = push_back room.channels (channel_id, empty_timeline touched) }

abbrev pub write_entry : ℕ → (List FrontendEvent → List FrontendEvent) → Entry → Entry
write_entry touched f e = (e.0, record { messages = f e.1.messages; touched = touched })

-- Writes through `get_mut(channel_id)`: the stamp, and a new list of events.
unfoldable pub modify_channel :
    FrontendState → Str → ℕ → (List FrontendEvent → List FrontendEvent) → FrontendState
unfolding modify_first
modify_channel s channel_id touched f = record s {
  channels = modify_first (has entry_key channel_id) (write_entry touched f) s.channels;
}

abbrev pub advance : FrontendState → FrontendState
advance s = record s { clock = sat_add s.clock 1 }

-- The arm `Message`.
unfoldable pub apply_message : FrontendState → FrontendMessage → FrontendState
unfolding is_retired_channel ensure_channel modify_channel put_message
apply_message s m =
    if is_retired_channel s m.channel_id
    then s
    else let t = advance s in
      modify_channel (ensure_channel t m.channel_id t.clock) m.channel_id t.clock
        (put_message s.max_messages_per_channel m)

-- The arm `MessageUpdate`.
unfoldable pub apply_message_update : FrontendState → FrontendMessageUpdate → FrontendState
unfolding is_retired_channel modify_channel update_message
apply_message_update s update =
    if is_retired_channel s update.channel_id
    then s
    else let t = advance s in modify_channel t update.channel_id t.clock (update_message update)

-- The arm `MessageDelete`.
unfoldable pub apply_message_delete : FrontendState → FrontendMessageDelete → FrontendState
unfolding modify_channel delete_message
apply_message_delete s delete =
    let t = advance s in modify_channel t delete.channel_id t.clock (delete_message delete)

-- The `match` of `apply`, for the events that the topology does not take.
unfoldable pub apply_rest_of : FrontendState → FrontendEvent → FrontendState
unfolding unretire_channel apply_message apply_message_update apply_message_delete
apply_rest_of s gateway_ready = record s { gateway_ready = true }
apply_rest_of s gateway_resumed = record s { gateway_ready = true }
apply_rest_of s (direct_channel_create channel) = unretire_channel s channel.id
apply_rest_of s (direct_channel_update channel) = unretire_channel s channel.id
apply_rest_of s (message m) = apply_message s m
apply_rest_of s (message_update update) = apply_message_update s update
apply_rest_of s (message_delete delete) = apply_message_delete s delete
apply_rest_of s _ = s

unfoldable pub apply : FrontendState → FrontendEvent → FrontendState
unfolding invalidate_topology_timelines restore_topology_timelines apply_rest_of Ops.apply
apply s event =
    let t = invalidate_topology_timelines s event in
    let r = Ops.apply t.topology event in
    let u = record t { topology = r.0 } in
    if r.1 then restore_topology_timelines u event else apply_rest_of u event

abbrev pub is_mergeable : Str → RestMessage → Bool
is_mergeable channel_id m = str_eq m.channel_id channel_id && is_some m.author_username

unfoldable pub apply_history : FrontendState → Str → List RestMessage → FrontendState
unfolding is_retired_channel any ensure_channel modify_channel merge_history
apply_history s channel_id messages =
    let t = advance s in
    let merged =
      modify_channel (ensure_channel t channel_id t.clock) channel_id t.clock
        (merge_history s.max_messages_per_channel channel_id messages) in
    if is_retired_channel s channel_id
    then s
    else if any (is_mergeable channel_id) messages
    then merged
    else s

abbrev pub edit_of : RestMessage → FrontendMessageUpdate
edit_of m = record {
  id = m.id;
  channel_id = m.channel_id;
  author_username = none;
  content = some m.content;
}

unfoldable pub apply_rest : FrontendState → RestEvent → FrontendState
unfolding apply apply_history from_rest
apply_rest s (message_sent request_id m) = elim m.author_username [
  | none ↦ s
  | some author_username ↦ apply s (message (from_rest m author_username))
]
apply_rest s (message_edited request_id m) = elim m.author_username [
  | none ↦ apply s (message_update (edit_of m))
  | some author_username ↦ apply s (message (from_rest m author_username))
]
apply_rest s (message_deleted request_id channel_id message_id) =
    apply s (message_delete (record { id = message_id; channel_id = channel_id }))
apply_rest s (messages_fetched request_id channel_id messages) = apply_history s channel_id messages
apply_rest s (failed failure) = s
