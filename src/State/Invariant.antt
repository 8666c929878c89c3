-- ===== src/State/Invariant.antt =====
-- Every gateway event and every REST event keeps the invariant of src/state.rs.
use diddycord.Base.{true, List, Option, none, some, Str, str_eq_refl, any, if_cases}
use diddycord.Events.{
  FrontendEvent, FrontendMessage, FrontendMessageUpdate, FrontendMessageDelete, RestEvent,
  RestMessage, gateway_ready, gateway_resumed, message, message_update, message_delete,
  direct_channel_create, direct_channel_update, message_sent, message_edited, message_deleted,
  messages_fetched, failed,
}
use diddycord.Topology.Handlers
use diddycord.Topology.Ops
use diddycord.State.Cache.{FrontendState, is_retired_channel}
use diddycord.State.Retire.{invalidate_topology_timelines}
use diddycord.State.Timeline.{from_rest}
use diddycord.State.Ops.{
  advance, apply_message, apply_message_update, apply_message_delete, apply_rest_of, apply,
  apply_history, apply_rest, is_mergeable, edit_of,
}
use diddycord.State.Valid.{IsValid}
use diddycord.State.TimelineInvariant.{
  put_message-IsTimeline, update_message-IsTimeline, delete_message-IsTimeline,
  merge_history-IsTimeline,
}
use diddycord.State.RetireInvariant.{unretire-IsValid, invalidate-IsValid, restore-IsValid}
use diddycord.State.ChannelInvariant.{
  advance-IsValid, modify_channel-IsValid, upsert_channel-IsValid,
}

module _ (s : FrontendState) (v : IsValid s) where
  apply_message-IsValid : (m : FrontendMessage) → IsValid (apply_message s m)
  unfolding apply_message
  apply_message-IsValid m =
      if_cases IsValid (is_retired_channel s m.channel_id) (λ _. v)
        (λ live. upsert_channel-IsValid s m.channel_id _ live v (λ events h.
          put_message-IsTimeline s.max_messages_per_channel m.channel_id events h m v.message_limit
            (str_eq_refl m.channel_id)))

  apply_message_update-IsValid :
      (update : FrontendMessageUpdate) → IsValid (apply_message_update s update)
  unfolding apply_message_update
  apply_message_update-IsValid update =
      if_cases IsValid (is_retired_channel s update.channel_id) (λ _. v)
        (λ live.
          modify_channel-IsValid (advance s) update.channel_id _ _ (advance-IsValid s v)
            (λ events h.
              update_message-IsTimeline s.max_messages_per_channel update.channel_id events h
                update))

  apply_message_delete-IsValid :
      (delete : FrontendMessageDelete) → IsValid (apply_message_delete s delete)
  unfolding apply_message_delete
  apply_message_delete-IsValid delete =
      modify_channel-IsValid (advance s) delete.channel_id _ _ (advance-IsValid s v) (λ events h.
        delete_message-IsTimeline s.max_messages_per_channel delete.channel_id events h delete)

  ready-IsValid : IsValid (record s { gateway_ready = true })
  ready-IsValid = record {
    channel_limit = v.channel_limit;
    message_limit = v.message_limit;
    channel_room = v.channel_room;
    channel_ids = v.channel_ids;
    timelines = v.timelines;
    live = v.live;
    retired_room = v.retired_room;
    topology = v.topology;
  }

  apply_rest_of-IsValid : (event : FrontendEvent) → IsValid (apply_rest_of s event)
  unfolding apply_rest_of
  apply_rest_of-IsValid gateway_ready = ready-IsValid
  apply_rest_of-IsValid gateway_resumed = ready-IsValid
  apply_rest_of-IsValid (direct_channel_create channel) = unretire-IsValid s channel.id v
  apply_rest_of-IsValid (direct_channel_update channel) = unretire-IsValid s channel.id v
  apply_rest_of-IsValid (message m) = apply_message-IsValid m
  apply_rest_of-IsValid (message_update update) = apply_message_update-IsValid update
  apply_rest_of-IsValid (message_delete delete) = apply_message_delete-IsValid delete
  apply_rest_of-IsValid _ = v

  apply_history-IsValid :
      (id : Str) (messages : List RestMessage) → IsValid (apply_history s id messages)
  unfolding apply_history
  apply_history-IsValid id messages =
      if_cases IsValid (is_retired_channel s id) (λ _. v)
        (λ live.
          if_cases IsValid (any (is_mergeable id) messages)
            (λ _.
              upsert_channel-IsValid s id _ live v
                (merge_history-IsTimeline s.max_messages_per_channel id messages))
            (λ _. v))

topology-IsValid :
    (s : FrontendState) (event : FrontendEvent)
    → IsValid s
    → IsValid (record s { topology = (Ops.apply s.topology event).0 })
topology-IsValid s event v = record {
  channel_limit = v.channel_limit;
  message_limit = v.message_limit;
  channel_room = v.channel_room;
  channel_ids = v.channel_ids;
  timelines = v.timelines;
  live = v.live;
  retired_room = v.retired_room;
  topology = Handlers.apply-IsValid s.topology event v.topology;
}

-- Every gateway event keeps a valid state valid: at most `max_channels` timelines, one for each
-- channel, each with at most `max_messages_per_channel` events, all of them messages of that
-- channel with different ids; no timeline for a retired channel; at most max(max_channels, 8)
-- tombstones; and a valid topology.
pub apply_gateway-IsValid :
    (s : FrontendState) (event : FrontendEvent) → IsValid s → IsValid (apply s event)
unfolding apply
apply_gateway-IsValid s event v =
    let t = invalidate_topology_timelines s event in
    let u = topology-IsValid t event (invalidate-IsValid s event v) in
    if_cases IsValid (Ops.apply t.topology event).1 (λ _. restore-IsValid _ event u)
      (λ _. apply_rest_of-IsValid _ u event)

-- Every REST event, a page of history with any messages included, keeps a valid state valid: the
-- limits on timelines, messages and tombstones hold, messages have different ids within a timeline
-- and stand in their own channel's, no retired channel has a timeline, and the topology is valid.
pub apply_rest-IsValid :
    (s : FrontendState) (event : RestEvent) → IsValid s → IsValid (apply_rest s event)
unfolding apply_rest
apply_rest-IsValid s (message_sent request_id m) v = go m.author_username
  where
    go :
        (author : Option Str)
        → IsValid (elim author as (λ _. FrontendState) [
          | none ↦ s
          | some a ↦ apply s (message (from_rest m a))
        ])
    go none = v
    go (some a) = apply_gateway-IsValid s (message (from_rest m a)) v
apply_rest-IsValid s (message_edited request_id m) v = go m.author_username
  where
    go :
        (author : Option Str)
        → IsValid (elim author as (λ _. FrontendState) [
          | none ↦ apply s (message_update (edit_of m))
          | some a ↦ apply s (message (from_rest m a))
        ])
    go none = apply_gateway-IsValid s (message_update (edit_of m)) v
    go (some a) = apply_gateway-IsValid s (message (from_rest m a)) v
apply_rest-IsValid s (message_deleted request_id channel_id message_id) v =
    apply_gateway-IsValid s (message_delete (record { id = message_id; channel_id = channel_id })) v
apply_rest-IsValid s (messages_fetched request_id channel_id messages) v =
    apply_history-IsValid s v channel_id messages
apply_rest-IsValid s (failed failure) v = v
