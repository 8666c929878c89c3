-- ===== src/State/Timeline.antt =====
-- src/state.rs: what `apply` and `apply_history` do to one `ChannelTimeline`.
use Prim.Native.Nat.{compare, Ordering}
use diddycord.Base.{
  ℕ, Bool, true, false, not, if◌then◌else◌, List, [], ◌∷◌, none, some, Str, str_eq, leb, ltb,
  length, push_back, pop_front, any, retain, unwrap_or,
}
use diddycord.Base.Search.{modify_last}
use diddycord.Base.Finds.{insert_before}
use diddycord.Base.Text.{str_cmp}
use diddycord.Events.{
  FrontendEvent, FrontendMessage, FrontendMessageUpdate, FrontendMessageDelete, RestMessage,
  message,
}
use diddycord.State.Cache.{frontend_message}

-- `frontend_message(cached).map(|m| m.id == id).unwrap_or(false)`.
unfoldable pub has_message : Str → FrontendEvent → Bool
unfolding frontend_message
has_message id event = elim (frontend_message event) [ none ↦ false | some m ↦ str_eq m.id id ]

-- A message event for the timeline: it replaces the last copy with its id, or is pushed behind the
-- others, the oldest making room at the limit.
unfoldable pub put_message : ℕ → FrontendMessage → List FrontendEvent → List FrontendEvent
unfolding any modify_last has_message
put_message limit m events =
    if any (has_message m.id) events
    then modify_last (has_message m.id) (λ _. message m) events
    else push_back (if leb limit (length events) then pop_front events else events) (message m)

-- The message with the fields that an update carries.
unfoldable pub replacement : FrontendMessageUpdate → FrontendMessage → FrontendMessage
replacement update existing = record {
  id = existing.id;
  channel_id = existing.channel_id;
  author_username = unwrap_or update.author_username existing.author_username;
  content = unwrap_or update.content existing.content;
}

unfoldable pub update_slot : FrontendMessageUpdate → FrontendEvent → FrontendEvent
unfolding frontend_message replacement
update_slot update slot = elim (frontend_message slot) [
  | none ↦ slot
  | some existing ↦ message (replacement update existing)
]

unfoldable pub update_message : FrontendMessageUpdate → List FrontendEvent → List FrontendEvent
unfolding modify_last has_message update_slot
update_message update = modify_last (has_message update.id) (update_slot update)

unfoldable pub delete_message : FrontendMessageDelete → List FrontendEvent → List FrontendEvent
unfolding retain has_message
delete_message delete = retain (λ event. not (has_message delete.id event))

-- Snowflakes compare by their lengths first, then by their digits.
unfoldable pub snowflake_cmp : Str → Str → Ordering
unfolding str_cmp
snowflake_cmp left right = elim (compare (length left) (length right)) [
  | Ordering.eq ↦ str_cmp left right
  | Ordering.lt ↦ Ordering.lt
  | Ordering.gt ↦ Ordering.gt
]

unfoldable pub snowflake_less : Str → Str → Bool
unfolding snowflake_cmp
snowflake_less left right = elim (snowflake_cmp left right) [ Ordering.lt ↦ true | _ ↦ false ]

-- `id` comes before the cached message.
unfoldable pub comes_before : Str → FrontendEvent → Bool
unfolding frontend_message snowflake_less
comes_before id event = elim (frontend_message event) [
  | none ↦ false
  | some m ↦ snowflake_less id m.id
]

-- The `FrontendMessage` of a REST message whose author is known.
unfoldable pub from_rest : RestMessage → Str → FrontendMessage
from_rest m author_username = record {
  id = m.id;
  channel_id = m.channel_id;
  author_username = author_username;
  content = m.content;
}

-- One round of the loop of `apply_history`, past its `continue`s for another channel and for no
-- author.
unfoldable pub merge_message : ℕ → FrontendMessage → List FrontendEvent → List FrontendEvent
unfolding any has_message insert_before comes_before
merge_message limit m events =
    if any (has_message m.id) events
    then events
    else let grown = insert_before (comes_before m.id) (message m) events in
      if ltb limit (length grown) then pop_front grown else grown

-- A round of the loop.
unfoldable pub merge_rest : ℕ → Str → RestMessage → List FrontendEvent → List FrontendEvent
unfolding merge_message from_rest
merge_rest limit channel_id m events =
    if str_eq m.channel_id channel_id
    then elim m.author_username [
      | none ↦ events
      | some author_username ↦ merge_message limit (from_rest m author_username) events
    ]
    else events

unfoldable pub merge_history : ℕ → Str → List RestMessage → List FrontendEvent → List FrontendEvent
unfolding merge_rest
merge_history limit channel_id [] events = events
merge_history limit channel_id (m ∷ ms) events =
    merge_history limit channel_id ms (merge_rest limit channel_id m events)
