-- ===== src/History/Stall.antt =====
-- What paging back through src/history.rs comes to when the timeline of src/state.rs is full.
use diddycord.Base.{
  ℕ, ◌≤◌, ◌≡◌, ap, false, List, [], ◌∷◌, Option, none, some, Str, length, All, filter_map,
}
use diddycord.Events.{FrontendEvent, FrontendMessage, RestMessage, messages_fetched}
use diddycord.State.Cache.{FrontendState, timeline, messages, is_retired_channel, frontend_message}
use diddycord.State.Ops.{apply_rest}
use diddycord.State.Merge.{IsOlder, apply_history-full}
use diddycord.History.Pager.{oldest_message}

-- Where the timeline of a channel is full, a page of messages older than all of it leaves the
-- channel's timeline as it was, and the oldest cached message, before which the pager asks for the
-- next page.
pub older_page-stalls :
    (s : FrontendState) (request_id : ℕ) (id : Str) (page : List RestMessage)
    (first : FrontendEvent) (rest : List FrontendEvent)
    → is_retired_channel s id ≡ false
    → timeline s id ≡ first ∷ rest
    → s.max_messages_per_channel ≤ length (timeline s id)
    → All (IsOlder first rest) page
    → let t = apply_rest s (messages_fetched request_id id page) in
      (timeline t id ≡ timeline s id) × (oldest_message t id ≡ oldest_message s id)
unfolding apply_rest oldest_message messages
older_page-stalls s request_id id page first rest live shape full older =
    let same = apply_history-full s id page first rest live shape full older in
    (
      same,
      ap
          (λ events. elim (filter_map frontend_message events) as (λ _. Option FrontendMessage) [
            | [] ↦ none
            | m ∷ _ ↦ some m
          ])
          same,
    )
