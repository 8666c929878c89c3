-- ===== src/State/Merge.antt =====
-- What a page of history does to the timeline of its channel, in src/state.rs.
use diddycord.Base.{
  ℕ, ◌≤◌, ◌≡◌, refl, sym, ap, ◌∙◌, true, false, List, [], ◌∷◌, Option, none, some, Str, str_eq,
  arith, length, All, any, if_cases, is_some, if◌then◌else◌, ◌&&◌,
}
use diddycord.Base.Finds.{insert_before}
use diddycord.Events.{FrontendEvent, FrontendMessage, RestMessage}
use diddycord.State.Cache.{FrontendState, timeline, is_retired_channel}
use diddycord.State.Timeline.{
  has_message, comes_before, from_rest, merge_message, merge_rest, merge_history,
}
use diddycord.State.Ops.{advance, is_mergeable, apply_history}
use diddycord.State.Reads.{timeline-upsert_channel, timeline-advance}

merge_rest_absent :
    (limit : ℕ) (id : Str) (m : RestMessage) (events : List FrontendEvent)
    → is_mergeable id m ≡ false
    → merge_rest limit id m events ≡ events
unfolding merge_rest
merge_rest_absent limit id m events h = go m.author_username h
  where
    go :
        (author : Option Str)
        → (str_eq m.channel_id id && is_some author) ≡ false
        → (if str_eq m.channel_id id
            then elim author as (λ _. List FrontendEvent) [
              | none ↦ events
              | some a ↦ merge_message limit (from_rest m a) events
            ]
            else events)
          ≡ events
    go none h =
        if_cases (λ (t : List FrontendEvent). t ≡ events) (str_eq m.channel_id id) (λ _. refl)
          (λ _. refl)
    go (some a) h =
        if_cases (λ (t : List FrontendEvent). t ≡ events) (str_eq m.channel_id id)
          (λ own. absurd (ground (arith, h, own))) (λ _. refl)

merge_history_absent :
    (limit : ℕ) (id : Str) (ms : List RestMessage) (events : List FrontendEvent)
    → any (is_mergeable id) ms ≡ false
    → merge_history limit id ms events ≡ events
unfolding merge_history any
merge_history_absent limit id [] events h = refl
merge_history_absent limit id (m ∷ ms) events h =
    merge_history_absent limit id ms (merge_rest limit id m events) (ground (arith, h))
    ∙ merge_rest_absent limit id m events (ground (arith, h))

-- A page of history for a live channel is merged into the channel's timeline message by message,
-- also where nothing of the page can be merged.
pub apply_history-timeline :
    (s : FrontendState) (id : Str) (ms : List RestMessage)
    → is_retired_channel s id ≡ false
    → timeline (apply_history s id ms) id
      ≡ merge_history s.max_messages_per_channel id ms (timeline s id)
unfolding apply_history
apply_history-timeline s id ms live =
    let limit = s.max_messages_per_channel in
    let P = λ (t : FrontendState). timeline t id ≡ merge_history limit id ms (timeline s id) in
    if_cases P (is_retired_channel s id) (λ retired. cc)
      (λ _.
        if_cases P (any (is_mergeable id) ms)
          (λ _.
            timeline-upsert_channel (advance s) id (advance s).clock (merge_history limit id ms)
            ∙ ap (merge_history limit id ms) (timeline-advance s id))
          (λ nothing. sym (merge_history_absent limit id ms (timeline s id) nothing)))

-- The message is not in the timeline, and it is older than the event `first`.
abbrev pub IsOlder : FrontendEvent → List FrontendEvent → RestMessage → Type 0
IsOlder first rest m =
    (any (has_message m.id) (first ∷ rest) ≡ false) × (comes_before m.id first ≡ true)

older_dropped :
    (limit : ℕ) (m : FrontendMessage) (first : FrontendEvent) (rest : List FrontendEvent)
    → limit ≤ length (first ∷ rest)
    → any (has_message m.id) (first ∷ rest) ≡ false
    → comes_before m.id first ≡ true
    → merge_message limit m (first ∷ rest) ≡ first ∷ rest
unfolding merge_message insert_before any
older_dropped limit m first rest full new older = ground (arith, full, new, older)

merge_rest_older :
    (limit : ℕ) (id : Str) (m : RestMessage) (first : FrontendEvent) (rest : List FrontendEvent)
    → limit ≤ length (first ∷ rest)
    → IsOlder first rest m
    → merge_rest limit id m (first ∷ rest) ≡ first ∷ rest
unfolding merge_rest from_rest
merge_rest_older limit id m first rest full (new, older) = go m.author_username
  where
    go :
        (author : Option Str)
        → (if str_eq m.channel_id id
            then elim author as (λ _. List FrontendEvent) [
              | none ↦ first ∷ rest
              | some a ↦ merge_message limit (from_rest m a) (first ∷ rest)
            ]
            else first ∷ rest)
          ≡ first ∷ rest
    go none =
        if_cases (λ (t : List FrontendEvent). t ≡ first ∷ rest) (str_eq m.channel_id id) (λ _. refl)
          (λ _. refl)
    go (some a) =
        if_cases (λ (t : List FrontendEvent). t ≡ first ∷ rest) (str_eq m.channel_id id)
          (λ own. older_dropped limit (from_rest m a) first rest full new older) (λ _. refl)

merge_history_older :
    (limit : ℕ) (id : Str) (ms : List RestMessage) (first : FrontendEvent)
    (rest : List FrontendEvent)
    → limit ≤ length (first ∷ rest)
    → All (IsOlder first rest) ms
    → merge_history limit id ms (first ∷ rest) ≡ first ∷ rest
unfolding merge_history
merge_history_older limit id [] first rest full older = refl
merge_history_older limit id (m ∷ ms) first rest full (h, older) =
    ap (merge_history limit id ms) (merge_rest_older limit id m first rest full h)
    ∙ merge_history_older limit id ms first rest full older

-- A page of messages that are all older than everything in a full timeline leaves it as it was:
-- each of them is inserted in front and dropped again at once.
pub apply_history-full :
    (s : FrontendState) (id : Str) (ms : List RestMessage) (first : FrontendEvent)
    (rest : List FrontendEvent)
    → is_retired_channel s id ≡ false
    → timeline s id ≡ first ∷ rest
    → s.max_messages_per_channel ≤ length (timeline s id)
    → All (IsOlder first rest) ms
    → timeline (apply_history s id ms) id ≡ timeline s id
apply_history-full s id ms first rest live shape full older =
    apply_history-timeline s id ms live
    ∙ ap (merge_history s.max_messages_per_channel id ms) shape
    ∙ merge_history_older s.max_messages_per_channel id ms first rest
        (omega (arith, full, ap length shape)) older
    ∙ sym shape
