-- ===== src/State/Sends.antt =====
-- What the answer to a send does to the messages that src/state.rs shows of a channel.
use mathlib.Core.List.{filter_map}
use mathlib.Core.Option
use diddycord.Base.{
  ℕ, ◌≡◌, ap, ◌∙◌, inl, inr, Bool, true, false, List, [], ◌∷◌, some, Str, str_eq, str_eq_refl,
  arith, leb, length, any, find, push_back, pop_front, if_cases, Bool-cases,
}
use diddycord.Base.Finds.{find-push_back}
use diddycord.Events.{FrontendEvent, FrontendMessage, RestMessage, message, message_sent}
use diddycord.State.Cache.{FrontendState, frontend_message, is_retired_channel, messages, timeline}
use diddycord.State.Timeline.{has_message, put_message, from_rest}
use diddycord.State.Ops.{apply, apply_rest}
use diddycord.State.Messages.{apply_message-timeline}
use diddycord.State.Valid.{IsValid}
use diddycord.State.Updates.{AtMostOnce, find-modify_last, valid-AtMostOnce}

-- The message has the id.
abbrev pub is_message : Str → FrontendMessage → Bool
is_message id m = str_eq m.id id

-- A search among the messages that are shown.
find-messages :
    (id : Str) (events : List FrontendEvent) (m : FrontendMessage)
    → find (has_message id) events ≡ some (message m)
    → find (is_message id) (filter_map frontend_message events) ≡ some m
unfolding find filter_map has_message frontend_message
find-messages id [] m h = cc
find-messages id (message n ∷ events) m h = ground (arith, h, find-messages id events m)
find-messages id (_ ∷ events) m h = find-messages id events m h

any-pop_front {ℓ} :
    {A : Type ℓ} (p : A → Bool) (xs : List A) → any p xs ≡ false → any p (pop_front xs) ≡ false
unfolding any
any-pop_front p [] h = h
any-pop_front p (x ∷ xs) h = ground (arith, h)

pub any-find {ℓ} :
    {A : Type ℓ} (p : A → Bool) (xs : List A) → any p xs ≡ true → (x : A) × (find p xs ≡ some x)
unfolding any find
any-find p [] h = cc
any-find p (x ∷ xs) h = elim (Bool-cases (p x)) [
  | inl here ↦ (x, ground (arith, here))
  | inr other ↦
      let (y, e) = any-find p xs (ground (arith, h, other)) in (y, ground (arith, other, e))
]

-- A message that is put is found.
find-put_message :
    (limit : ℕ) (m : FrontendMessage) (events : List FrontendEvent)
    → AtMostOnce (has_message m.id) events
    → find (has_message m.id) (put_message limit m events) ≡ some (message m)
unfolding put_message
find-put_message limit m events once =
    let p = has_message m.id in
    let own : p (message m) ≡ true = str_eq_refl m.id in
    elim (Bool-cases (any p events)) [
      | inl known ↦
          let (old, e) = any-find p events known in
          rw known (
            find-modify_last p (λ _. message m) events (λ _ _. own) once
            ∙ ap (Option.map (λ _. message m)) e)
      | inr absent ↦ rw absent (
          if_cases (λ room. find p (push_back room (message m)) ≡ some (message m))
            (leb limit (length events))
            (λ _.
              find-push_back p (message m) (pop_front events) own (any-pop_front p events absent))
            (λ _. find-push_back p (message m) events own absent))
    ]

-- After a message of a live channel, the channel shows it.
pub apply_message-messages :
    (s : FrontendState) (n : FrontendMessage)
    → IsValid s
    → is_retired_channel s n.channel_id ≡ false
    → find (is_message n.id) (messages (apply s (message n)) n.channel_id) ≡ some n
unfolding messages
apply_message-messages s n v live =
    find-messages n.id (timeline (apply s (message n)) n.channel_id) n (
      ap (find (has_message n.id)) (apply_message-timeline s n live)
      ∙ find-put_message s.max_messages_per_channel n (timeline s n.channel_id)
          (valid-AtMostOnce s n.id n.channel_id v))

-- After a REST answer to a send, the message is shown in its channel, if the channel is live and the
-- message has an author.
pub apply_sent-messages :
    (s : FrontendState) (request_id : ℕ) (m : RestMessage) (author : Str)
    → IsValid s
    → is_retired_channel s m.channel_id ≡ false
    → m.author_username ≡ some author
    → find (is_message m.id) (messages (apply_rest s (message_sent request_id m)) m.channel_id)
      ≡ some (from_rest m author)
unfolding apply_rest
apply_sent-messages s request_id m author v live e =
    rw e (apply_message-messages s (from_rest m author) v live)
