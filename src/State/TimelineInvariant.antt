-- ===== src/State/TimelineInvariant.antt =====
-- What src/state.rs does to one timeline keeps it within its limit, of one channel, and without
-- duplicates.
use diddycord.Base.{
  ℕ, ◌+◌, ◌≤◌, ◌<◌, ◌≡◌, refl, sym, ◌∙◌, Bool, true, false, not, List, [], ◌∷◌, Option, none, some,
  Str, str_eq, str_eq_sound, arith, leb, ltb, length, length-push_back, length-pop_front, push_back,
  pop_front, All, All-push_back, All-pop_front, any, has, Distinct, if_cases,
}
use diddycord.Base.Search.{length-modify_last, All-modify_last, All-retain, length-retain-le}
use diddycord.Base.Finds.{insert_before, length-insert_before, All-insert_before}
use diddycord.Base.Keys.{
  push_back-Distinct, pop_front-Distinct, modify_last-Distinct, retain-Distinct,
  insert_before-Distinct,
}
use diddycord.Events.{
  FrontendEvent, FrontendMessage, FrontendMessageUpdate, FrontendMessageDelete, RestMessage,
  message,
}
use diddycord.State.Timeline.{
  has_message, put_message, update_slot, update_message, delete_message, from_rest, comes_before,
  merge_message, merge_rest, merge_history,
}
use diddycord.State.Valid.{event_id, IsMessageOf, IsTimeline}

-- The two ways to look for an id agree on messages.
has_message-event_id :
    (c id : Str) (e : FrontendEvent) → IsMessageOf c e → has event_id id e ≡ has_message id e
unfolding has_message
has_message-event_id c id (message m) h = refl
has_message-event_id c id _ h = absurd h

pub any-has_message :
    (c id : Str) (es : List FrontendEvent)
    → All (IsMessageOf c) es
    → any (has event_id id) es ≡ any (has_message id) es
unfolding any
any-has_message c id [] h = refl
any-has_message c id (e ∷ es) h =
    ground (arith, has_message-event_id c id e h.0, any-has_message c id es h.1)

has_message-id : (id : Str) (e : FrontendEvent) → has_message id e ≡ true → event_id e ≡ id
unfolding has_message
has_message-id id (message m) h = str_eq_sound m.id id h
has_message-id id _ h = cc

any-pop_front :
    (p : FrontendEvent → Bool) (es : List FrontendEvent)
    → any p es ≡ false
    → any p (pop_front es) ≡ false
unfolding any
any-pop_front p [] h = refl
any-pop_front p (e ∷ es) h = ground arith

pop_front-IsTimeline :
    (limit : ℕ) (c : Str) (es : List FrontendEvent)
    → length es ≤ limit + 1
    → Distinct event_id es
    → All (IsMessageOf c) es
    → IsTimeline limit c (pop_front es)
pop_front-IsTimeline limit c es room ids own = record {
  room = omega (arith, length-pop_front es);
  ids = pop_front-Distinct event_id es ids;
  own = All-pop_front (IsMessageOf c) es own;
}

update_slot-id :
    (update : FrontendMessageUpdate) (e : FrontendEvent)
    → event_id (update_slot update e) ≡ event_id e
unfolding update_slot
update_slot-id update (message m) = refl
update_slot-id update _ = refl

module _ (limit : ℕ) (c : Str) where
  push-IsTimeline :
      (m : FrontendMessage) (es : List FrontendEvent)
      → IsTimeline limit c es
      → length es < limit
      → str_eq m.channel_id c ≡ true
      → any (has_message m.id) es ≡ false
      → IsTimeline limit c (push_back es (message m))
  push-IsTimeline m es h room mine absent = record {
    room = omega (arith, length-push_back es (message m));
    ids =
        push_back-Distinct event_id es (message m) (any-has_message c m.id es h.own ∙ absent) h.ids;
    own = All-push_back (IsMessageOf c) es (message m) h.own mine;
  }

  module _ (es : List FrontendEvent) (h : IsTimeline limit c es) where
    pub put_message-IsTimeline :
        (m : FrontendMessage)
        → 0 < limit
        → str_eq m.channel_id c ≡ true
        → IsTimeline limit c (put_message limit m es)
    unfolding put_message
    put_message-IsTimeline m pos mine =
        if_cases (IsTimeline limit c) (any (has_message m.id) es)
          (λ old. record {
            room = omega (arith, length-modify_last (has_message m.id) (λ _. message m) es, h.room);
            ids =
                modify_last-Distinct event_id (has_message m.id) (λ _. message m)
                  (λ e k. sym (has_message-id m.id e k)) es h.ids;
            own = All-modify_last _ (IsMessageOf c) _ es (λ e _ _. mine) h.own;
          })
          (λ absent.
            if_cases (λ xs. IsTimeline limit c (push_back xs (message m))) (leb limit (length es))
              (λ full.
                push-IsTimeline m (pop_front es)
                  (pop_front-IsTimeline limit c es (omega (arith, h.room)) h.ids h.own)
                  (omega (arith, length-pop_front es, h.room)) mine
                  (any-pop_front (has_message m.id) es absent))
              (λ room. push-IsTimeline m es h (ground arith) mine absent))

    update_slot-own :
        (update : FrontendMessageUpdate) (e : FrontendEvent)
        → IsMessageOf c e
        → IsMessageOf c (update_slot update e)
    unfolding update_slot
    update_slot-own update (message m) own = own
    update_slot-own update _ own = absurd own

    pub update_message-IsTimeline :
        (update : FrontendMessageUpdate) → IsTimeline limit c (update_message update es)
    unfolding update_message
    update_message-IsTimeline update = record {
      room =
          omega (arith, length-modify_last (has_message update.id) (update_slot update) es, h.room);
      ids =
          modify_last-Distinct event_id (has_message update.id) (update_slot update)
            (λ e _. update_slot-id update e) es h.ids;
      own =
          All-modify_last (has_message update.id) (IsMessageOf c) (update_slot update) es
            (λ e _. update_slot-own update e) h.own;
    }

    pub delete_message-IsTimeline :
        (delete : FrontendMessageDelete) → IsTimeline limit c (delete_message delete es)
    unfolding delete_message
    delete_message-IsTimeline delete = record {
      room = omega (arith, length-retain-le (λ e. not (has_message delete.id e)) es, h.room);
      ids = retain-Distinct event_id _ es h.ids;
      own = All-retain _ (IsMessageOf c) es h.own;
    }

    merge_message-IsTimeline :
        (m : FrontendMessage)
        → str_eq m.channel_id c ≡ true
        → IsTimeline limit c (merge_message limit m es)
    unfolding merge_message
    merge_message-IsTimeline m mine =
        let grown = insert_before (comes_before m.id) (message m) es in
        if_cases (IsTimeline limit c) (any (has_message m.id) es) (λ old. h)
          (λ absent.
            let ids : Distinct event_id grown =
              insert_before-Distinct event_id (comes_before m.id) (message m) es
                (any-has_message c m.id es h.own ∙ absent) h.ids in
            let own : All (IsMessageOf c) grown =
              All-insert_before (comes_before m.id) (IsMessageOf c) (message m) es mine h.own in
            let size = length-insert_before (comes_before m.id) (message m) es in
            if_cases (IsTimeline limit c) (ltb limit (length grown))
              (λ over. pop_front-IsTimeline limit c grown (omega (arith, size, h.room)) ids own)
              (λ fits. record { room = ground arith; ids = ids; own = own }))

  merge_rest-IsTimeline :
      (m : RestMessage) (es : List FrontendEvent)
      → IsTimeline limit c es
      → IsTimeline limit c (merge_rest limit c m es)
  unfolding merge_rest from_rest
  merge_rest-IsTimeline m es h =
      if_cases (IsTimeline limit c) (str_eq m.channel_id c) (λ mine. go mine m.author_username)
        (λ _. h)
    where
      go :
          str_eq m.channel_id c ≡ true
          → (author : Option Str)
          → IsTimeline limit c (elim author as (λ _. List FrontendEvent) [
            | none ↦ es
            | some a ↦ merge_message limit (from_rest m a) es
          ])
      go mine none = h
      go mine (some a) = merge_message-IsTimeline es h (from_rest m a) mine

  pub merge_history-IsTimeline :
      (ms : List RestMessage) (es : List FrontendEvent)
      → IsTimeline limit c es
      → IsTimeline limit c (merge_history limit c ms es)
  unfolding merge_history
  merge_history-IsTimeline [] es h = h
  merge_history-IsTimeline (m ∷ ms) es h =
      merge_history-IsTimeline ms (merge_rest limit c m es) (merge_rest-IsTimeline m es h)
