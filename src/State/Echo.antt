-- ===== src/State/Echo.antt =====
-- The REST answer to a send and the gateway's echo of it converge, in src/state.rs.
use mathlib.Core.Path.{subst}
use diddycord.Base.{
  str_eq, ℕ, ◌≡◌, refl, sym, ap, ◌∙◌, inl, inr, Bool, true, List, [], ◌∷◌, Option, none, some, Str,
  str_eq_refl, arith, leb, length, push_back, pop_front, any, Bool-cases, if◌then◌else◌,
}
use diddycord.Base.Search.{modify_last, any-append}
use diddycord.Events.{FrontendEvent, FrontendMessage, RestMessage, message, message_sent}
use diddycord.State.Cache.{FrontendState, timeline, is_retired_channel}
use diddycord.State.Timeline.{has_message, put_message, from_rest}
use diddycord.State.Ops.{advance, ensure_channel, modify_channel, apply_message, apply, apply_rest}
use diddycord.State.Eviction.{evict-frame}
use diddycord.State.Messages.{apply-message, apply_message-timeline, apply_message-retired}

module _ {ℓ} {A : Type ℓ} (p : A → Bool) where
  -- `put_message`, over the test for the id.
  abbrev put_at : ℕ → A → List A → List A
  put_at limit x es =
      if any p es
      then modify_last p (λ _. x) es
      else push_back (if leb limit (length es) then pop_front es else es) x

  any-modify_last_const :
      (x : A) (es : List A) → p x ≡ true → any p (modify_last p (λ _. x) es) ≡ any p es
  unfolding any modify_last
  any-modify_last_const x [] hx = refl
  any-modify_last_const x (e ∷ es) hx = ground (arith, any-modify_last_const x es hx)

  modify_last_twice :
      (x y : A) (es : List A)
      → p x ≡ true
      → modify_last p (λ _. y) (modify_last p (λ _. x) es) ≡ modify_last p (λ _. y) es
  unfolding any modify_last
  modify_last_twice x y [] hx = refl
  modify_last_twice x y (e ∷ es) hx =
      ground (arith, any-modify_last_const x es hx, modify_last_twice x y es hx)

  modify_last-push_back :
      (x y : A) (es : List A)
      → p x ≡ true
      → modify_last p (λ _. y) (push_back es x) ≡ push_back es y
  unfolding any modify_last
  modify_last-push_back x y [] hx = ground arith
  modify_last-push_back x y (e ∷ es) hx =
      ground (arith, any-append p es (x ∷ []), modify_last-push_back x y es hx)

  any-push_back_self : (x : A) (es : List A) → p x ≡ true → any p (push_back es x) ≡ true
  unfolding any
  any-push_back_self x [] hx = ground arith
  any-push_back_self x (e ∷ es) hx = ground (arith, any-push_back_self x es hx)

  -- The second put replaces what the first one put.
  put_at_twice :
      (limit : ℕ) (x y : A) (es : List A)
      → p x ≡ true
      → put_at limit y (put_at limit x es) ≡ put_at limit y es
  put_at_twice limit x y es hx = elim (Bool-cases (any p es)) [
    | inl old ↦ rw (old, any-modify_last_const x es hx, old) (modify_last_twice x y es hx)
    | inr absent ↦
        let room = if leb limit (length es) then pop_front es else es in
        rw (absent, any-push_back_self x room hx) (modify_last-push_back x y room hx)
  ]

put_message_twice :
    (limit : ℕ) (m n : FrontendMessage) (es : List FrontendEvent)
    → m.id ≡ n.id
    → put_message limit n (put_message limit m es) ≡ put_message limit n es
unfolding put_message has_message
put_message_twice limit m n es same =
    ap (λ k. put_message limit n (put_at (has_message k) limit (message m) es)) same
    ∙ put_at_twice (has_message n.id) limit (message m) (message n) es
        (ap (λ k. has_message k (message m)) (sym same) ∙ str_eq_refl m.id)

-- A message changes neither tombstones nor limits.
apply_message-frame :
    (s : FrontendState) (m : FrontendMessage)
    → let t = apply_message s m in
      (t.retired_channels ≡ s.retired_channels)
      × (t.max_messages_per_channel ≡ s.max_messages_per_channel)
unfolding apply_message modify_channel ensure_channel
apply_message-frame s m = ground (arith, evict-frame (advance s))

-- The second of two messages with one id and one channel is all that counts.
message_twice :
    (s : FrontendState) (m n : FrontendMessage)
    → m.id ≡ n.id
    → m.channel_id ≡ n.channel_id
    → timeline (apply (apply s (message m)) (message n)) n.channel_id
      ≡ timeline (apply s (message n)) n.channel_id
unfolding is_retired_channel
message_twice s m n same_id same_channel =
    let c = n.channel_id in
    let t = apply s (message m) in
    let limit = s.max_messages_per_channel in
    let framed : (t.retired_channels ≡ s.retired_channels)
        × (t.max_messages_per_channel ≡ s.max_messages_per_channel) =
      subst
        (λ (u : FrontendState).
          (u.retired_channels ≡ s.retired_channels)
          × (u.max_messages_per_channel ≡ s.max_messages_per_channel))
        (sym (apply-message s m)) (apply_message-frame s m) in
    elim (Bool-cases (is_retired_channel s c)) [
      | inl retired ↦
          ap (λ u. timeline (apply u (message n)) c)
            (apply_message-retired s m (ap (is_retired_channel s) same_channel ∙ retired))
      | inr live ↦
          apply_message-timeline t n (ap (any (λ r. str_eq r c)) framed.0 ∙ live)
          ∙ ap (λ l. put_message l n (timeline t c)) framed.1
          ∙ ap (λ k. put_message limit n (timeline t k)) (sym same_channel)
          ∙ ap (put_message limit n)
              (apply_message-timeline s m (ap (is_retired_channel s) same_channel ∙ live))
          ∙ put_message_twice limit m n (timeline s m.channel_id) same_id
          ∙ ap (λ k. put_message limit n (timeline s k)) same_channel
          ∙ sym (apply_message-timeline s n live)
    ]

-- Whatever the state, a REST answer to a send, followed by the gateway's message with the same id
-- and channel, leaves the channel's timeline as that gateway message alone would.
pub rest_echo :
    (s : FrontendState) (request_id : ℕ) (m : RestMessage) (n : FrontendMessage)
    → m.id ≡ n.id
    → m.channel_id ≡ n.channel_id
    → timeline (apply (apply_rest s (message_sent request_id m)) (message n)) n.channel_id
      ≡ timeline (apply s (message n)) n.channel_id
unfolding apply_rest from_rest
rest_echo s request_id m n same_id same_channel = go m.author_username
  where
    go :
        (author : Option Str)
        → timeline
            (apply
              (elim author as (λ _. FrontendState) [
                | none ↦ s
                | some a ↦ apply s (message (from_rest m a))
              ])
              (message n))
            n.channel_id
          ≡ timeline (apply s (message n)) n.channel_id
    go none = refl
    go (some a) = message_twice s (from_rest m a) n same_id same_channel
