-- ===== src/State/Sorted.antt =====
-- The order of the timelines that a page of history is merged into, in src/state.rs.
use Prim.Native.Nat.{Ordering}
use mathlib.Core.Path.{subst}
use diddycord.Base.{
  ℕ, ◌≡◌, refl, sym, ◌∙◌, true, false, List, [], ◌∷◌, Option, none, some, Str, str_eq, arith, ltb,
  length, pop_front, All, All-imp, any, if_cases,
}
use diddycord.Base.Finds.{insert_before, All-insert_before}
use diddycord.Base.Text.{str_cmp}
use diddycord.Events.{FrontendEvent, FrontendMessage, RestMessage, message}
use diddycord.State.Cache.{FrontendState, frontend_message, timeline, is_retired_channel}
use diddycord.State.Valid.{event_id}
use diddycord.State.Ops.{apply_history}
use diddycord.State.Merge.{apply_history-timeline}
use diddycord.State.Timeline.{
  has_message, snowflake_cmp, snowflake_less, comes_before, from_rest, merge_message, merge_rest,
  merge_history,
}

str_cmp_trans :
    (a b c : Str)
    → str_cmp a b ≡ Ordering.lt
    → str_cmp b c ≡ Ordering.lt
    → str_cmp a c ≡ Ordering.lt
unfolding str_cmp
str_cmp_trans [] [] c h k = cc
str_cmp_trans [] (y ∷ b) [] h k = cc
str_cmp_trans [] (y ∷ b) (z ∷ c) h k = refl
str_cmp_trans (x ∷ a) [] c h k = cc
str_cmp_trans (x ∷ a) (y ∷ b) [] h k = cc
str_cmp_trans (x ∷ a) (y ∷ b) (z ∷ c) h k = ground (arith, h, k, str_cmp_trans a b c)

snowflake_less_trans :
    (a b c : Str)
    → snowflake_less a b ≡ true
    → snowflake_less b c ≡ true
    → snowflake_less a c ≡ true
unfolding snowflake_less snowflake_cmp
snowflake_less_trans a b c h k = ground (arith, h, k, str_cmp_trans a b c)

str_cmp_irrefl : (a : Str) → str_cmp a a ≡ Ordering.eq
unfolding str_cmp
str_cmp_irrefl [] = refl
str_cmp_irrefl (x ∷ a) = ground (arith, str_cmp_irrefl a)

snowflake_less_irrefl : (a : Str) → snowflake_less a a ≡ false
unfolding snowflake_less snowflake_cmp
snowflake_less_irrefl a = ground (arith, str_cmp_irrefl a)

snowflake_less_empty : (a : Str) → snowflake_less a [] ≡ false
unfolding snowflake_less snowflake_cmp str_cmp
snowflake_less_empty [] = refl
snowflake_less_empty (x ∷ a) = ground arith

-- The event does not come before the one with the id.
abbrev pub IsNotBefore : Str → FrontendEvent → Type 0
IsNotBefore id event = snowflake_less (event_id event) id ≡ false

-- Snowflakes do not decrease: the oldest message comes first.
abbrev pub Sorted : List FrontendEvent → Type 0
Sorted [] = Unit {0}
Sorted (x ∷ xs) = All (IsNotBefore (event_id x)) xs × Sorted xs

comes_before_lem :
    (id : Str) (event : FrontendEvent) → comes_before id event ≡ snowflake_less id (event_id event)
unfolding comes_before frontend_message
comes_before_lem id (message m) = refl
comes_before_lem id _ = sym (snowflake_less_empty id)

insert-Sorted :
    (m : FrontendMessage) (es : List FrontendEvent)
    → Sorted es
    → Sorted (insert_before (comes_before m.id) (message m) es)
unfolding insert_before
insert-Sorted m [] s = (tt, tt)
insert-Sorted m (y ∷ es) (above, s) =
    if_cases Sorted (comes_before m.id y)
      (λ before.
        let less : snowflake_less m.id (event_id y) ≡ true =
          sym (comes_before_lem m.id y) ∙ before in
        let later : (z : FrontendEvent) → IsNotBefore (event_id y) z → IsNotBefore m.id z =
          λ z h. ground (arith, h, less, snowflake_less_trans (event_id z) m.id (event_id y)) in
        (
          (
            later y (snowflake_less_irrefl (event_id y)),
            All-imp (IsNotBefore (event_id y)) (IsNotBefore m.id) es later above,
          ),
          (above, s),
        ))
      (λ after. (
        All-insert_before (comes_before m.id) (IsNotBefore (event_id y)) (message m) es
            (sym (comes_before_lem m.id y) ∙ after) above,
        insert-Sorted m es s,
      ))

pop_front-Sorted : (es : List FrontendEvent) → Sorted es → Sorted (pop_front es)
pop_front-Sorted [] s = tt
pop_front-Sorted (x ∷ es) s = s.1

merge_message-Sorted :
    (limit : ℕ) (m : FrontendMessage) (es : List FrontendEvent)
    → Sorted es
    → Sorted (merge_message limit m es)
unfolding merge_message
merge_message-Sorted limit m es s =
    let grown = insert_before (comes_before m.id) (message m) es in
    if_cases Sorted (any (has_message m.id) es) (λ _. s)
      (λ _.
        if_cases Sorted (ltb limit (length grown))
          (λ _. pop_front-Sorted grown (insert-Sorted m es s)) (λ _. insert-Sorted m es s))

merge_rest-Sorted :
    (limit : ℕ) (id : Str) (m : RestMessage) (es : List FrontendEvent)
    → Sorted es
    → Sorted (merge_rest limit id m es)
unfolding merge_rest
merge_rest-Sorted limit id m es s =
    if_cases Sorted (str_eq m.channel_id id) (λ _. go m.author_username) (λ _. s)
  where
    go :
        (author : Option Str)
        → Sorted (elim author as (λ _. List FrontendEvent) [
          | none ↦ es
          | some a ↦ merge_message limit (from_rest m a) es
        ])
    go none = s
    go (some a) = merge_message-Sorted limit (from_rest m a) es s

merge_history-Sorted :
    (limit : ℕ) (id : Str) (ms : List RestMessage) (es : List FrontendEvent)
    → Sorted es
    → Sorted (merge_history limit id ms es)
unfolding merge_history
merge_history-Sorted limit id [] es s = s
merge_history-Sorted limit id (m ∷ ms) es s =
    merge_history-Sorted limit id ms (merge_rest limit id m es) (merge_rest-Sorted limit id m es s)

-- A timeline of a live channel that is in the order of its snowflakes is so after a page of
-- history, whatever the page holds and in whatever order.
pub apply_history-Sorted :
    (s : FrontendState) (id : Str) (ms : List RestMessage)
    → is_retired_channel s id ≡ false
    → Sorted (timeline s id)
    → Sorted (timeline (apply_history s id ms) id)
apply_history-Sorted s id ms live sorted =
    subst Sorted (sym (apply_history-timeline s id ms live))
      (merge_history-Sorted s.max_messages_per_channel id ms (timeline s id) sorted)
