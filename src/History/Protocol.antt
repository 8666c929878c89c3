-- ===== src/History/Protocol.antt =====
-- The states that the pager of src/history.rs goes through.
use diddycord.Base.{
  ℕ, ◌≤◌, ◌≡◌, refl, Bool, true, false, ◌&&◌, ◌==◌, Option, none, some, Str, str_eq, arith,
  if_cases,
}
use diddycord.Base.Results.{Result, ok, err}
use diddycord.Events.{FrontendMessage, RestEvent, messages_fetched, failed}
use diddycord.State.Cache.{FrontendState}
use diddycord.Rest.Commands.{RestSubmitError}
use diddycord.Rest.Handle.{RestHandle, TrySend, try_fetch_messages, try_fetch_messages_before}
use diddycord.History.Pager.{
  HistoryPager, HistoryCompletion, HistoryLoadStatus, PendingHistory, Load, new, is_selected,
  select_channel, clear_selection, await_page, try_load_latest, oldest_message, try_load_older,
  observe_pending, observe_rest, is_fetch, ignored, max_page_size,
}

-- A pending request is one for a page of the selected channel, before the history is exhausted.
abbrev pub IsPending : Option Str → ℕ → Bool → Option PendingHistory → Type 0
IsPending selected size spent none = Unit {0}
IsPending selected size spent (some pending) =
    (selected ≡ some pending.channel_id) × (pending.requested ≡ size) × (spent ≡ false)

pub record IsValid (p : HistoryPager) : Type 0 where
  pub lower : 1 ≤ p.page_size
  pub upper : p.page_size ≤ max_page_size
  pub pending : IsPending p.selected_channel p.page_size p.exhausted p.pending

-- The methods that change the pager, whatever the queue answers, the state caches and the
-- dispatcher reports.
pub data Step : HistoryPager → HistoryPager → Type 0 where
  select : (p : HistoryPager) (channel_id : Str) → Step p (select_channel p channel_id).0
  clear : (p : HistoryPager) → Step p (clear_selection p)
  load_latest :
      (p : HistoryPager) (answer : TrySend) (h : RestHandle) → Step p (try_load_latest answer h p).0
  load_older :
      (p : HistoryPager) (answer : TrySend) (s : FrontendState) (h : RestHandle)
      → Step p (try_load_older answer s h p).0
  observe : (p : HistoryPager) (event : RestEvent) → Step p (observe_rest p event).0

pub data Reachable : HistoryPager → Type 0 where
  start : (page_size : ℕ) → Reachable (new page_size)
  step : (p q : HistoryPager) → Reachable p → Step p q → Reachable q

new-IsValid : (page_size : ℕ) → IsValid (new page_size)
unfolding new
new-IsValid page_size = record { lower = omega arith; upper = omega arith; pending = tt }

await_page-IsValid :
    (p : HistoryPager) (channel_id : Str) (before : Option Str)
    (r : RestHandle × Result ℕ RestSubmitError)
    → IsValid p
    → p.selected_channel ≡ some channel_id
    → IsValid (await_page p channel_id before false r).0
unfolding await_page
await_page-IsValid p channel_id before (h, err e) v selected = v
await_page-IsValid p channel_id before (h, ok request_id) v selected = record {
  lower = v.lower;
  upper = v.upper;
  pending = (selected, refl, refl);
}

-- Nothing pending is always consistent.
idle-IsValid :
    (p : HistoryPager) (selected : Option Str) (spent : Bool)
    → IsValid p
    → IsValid (record p { selected_channel = selected; pending = none; exhausted = spent })
idle-IsValid p selected spent v = record { lower = v.lower; upper = v.upper; pending = tt }

load_latest-IsValid :
    (answer : TrySend) (h : RestHandle) (p : HistoryPager)
    → IsValid p
    → IsValid (try_load_latest answer h p).0
unfolding try_load_latest
load_latest-IsValid answer h p v = go p.pending p.selected_channel refl
  where
    go :
        (pending : Option PendingHistory) (selected : Option Str)
        → p.selected_channel ≡ selected
        → IsValid
            (elim pending as (λ _. Load) [
              | some pending ↦ (p, h, ok HistoryLoadStatus.busy)
              | none ↦ elim selected as (λ _. Load) [
                | none ↦ (p, h, ok HistoryLoadStatus.no_selection)
                | some channel_id ↦
                    await_page p channel_id none false
                      (try_fetch_messages answer h channel_id p.page_size)
              ]
            ]).0
    go (some pending) selected e = v
    go none none e = v
    go none (some channel_id) e = await_page-IsValid p channel_id none _ v e

load_older-IsValid :
    (answer : TrySend) (s : FrontendState) (h : RestHandle) (p : HistoryPager)
    → IsValid p
    → IsValid (try_load_older answer s h p).0
unfolding try_load_older
load_older-IsValid answer s h p v = go p.pending p.exhausted p.selected_channel refl refl
  where
    older :
        (channel_id : Str) (o : Option FrontendMessage) (spent : Bool)
        → spent ≡ false
        → p.selected_channel ≡ some channel_id
        → IsValid
            (elim o as (λ _. Load) [
              | none ↦ (p, h, ok HistoryLoadStatus.no_anchor)
              | some oldest ↦
                  await_page p channel_id
                    (some oldest.id)
                    spent
                    (try_fetch_messages_before answer h channel_id oldest.id p.page_size)
            ]).0
    older channel_id none spent f e = v
    older channel_id (some oldest) spent f e =
        rw (f) (await_page-IsValid p channel_id (some oldest.id) _ v e)

    go :
        (pending : Option PendingHistory) (spent : Bool) (selected : Option Str)
        → p.exhausted ≡ spent
        → p.selected_channel ≡ selected
        → IsValid
            (elim pending as (λ _. Load) [
              | some pending ↦ (p, h, ok HistoryLoadStatus.busy)
              | none ↦ elim spent as (λ _. Load) [
                | true ↦ (p, h, ok HistoryLoadStatus.exhausted)
                | false ↦ elim selected as (λ _. Load) [
                  | none ↦ (p, h, ok HistoryLoadStatus.no_selection)
                  | some channel_id ↦ elim (oldest_message s channel_id) as (λ _. Load) [
                    | none ↦ (p, h, ok HistoryLoadStatus.no_anchor)
                    | some oldest ↦
                        await_page p channel_id
                          (some oldest.id)
                          p.exhausted
                          (try_fetch_messages_before answer h channel_id oldest.id p.page_size)
                  ]
                ]
              ]
            ]).0
    go (some pending) spent selected f e = v
    go none true selected f e = v
    go none false none f e = v
    go none false (some channel_id) f e =
        older channel_id (oldest_message s channel_id) p.exhausted f e

observe-IsValid :
    (p : HistoryPager) (event : RestEvent) → IsValid p → IsValid (observe_rest p event).0
unfolding observe_rest observe_pending
observe-IsValid p event v = go p.pending event
  where
    pending_case :
        (pending : PendingHistory) (event : RestEvent) → IsValid (observe_pending p pending event).0
    pending_case pending (messages_fetched request_id channel_id messages) =
        if_cases (λ (r : HistoryPager × HistoryCompletion). IsValid r.0)
          (request_id == pending.request_id && str_eq channel_id pending.channel_id)
          (λ _. idle-IsValid p p.selected_channel _ v) (λ _. v)
    pending_case pending (failed failure) =
        if_cases (λ (r : HistoryPager × HistoryCompletion). IsValid r.0)
          (is_fetch failure.operation && failure.request_id == pending.request_id)
          (λ _. idle-IsValid p p.selected_channel _ v) (λ _. v)
    pending_case pending _ = v

    go :
        (o : Option PendingHistory) (event : RestEvent)
        → IsValid
            (elim o as (λ _. HistoryPager × HistoryCompletion) [
              | none ↦ (p, ignored)
              | some pending ↦ observe_pending p pending event
            ]).0
    go none event = v
    go (some pending) event = pending_case pending event

step-IsValid : (p q : HistoryPager) → Step p q → IsValid p → IsValid q
unfolding select_channel clear_selection
step-IsValid _ _ (select p channel_id) v =
    if_cases (λ (r : HistoryPager × Bool). IsValid r.0) (is_selected p channel_id) (λ _. v)
      (λ _. idle-IsValid p (some channel_id) false v)
step-IsValid _ _ (clear p) v = idle-IsValid p none false v
step-IsValid _ _ (load_latest p answer h) v = load_latest-IsValid answer h p v
step-IsValid _ _ (load_older p answer s h) v = load_older-IsValid answer s h p v
step-IsValid _ _ (observe p event) v = observe-IsValid p event v

-- Every pager that the methods can reach asks for pages of 1 to 100 messages, and has a request
-- pending only for a page of that size of the channel that is selected, and only while the
-- channel's history is not exhausted.
pub reachable-IsValid : (p : HistoryPager) → Reachable p → IsValid p
reachable-IsValid _ (start page_size) = new-IsValid page_size
reachable-IsValid _ (step p q r s) = step-IsValid p q s (reachable-IsValid p r)
