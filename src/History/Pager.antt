-- ===== src/History/Pager.antt =====
-- src/history.rs: `HistoryPager`. A method on `&mut self` returns the new pager; one that submits
-- returns the handle's new state too. The page size is a `u8`.
use diddycord.Base.{
  ℕ, min, max, Bool, true, false, ◌&&◌, ◌==◌, if◌then◌else◌, [], ◌∷◌, Option, none, some, Str,
  str_eq, ltb, length,
}
use diddycord.Base.Results.{Result, ok, err}
use diddycord.Events.{FrontendMessage, RestEvent, RestOperation, messages_fetched, failed}
use diddycord.State.Cache.{FrontendState, messages}
use diddycord.Rest.Commands.{RestSubmitError}
use diddycord.Rest.Handle.{RestHandle, TrySend, try_fetch_messages, try_fetch_messages_before}

abbrev pub min_page_size : ℕ
min_page_size = 1

abbrev pub max_page_size : ℕ
max_page_size = 100

pub data HistoryLoadStatus : Type 0 where
  submitted : ℕ → HistoryLoadStatus
  busy exhausted no_selection no_anchor : HistoryLoadStatus

pub data HistoryCompletion : Type 0 where
  ignored : HistoryCompletion
  loaded : (count : ℕ) → (exhausted : Bool) → HistoryCompletion
  failed_load : (retryable : Bool) → HistoryCompletion

pub record PendingHistory : Type 0 where
  pub request_id : ℕ
  pub channel_id : Str
  pub requested : ℕ
  pub before : Option Str

pub record HistoryPager : Type 0 where
  pub selected_channel : Option Str
  pub page_size : ℕ
  pub pending : Option PendingHistory
  pub exhausted : Bool

unfoldable pub new : ℕ → HistoryPager
new page_size = record {
  selected_channel = none;
  page_size = min (max page_size min_page_size) max_page_size;
  pending = none;
  exhausted = false;
}

unfoldable pub pending_request_id : HistoryPager → Option ℕ
pending_request_id p = elim p.pending [ none ↦ none | some pending ↦ some pending.request_id ]

unfoldable pub pending_before : HistoryPager → Option Str
pending_before p = elim p.pending [ none ↦ none | some pending ↦ pending.before ]

-- `selected_channel.as_deref() == Some(channel_id)`.
unfoldable pub is_selected : HistoryPager → Str → Bool
unfolding str_eq
is_selected p channel_id = elim p.selected_channel [
  | none ↦ false
  | some selected ↦ str_eq selected channel_id
]

-- The flag says that the selection changed.
unfoldable pub select_channel : HistoryPager → Str → HistoryPager × Bool
unfolding is_selected
select_channel p channel_id =
    if is_selected p channel_id
    then (p, false)
    else (record p { selected_channel = some channel_id; pending = none; exhausted = false }, true)

unfoldable pub clear_selection : HistoryPager → HistoryPager
clear_selection p = record p { selected_channel = none; pending = none; exhausted = false }

abbrev pub Load : Type 0
Load = HistoryPager × RestHandle × Result HistoryLoadStatus RestSubmitError

-- The pager after a request for a page before an id, or for the latest page, was answered by the
-- handle; a request that the handle refuses leaves the pager as it was.
unfoldable pub await_page :
    HistoryPager → Str → Option Str → Bool → RestHandle × Result ℕ RestSubmitError → Load
await_page p channel_id before spent (h, err e) = (p, h, err e)
await_page p channel_id before spent (h, ok request_id) = (
  record p {
    pending = some (record {
      request_id = request_id;
      channel_id = channel_id;
      requested = p.page_size;
      before = before;
    });
    exhausted = spent;
  },
  h,
  ok (submitted request_id),
)

unfoldable pub try_load_latest : TrySend → RestHandle → HistoryPager → Load
unfolding await_page try_fetch_messages
try_load_latest answer h p = elim p.pending [
  | some pending ↦ (p, h, ok busy)
  | none ↦ elim p.selected_channel [
    | none ↦ (p, h, ok no_selection)
    | some channel_id ↦
        await_page p channel_id none false (try_fetch_messages answer h channel_id p.page_size)
  ]
]

-- `state.messages(channel_id).next()`.
unfoldable pub oldest_message : FrontendState → Str → Option FrontendMessage
unfolding messages
oldest_message state channel_id = elim (messages state channel_id) [ [] ↦ none | m ∷ _ ↦ some m ]

unfoldable pub try_load_older : TrySend → FrontendState → RestHandle → HistoryPager → Load
unfolding await_page oldest_message try_fetch_messages_before
try_load_older answer state h p = elim p.pending [
  | some pending ↦ (p, h, ok busy)
  | none ↦ elim p.exhausted [
    | true ↦ (p, h, ok exhausted)
    | false ↦ elim p.selected_channel [
      | none ↦ (p, h, ok no_selection)
      | some channel_id ↦ elim (oldest_message state channel_id) [
        | none ↦ (p, h, ok no_anchor)
        | some oldest ↦
            await_page p channel_id (some oldest.id) p.exhausted
              (try_fetch_messages_before answer h channel_id oldest.id p.page_size)
      ]
    ]
  ]
]

abbrev pub is_fetch : RestOperation → Bool
is_fetch RestOperation.fetch_messages = true
is_fetch _ = false

-- The `match` of `observe_rest`, for the pending request.
unfoldable pub observe_pending :
    HistoryPager → PendingHistory → RestEvent → HistoryPager × HistoryCompletion
unfolding str_eq
observe_pending p pending (messages_fetched request_id channel_id messages) =
    let short = ltb (length messages) pending.requested in
    if request_id == pending.request_id && str_eq channel_id pending.channel_id
    then (record p { exhausted = short; pending = none }, loaded (length messages) short)
    else (p, ignored)
observe_pending p pending (failed failure) =
    if is_fetch failure.operation && failure.request_id == pending.request_id
    then (record p { pending = none }, failed_load failure.retryable)
    else (p, ignored)
observe_pending p pending _ = (p, ignored)

unfoldable pub observe_rest : HistoryPager → RestEvent → HistoryPager × HistoryCompletion
unfolding observe_pending
observe_rest p event = elim p.pending [
  | none ↦ (p, ignored)
  | some pending ↦ observe_pending p pending event
]
