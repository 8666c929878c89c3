-- ===== src/History/Loads.antt =====
-- A load of the pager of src/history.rs, from its submission to the event that completes it.
-- Every answer to the command completes the load that the pager waits for.
use diddycord.Base.{ℕ, ◌≡◌, refl, Bool, true, false, Option, none, some, Str}
use diddycord.Base.Results.{ok}
use diddycord.Events.{FrontendMessage}
use diddycord.State.Cache.{FrontendState}
use diddycord.Rest.Commands.{fetch_messages}
use diddycord.Rest.Handle.{RestHandle, TrySend, try_fetch_messages, try_fetch_messages_before}
use diddycord.History.Pager.{
  HistoryPager, HistoryLoadStatus, PendingHistory, Load, submitted, await_page, try_load_latest,
  oldest_message, try_load_older,
}
use diddycord.History.UnderWay.{
  submit_history-sent, try_fetch_messages_before-sent, IsUnderWay, await_page-IsUnderWay,
}

module _ (answer : TrySend) (h : RestHandle) (p : HistoryPager) where
  abbrev latest_of : Option PendingHistory → Option Str → Load
  latest_of pending selected = elim pending [
    | some pending ↦ (p, h, ok HistoryLoadStatus.busy)
    | none ↦ elim selected [
      | none ↦ (p, h, ok HistoryLoadStatus.no_selection)
      | some channel_id ↦
          await_page p channel_id none false (try_fetch_messages answer h channel_id p.page_size)
    ]
  ]

  latest_of-completes :
      (id : ℕ) (pending : Option PendingHistory) (selected : Option Str)
      → (latest_of pending selected).2 ≡ ok (submitted id)
      → (channel_id : Str) × (selected ≡ some channel_id)
        × IsUnderWay h
            (record { request_id = id; kind = fetch_messages channel_id none p.page_size })
            (latest_of pending selected)
  unfolding try_fetch_messages
  latest_of-completes id (some pending) selected e = absurd cc
  latest_of-completes id none none e = absurd cc
  latest_of-completes id none (some channel_id) e = (
    channel_id,
    refl,
    await_page-IsUnderWay h p channel_id none false _ id
        (submit_history-sent answer h channel_id none p.page_size) e,
  )

  -- A load of the latest page that is submitted has put one command into the queue, for a page of
  -- the selected channel with no anchor; and whichever way the dispatcher answers this command, the
  -- answer ends the load: it is not ignored, and the pager is free for the next one.
  pub load_latest-completes :
      (id : ℕ)
      → (try_load_latest answer h p).2 ≡ ok (submitted id)
      → (channel_id : Str) × (p.selected_channel ≡ some channel_id)
        × IsUnderWay h
            (record { request_id = id; kind = fetch_messages channel_id none p.page_size })
            (try_load_latest answer h p)
  unfolding try_load_latest
  load_latest-completes id = latest_of-completes id p.pending p.selected_channel

  module _ (s : FrontendState) where
    abbrev anchored : Str → Option FrontendMessage → Load
    anchored channel_id o = elim o [
      | none ↦ (p, h, ok HistoryLoadStatus.no_anchor)
      | some oldest ↦
          await_page p channel_id (some oldest.id) p.exhausted
            (try_fetch_messages_before answer h channel_id oldest.id p.page_size)
    ]

    abbrev older_of : Option PendingHistory → Bool → Option Str → Load
    older_of pending spent selected = elim pending [
      | some pending ↦ (p, h, ok HistoryLoadStatus.busy)
      | none ↦ elim spent [
        | true ↦ (p, h, ok HistoryLoadStatus.exhausted)
        | false ↦ elim selected [
          | none ↦ (p, h, ok HistoryLoadStatus.no_selection)
          | some channel_id ↦ anchored channel_id (oldest_message s channel_id)
        ]
      ]
    ]

    anchored-completes :
        (id : ℕ) (channel_id : Str) (o : Option FrontendMessage)
        → (anchored channel_id o).2 ≡ ok (submitted id)
        → (oldest : FrontendMessage) × (o ≡ some oldest)
          × IsUnderWay h
              (record {
                request_id = id;
                kind = fetch_messages channel_id (some oldest.id) p.page_size;
              })
              (anchored channel_id o)
    anchored-completes id channel_id none e = absurd cc
    anchored-completes id channel_id (some oldest) e = (
      oldest,
      refl,
      await_page-IsUnderWay h p channel_id (some oldest.id) p.exhausted _ id
          (try_fetch_messages_before-sent answer h channel_id oldest.id p.page_size) e,
    )

    older_of-completes :
        (id : ℕ) (pending : Option PendingHistory) (spent : Bool) (selected : Option Str)
        → (older_of pending spent selected).2 ≡ ok (submitted id)
        → (spent ≡ false)
          × (channel_id : Str) × (selected ≡ some channel_id)
          × (oldest : FrontendMessage) × (oldest_message s channel_id ≡ some oldest)
          × IsUnderWay h
              (record {
                request_id = id;
                kind = fetch_messages channel_id (some oldest.id) p.page_size;
              })
              (older_of pending spent selected)
    older_of-completes id (some pending) spent selected e = absurd cc
    older_of-completes id none true selected e = absurd cc
    older_of-completes id none false none e = absurd cc
    older_of-completes id none false (some channel_id) e =
        let (oldest, found, under_way) =
          anchored-completes id channel_id (oldest_message s channel_id) e in
        (refl, channel_id, refl, oldest, found, under_way)

    -- A load of older messages is submitted only while the history is not exhausted; it has put one
    -- command into the queue, for a page of the selected channel before the oldest cached message;
    -- and whichever way the dispatcher answers this command, the answer ends the load: it is not
    -- ignored, and the pager is free for the next one.
    pub load_older-completes :
        (id : ℕ)
        → (try_load_older answer s h p).2 ≡ ok (submitted id)
        → (p.exhausted ≡ false)
          × (channel_id : Str) × (p.selected_channel ≡ some channel_id)
          × (oldest : FrontendMessage) × (oldest_message s channel_id ≡ some oldest)
          × IsUnderWay h
              (record {
                request_id = id;
                kind = fetch_messages channel_id (some oldest.id) p.page_size;
              })
              (try_load_older answer s h p)
    unfolding try_load_older
    load_older-completes id = older_of-completes id p.pending p.exhausted p.selected_channel
