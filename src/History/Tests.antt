-- ===== src/History/Tests.antt =====
-- The pager of src/history.rs at concrete states.
use mathlib.Core.List.{filter_map}
use diddycord.Base.{
  ◌≡◌, refl, true, false, [], ◌∷◌, none, some, Str, bytes, str_eq, any, find, arith,
}
use diddycord.Events.{FrontendMessage, RestMessage, message, messages_fetched}
use diddycord.Topology.Cache.{default}
use diddycord.State.Cache.{FrontendState, timeline, is_retired_channel}
use diddycord.State.Timeline.{has_message, comes_before}
use diddycord.State.Ops.{apply_rest}
use diddycord.Rest.Commands.{fetch_messages}
use diddycord.Rest.Handle.{fresh_handle, sent}
use diddycord.History.Pager.{
  HistoryPager, new, select_channel, try_load_latest, try_load_older, oldest_message,
}
use diddycord.History.Protocol.{IsValid, select, start, step, reachable-IsValid}
use diddycord.History.UnderWay.{IsUnderWay}
use diddycord.History.Loads.{load_latest-completes, load_older-completes}
use diddycord.History.Stall.{older_page-stalls}

abbrev lobby : Str
lobby = bytes "11"

abbrev hello : FrontendMessage
hello = record {
  id = bytes "102";
  channel_id = lobby;
  author_username = bytes "ann";
  content = bytes "hello";
}

abbrev older : RestMessage
older = record {
  id = bytes "99";
  channel_id = lobby;
  author_username = some (bytes "bob");
  content = bytes "before";
}

-- A state whose only timeline is full with one message.
abbrev full : FrontendState
full = record {
  channels = (lobby, record { messages = message hello ∷ []; touched = 1 }) ∷ [];
  retired_channels = [];
  max_channels = 2;
  max_messages_per_channel = 1;
  clock = 1;
  gateway_ready = true;
  dropped_gateway_events = 0;
  dropped_rest_events = 0;
  topology = default;
}

abbrev pager : HistoryPager
pager = record { selected_channel = some lobby; page_size = 1; pending = none; exhausted = false }

reachable-IsValid_example : IsValid (select_channel (new 50) lobby).0
reachable-IsValid_example =
    reachable-IsValid (select_channel (new 50) lobby).0
      (step (new 50) (select_channel (new 50) lobby).0 (start 50) (select (new 50) lobby))

load_latest-completes_example :
    (channel_id : Str) × (some lobby ≡ some channel_id)
    × IsUnderWay fresh_handle
        (record { request_id = 1; kind = fetch_messages channel_id none 1 })
        (try_load_latest sent fresh_handle pager)
unfolding try_load_latest
load_latest-completes_example = load_latest-completes sent fresh_handle pager 1 refl

load_older-completes_example :
    (false ≡ false)
    × (channel_id : Str) × (some lobby ≡ some channel_id)
    × (oldest : FrontendMessage) × (oldest_message full channel_id ≡ some oldest)
    × IsUnderWay fresh_handle
        (record { request_id = 1; kind = fetch_messages channel_id (some oldest.id) 1 })
        (try_load_older sent full fresh_handle pager)
unfolding try_load_older str_eq filter_map
load_older-completes_example = load_older-completes sent fresh_handle pager full 1 refl

older_page-stalls_example :
    let t = apply_rest full (messages_fetched 7 lobby (older ∷ [])) in
    (timeline t lobby ≡ timeline full lobby) × (oldest_message t lobby ≡ oldest_message full lobby)
unfolding is_retired_channel timeline any find str_eq has_message comes_before
older_page-stalls_example =
    older_page-stalls full 7 lobby (older ∷ []) (message hello) [] refl refl (omega arith)
      ((refl, refl), tt)
