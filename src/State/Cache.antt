-- ===== src/State/Cache.antt =====
-- src/state.rs: the data of `FrontendState`, its constructors and its read methods. The `HashMap` of
-- timelines is an association list with one entry for each key; where an entry stands in it models
-- the iteration order of the map, which the program does not fix. The capacity hints have no
-- effect. `Arc` is the shared value itself, since no event is changed in place.
use diddycord.Base.{
  ℕ, max, Bool, false, List, [], ◌∷◌, Option, none, some, Str, str_eq, length, find, any, has,
  filter_map,
}
use diddycord.Events.{FrontendEvent, FrontendMessage, message}
use diddycord.Topology.Cache.{TopologyState, default}
use diddycord.Topology.Cache

pub record DrainReport : Type 0 where
  pub applied : ℕ
  pub lagged : ℕ
  pub closed : Bool

pub record ChannelTimeline : Type 0 where
  pub messages : List FrontendEvent
  pub touched : ℕ

abbrev pub Entry : Type 0
Entry = Str × ChannelTimeline

pub record FrontendState : Type 0 where
  pub channels : List Entry
  pub retired_channels : List Str
  pub max_channels : ℕ
  pub max_messages_per_channel : ℕ
  pub clock : ℕ
  pub gateway_ready : Bool
  pub dropped_gateway_events : ℕ
  pub dropped_rest_events : ℕ
  pub topology : TopologyState

unfoldable pub empty_timeline : ℕ → ChannelTimeline
empty_timeline touched = record { messages = []; touched = touched }

unfoldable pub new : ℕ → ℕ → FrontendState
unfolding default
new max_channels max_messages_per_channel = record {
  channels = [];
  retired_channels = [];
  max_channels = max max_channels 1;
  max_messages_per_channel = max max_messages_per_channel 1;
  clock = 0;
  gateway_ready = false;
  dropped_gateway_events = 0;
  dropped_rest_events = 0;
  topology = default;
}

unfoldable pub with_topology_limits : ℕ → ℕ → ℕ → ℕ → FrontendState
unfolding new Cache.new
with_topology_limits max_channels max_messages_per_channel max_guilds max_channels_per_guild =
    record (new max_channels max_messages_per_channel) {
      topology = Cache.new max_guilds max_channels_per_guild;
    }

unfoldable pub frontend_message : FrontendEvent → Option FrontendMessage
frontend_message (message m) = some m
frontend_message _ = none

-- The key of an entry of the map.
abbrev pub entry_key : Entry → Str
entry_key e = e.0

abbrev pub find_channel : FrontendState → Str → Option Entry
find_channel s channel_id = find (has entry_key channel_id) s.channels

-- The events of a channel's timeline, oldest first, or none.
unfoldable pub timeline : FrontendState → Str → List FrontendEvent
unfolding find
timeline s channel_id = elim (find_channel s channel_id) [ none ↦ [] | some e ↦ e.1.messages ]

unfoldable pub cached_channel_count : FrontendState → ℕ
cached_channel_count s = length s.channels

unfoldable pub channel_message_count : FrontendState → Str → ℕ
unfolding timeline
channel_message_count s channel_id = length (timeline s channel_id)

unfoldable pub back {ℓ} : {A : Type ℓ} → List A → Option A
back [] = none
back (x ∷ xs) = elim (back xs) [ none ↦ some x | some y ↦ some y ]

unfoldable pub latest_message : FrontendState → Str → Option FrontendMessage
unfolding timeline back frontend_message
latest_message s channel_id = elim (back (timeline s channel_id)) [
  | none ↦ none
  | some event ↦ frontend_message event
]

unfoldable pub messages : FrontendState → Str → List FrontendMessage
unfolding timeline frontend_message
messages s channel_id = filter_map frontend_message (timeline s channel_id)

unfoldable pub is_retired_channel : FrontendState → Str → Bool
unfolding any
is_retired_channel s channel_id = any (λ retired. str_eq retired channel_id) s.retired_channels
