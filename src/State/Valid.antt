-- ===== src/State/Valid.antt =====
-- The invariant of src/state.rs.
use diddycord.Base.{
  ℕ, ◌≤◌, ◌<◌, ◌≡◌, Bool, true, false, List, [], Str, str_eq, length, All, any, Distinct,
}
use diddycord.Events.{FrontendEvent, message}
use diddycord.Topology.Valid
use diddycord.State.Cache.{Entry, FrontendState, entry_key}
use diddycord.State.Retire.{max_retired}

abbrev pub event_id : FrontendEvent → Str
event_id (message m) = m.id
event_id _ = []

-- A cached event is a message of its channel.
abbrev pub IsMessageOf : Str → FrontendEvent → Type 0
IsMessageOf channel_id (message m) = str_eq m.channel_id channel_id ≡ true
IsMessageOf channel_id _ = ⊥

-- A timeline: within its limit, messages of one channel only, no two with one id.
pub record IsTimeline (limit : ℕ) (channel_id : Str) (events : List FrontendEvent) : Type 0 where
  pub room : length events ≤ limit
  pub ids : Distinct event_id events
  pub own : All (IsMessageOf channel_id) events

abbrev pub retired : FrontendState → Str → Bool
retired s id = any (λ r. str_eq r id) s.retired_channels

-- No timeline is cached for a retired channel.
abbrev pub IsLive : List Str → Entry → Type 0
IsLive ids e = any (λ r. str_eq r e.0) ids ≡ false

abbrev pub FitsEntry : ℕ → Entry → Type 0
FitsEntry limit e = IsTimeline limit e.0 e.1.messages

pub record IsValid (s : FrontendState) : Type 0 where
  pub channel_limit : 0 < s.max_channels
  pub message_limit : 0 < s.max_messages_per_channel
  pub channel_room : length s.channels ≤ s.max_channels
  pub channel_ids : Distinct entry_key s.channels
  pub timelines : All (FitsEntry s.max_messages_per_channel) s.channels
  pub live : All (IsLive s.retired_channels) s.channels
  pub retired_room : length s.retired_channels ≤ max_retired s
  pub topology : Valid.IsValid s.topology
