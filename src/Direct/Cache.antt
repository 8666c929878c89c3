-- ===== src/Direct/Cache.antt =====
-- src/gateway/direct.rs: `DirectTopologyState`. A method on `&mut self` returns the new state. The
-- counters are `u64` and saturate. The capacity hint of `Vec::with_capacity` has no effect.
use diddycord.Base.{
  ℕ, ◌+◌, max, Bool, true, false, if◌then◌else◌, List, [], ◌∷◌, Option, none, some, Str, leb, ltb,
  length, push_back, any, find, retain, modify_first, has, lacks, sat_add, map,
}
use diddycord.Base.Oldest.{oldest, remove_at}
use diddycord.Events.{
  FrontendDirectChannel, FrontendEvent, message, message_update, message_delete,
  direct_channel_create, direct_channel_update, direct_channel_delete,
}
use diddycord.State.Drain.{Received, received, lagged, empty, closed}

abbrev pub default_max_direct_channels : ℕ
default_max_direct_channels = 64

pub record DirectDrainReport : Type 0 where
  pub processed : ℕ
  pub direct_events : ℕ
  pub lagged : ℕ
  pub closed : Bool

pub record CachedDirectChannel : Type 0 where
  pub channel : FrontendDirectChannel
  pub touched : ℕ

pub record DirectTopologyState : Type 0 where
  pub channels : List CachedDirectChannel
  pub max_channels : ℕ
  pub clock : ℕ
  pub dropped_items : ℕ
  pub dropped_gateway_events : ℕ

abbrev pub direct_key : CachedDirectChannel → Str
direct_key c = c.channel.id

abbrev pub has_direct : Str → CachedDirectChannel → Bool
has_direct id = has direct_key id

unfoldable pub new : ℕ → DirectTopologyState
new max_channels = record {
  channels = [];
  max_channels = max max_channels 1;
  clock = 0;
  dropped_items = 0;
  dropped_gateway_events = 0;
}

unfoldable pub channel_count : DirectTopologyState → ℕ
channel_count s = length s.channels

unfoldable pub channels : DirectTopologyState → List FrontendDirectChannel
channels s = map (λ (c : CachedDirectChannel). c.channel) s.channels

unfoldable pub channel : DirectTopologyState → Str → Option FrontendDirectChannel
unfolding find
channel s channel_id = elim (find (has_direct channel_id) s.channels) [
  | none ↦ none
  | some c ↦ some c.channel
]

-- `global_name.or(username)`.
unfoldable pub display_name : FrontendDirectChannel → Option Str
display_name c = elim c.recipient_global_name [
  | none ↦ c.recipient_username
  | some name ↦ some name
]

unfoldable pub evict_least_recently_used : DirectTopologyState → DirectTopologyState
unfolding oldest remove_at
evict_least_recently_used s = elim (oldest (λ (c : CachedDirectChannel). c.touched) s.channels) [
  | none ↦ s
  | some (index, c) ↦ record s {
    channels = remove_at index s.channels;
    dropped_items = sat_add s.dropped_items 1;
  }
]

-- The cache after the clock has advanced to the stamp `touched`.
unfoldable pub insert_channel :
    DirectTopologyState → FrontendDirectChannel → ℕ → DirectTopologyState
unfolding evict_least_recently_used
insert_channel s c touched =
    let room = if leb s.max_channels (length s.channels) then evict_least_recently_used s else s in
    record room { channels = push_back room.channels (record { channel = c; touched = touched }) }

unfoldable pub upsert : DirectTopologyState → FrontendDirectChannel → DirectTopologyState
unfolding any modify_first insert_channel
upsert s c =
    let touched = sat_add s.clock 1 in
    let t = record s { clock = touched } in
    if any (has_direct c.id) s.channels
    then record t {
      channels =
          modify_first (has_direct c.id) (λ _. record { channel = c; touched = touched })
            s.channels;
    }
    else insert_channel t c touched

-- The flag says that the channel is cached.
unfoldable pub touch : DirectTopologyState → Str → DirectTopologyState × Bool
unfolding any modify_first
touch s channel_id =
    let touched = sat_add s.clock 1 in
    if any (has_direct channel_id) s.channels
    then (
      record s {
        clock = touched;
        channels =
            modify_first (has_direct channel_id) (λ c. record c { touched = touched }) s.channels;
      },
      true,
    )
    else (s, false)

-- The flag says that the event concerned a direct channel.
unfoldable pub apply : DirectTopologyState → FrontendEvent → DirectTopologyState × Bool
unfolding upsert touch retain
apply s (direct_channel_create c) = (upsert s c, true)
apply s (direct_channel_update c) = (upsert s c, true)
apply s (direct_channel_delete delete) =
    (record s { channels = retain (lacks direct_key delete.channel_id) s.channels }, true)
apply s (message m) = touch s m.channel_id
apply s (message_update update) = touch s update.channel_id
apply s (message_delete delete) = touch s delete.channel_id
apply s _ = (s, false)

abbrev pub no_direct_report : DirectDrainReport
no_direct_report = record { processed = 0; direct_events = 0; lagged = 0; closed = false }

-- The loop of `drain`, over what `try_recv` answers, call by call; the end of the list stands for
-- `Empty`.
unfoldable pub drain_loop :
    ℕ
    → DirectTopologyState
    → DirectDrainReport
    → List (Received FrontendEvent)
    → DirectTopologyState × DirectDrainReport
unfolding apply
drain_loop budget s r [] = (s, r)
drain_loop budget s r (answer ∷ answers) = elim (ltb r.processed budget) [
  | false ↦ (s, r)
  | true ↦ elim answer [
    | received event ↦
        drain_loop budget (apply s event).0
          (record r {
            processed = r.processed + 1;
            direct_events = if (apply s event).1 then r.direct_events + 1 else r.direct_events;
          })
          answers
    | lagged skipped ↦
        drain_loop budget
          (record s { dropped_gateway_events = sat_add s.dropped_gateway_events skipped })
          (record r { lagged = sat_add r.lagged skipped }) answers
    | empty ↦ (s, r)
    | closed ↦ (s, record r { closed = true })
  ]
]

unfoldable pub drain :
    DirectTopologyState
    → List (Received FrontendEvent)
    → ℕ
    → DirectTopologyState × DirectDrainReport
unfolding drain_loop
drain s answers budget = drain_loop budget s no_direct_report answers
