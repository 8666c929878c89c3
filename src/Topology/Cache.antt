-- ===== src/Topology/Cache.antt =====
-- src/topology.rs: the bounded cache of guilds with their channels and active threads; its data,
-- its constructors and its read methods. The capacity hints of `Vec::with_capacity` have no effect.
-- The counters are `u64` and saturate; lengths are `usize`.
use diddycord.Base.{
  ℕ, max, Bool, false, List, [], Option, none, some, Str, str_eq, length, find, retain, has, map,
}
use diddycord.Events.{FrontendChannel, FrontendThread}

abbrev pub default_max_guilds : ℕ
default_max_guilds = 256

abbrev pub default_max_channels_per_guild : ℕ
default_max_channels_per_guild = 512

abbrev pub default_max_threads_per_guild : ℕ
default_max_threads_per_guild = 512

pub record GuildRef : Type 0 where
  pub id : Str
  pub name : Str
  pub unavailable : Bool
  pub channel_count : ℕ
  pub thread_count : ℕ

pub record CachedGuild : Type 0 where
  pub id : Str
  pub name : Str
  pub unavailable : Bool
  pub channels : List FrontendChannel
  pub threads : List FrontendThread
  pub touched : ℕ

pub record TopologyState : Type 0 where
  pub guilds : List CachedGuild
  pub max_guilds : ℕ
  pub max_channels_per_guild : ℕ
  pub max_threads_per_guild : ℕ
  pub clock : ℕ
  pub dropped_items : ℕ

unfoldable pub with_limits : ℕ → ℕ → ℕ → TopologyState
with_limits max_guilds max_channels_per_guild max_threads_per_guild = record {
  guilds = [];
  max_guilds = max max_guilds 1;
  max_channels_per_guild = max max_channels_per_guild 1;
  max_threads_per_guild = max max_threads_per_guild 1;
  clock = 0;
  dropped_items = 0;
}

unfoldable pub new : ℕ → ℕ → TopologyState
unfolding with_limits
new max_guilds max_channels_per_guild =
    with_limits max_guilds max_channels_per_guild max_channels_per_guild

unfoldable pub default : TopologyState
unfolding with_limits
default =
    with_limits default_max_guilds default_max_channels_per_guild default_max_threads_per_guild

-- The keys by which the cache searches.
abbrev pub guild_key : CachedGuild → Str
guild_key g = g.id

abbrev pub channel_key : FrontendChannel → Str
channel_key c = c.id

abbrev pub thread_key : FrontendThread → Str
thread_key t = t.id

abbrev pub has_guild : Str → CachedGuild → Bool
has_guild id = has guild_key id

abbrev pub find_guild : TopologyState → Str → Option CachedGuild
find_guild s guild_id = find (has_guild guild_id) s.guilds

unfoldable pub guild_ref : CachedGuild → GuildRef
guild_ref g = record {
  id = g.id;
  name = g.name;
  unavailable = g.unavailable;
  channel_count = length g.channels;
  thread_count = length g.threads;
}

unfoldable pub guild_count : TopologyState → ℕ
guild_count s = length s.guilds

unfoldable pub guild : TopologyState → Str → Option GuildRef
unfolding find
guild s guild_id = elim (find_guild s guild_id) [ none ↦ none | some g ↦ some (guild_ref g) ]

unfoldable pub guilds : TopologyState → List GuildRef
unfolding guild_ref
guilds s = map guild_ref s.guilds

unfoldable pub channels : TopologyState → Str → List FrontendChannel
channels s guild_id = elim (find_guild s guild_id) [ none ↦ [] | some g ↦ g.channels ]

unfoldable pub channel : TopologyState → Str → Str → Option FrontendChannel
channel s guild_id channel_id = elim (find_guild s guild_id) [
  | none ↦ none
  | some g ↦ find (has channel_key channel_id) g.channels
]

unfoldable pub threads : TopologyState → Str → List FrontendThread
threads s guild_id = elim (find_guild s guild_id) [ none ↦ [] | some g ↦ g.threads ]

-- `thread.parent_id.as_deref() == Some(parent)`.
unfoldable pub has_parent : Str → FrontendThread → Bool
has_parent parent t = elim t.parent_id [ none ↦ false | some id ↦ str_eq id parent ]

unfoldable pub threads_for_parent : TopologyState → Str → Str → List FrontendThread
unfolding threads has_parent
threads_for_parent s guild_id parent_channel_id =
    retain (has_parent parent_channel_id) (threads s guild_id)

unfoldable pub thread : TopologyState → Str → Str → Option FrontendThread
thread s guild_id thread_id = elim (find_guild s guild_id) [
  | none ↦ none
  | some g ↦ find (has thread_key thread_id) g.threads
]
