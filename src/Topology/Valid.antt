-- ===== src/Topology/Valid.antt =====
-- The invariant of src/topology.rs.
use diddycord.Base.{ℕ, ◌≤◌, ◌<◌, ◌≡◌, true, false, Str, str_eq, u64_max, length, All, Distinct}
use diddycord.Events.{FrontendThread}
use diddycord.Topology.Cache.{CachedGuild, TopologyState, guild_key, thread_key}

-- A thread that a guild caches is one of its own, and active.
abbrev pub BelongsTo : Str → FrontendThread → Type 0
BelongsTo guild_id t = (str_eq t.guild_id guild_id ≡ true) × (t.archived ≡ false)

-- What holds of a cached guild, under the limits on its channels and threads and at a clock.
pub record IsFit (max_channels max_threads clock : ℕ) (g : CachedGuild) : Type 0 where
  pub channel_room : length g.channels ≤ max_channels
  pub thread_room : length g.threads ≤ max_threads
  pub thread_ids : Distinct thread_key g.threads
  pub own_threads : All (BelongsTo g.id) g.threads
  pub past : g.touched ≤ clock

pub record IsValid (s : TopologyState) : Type 0 where
  pub limit : 0 < s.max_guilds
  pub guild_room : length s.guilds ≤ s.max_guilds
  pub guild_ids : Distinct guild_key s.guilds
  pub fit : All (IsFit s.max_channels_per_guild s.max_threads_per_guild s.clock) s.guilds
  pub clock_range : s.clock ≤ u64_max
  pub dropped_range : s.dropped_items ≤ u64_max
