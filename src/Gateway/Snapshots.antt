-- ===== src/Gateway/Snapshots.antt =====
-- What the cache of src/topology.rs holds after the dispatch of a guild.
use diddycord.Base.{◌≡◌, List, some, foldl, map, take, retain}
use diddycord.Events.{FrontendEvent, FrontendGuildSnapshot, FrontendThread}
use diddycord.Topology.Cache.{CachedGuild, TopologyState, find_guild, channels, threads}
use diddycord.Topology.Ops.{apply, is_active_in}
use diddycord.Gateway.Payloads.{GuildCreate}
use diddycord.Gateway.Emits.{frontend_guild_thread}

-- What a guild's snapshot leaves in the cache: the guild with the first channels of the snapshot, and
-- the limits.
abbrev Placed : TopologyState → FrontendGuildSnapshot → TopologyState → Type 0
Placed s snapshot t =
    (g : CachedGuild) × (find_guild t snapshot.id ≡ some g)
    × (g.channels ≡ take s.max_channels_per_guild snapshot.channels)
    × (t.max_threads_per_guild ≡ s.max_threads_per_guild)

-- The threads of the payload that are not archived.
abbrev pub active_threads : GuildCreate → List FrontendThread
active_threads g = retain (is_active_in g.id) (map (frontend_guild_thread g.id) g.threads)

abbrev pub apply_all : TopologyState → List FrontendEvent → TopologyState
apply_all = foldl (λ s event. (apply s event).0)
