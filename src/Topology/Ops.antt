-- ===== src/Topology/Ops.antt =====
-- src/topology.rs: the methods of `TopologyState` that apply gateway events. A method on `&mut self`
-- returns the new state. `iter_mut().find(..)` followed by writes is `modify_first` with those
-- writes.
use diddycord.Base.{
  ℕ, Bool, true, false, not, ◌&&◌, if◌then◌else◌, List, [], ◌∷◌, Option, none, some, Str, str_eq,
  any, find, retain, modify_first, lacks,
}
use diddycord.Events.{
  FrontendChannelChange, FrontendChannelDelete, FrontendEvent, FrontendGuildDelete, FrontendThread,
  FrontendThreadDelete, FrontendThreadListSync, guild_create, guild_update, guild_delete,
  channel_create, channel_update, channel_delete, thread_create, thread_update, thread_delete,
  thread_list_sync,
}
use diddycord.Topology.Cache.{
  CachedGuild, TopologyState, guild_key, channel_key, thread_key, has_guild, find_guild, has_parent,
}
use diddycord.Topology.Guilds.{
  tick, modify_guild, upsert, count_drop, apply_guild_snapshot, apply_guild_update,
  mark_guild_unavailable,
}

unfoldable pub apply_channel_change : TopologyState → FrontendChannelChange → TopologyState
unfolding find modify_first upsert
apply_channel_change s change =
    let touched = tick s.clock in
    let place =
      λ (g : CachedGuild). upsert channel_key s.max_channels_per_guild change.channel g.channels in
    elim (find_guild s change.guild_id) [
      | none ↦ s
      | some g ↦
          modify_guild change.guild_id (λ g. record g { touched = touched; channels = (place g).0 })
            (record s { clock = touched; dropped_items = count_drop (place g).1 s.dropped_items })
    ]

-- The threads of a guild after a thread was created or updated, and whether it was dropped.
unfoldable pub place_thread : ℕ → FrontendThread → List FrontendThread → List FrontendThread × Bool
unfolding retain upsert
place_thread limit thread cached =
    if thread.archived
    then (retain (lacks thread_key thread.id) cached, false)
    else upsert thread_key limit thread cached

unfoldable pub apply_thread_change : TopologyState → FrontendThread → TopologyState
unfolding find modify_first place_thread
apply_thread_change s thread =
    let touched = tick s.clock in
    let place = λ (g : CachedGuild). place_thread s.max_threads_per_guild thread g.threads in
    elim (find_guild s thread.guild_id) [
      | none ↦ s
      | some g ↦
          modify_guild thread.guild_id (λ g. record g { touched = touched; threads = (place g).0 })
            (record s { clock = touched; dropped_items = count_drop (place g).1 s.dropped_items })
    ]

-- `parent_ids.iter().any(|id| id == parent_id)` for a thread that has a parent.
unfoldable pub parent_in : List Str → FrontendThread → Bool
unfolding any
parent_in parent_ids thread = elim thread.parent_id [
  | none ↦ false
  | some parent ↦ any (λ id. str_eq id parent) parent_ids
]

-- The threads that a sync leaves cached: those outside its scope.
unfoldable pub clear_scope : Option (List Str) → List FrontendThread → List FrontendThread
unfolding retain parent_in
clear_scope none cached = []
clear_scope (some parent_ids) cached = retain (λ t. not (parent_in parent_ids t)) cached

-- The filter of the loop over the threads of the sync.
unfoldable pub is_active_in : Str → FrontendThread → Bool
is_active_in guild_id thread = not thread.archived && str_eq thread.guild_id guild_id

-- The loop, over the cached threads and `dropped_items`.
unfoldable pub sync_threads :
    ℕ → List FrontendThread → List FrontendThread → ℕ → List FrontendThread × ℕ
unfolding upsert
sync_threads limit [] cached dropped = (cached, dropped)
sync_threads limit (t ∷ ts) cached dropped =
    let r = upsert thread_key limit t cached in sync_threads limit ts r.0 (count_drop r.1 dropped)

unfoldable pub sync_guild : ℕ → FrontendThreadListSync → CachedGuild → ℕ → List FrontendThread × ℕ
unfolding retain clear_scope is_active_in sync_threads
sync_guild limit sync g dropped =
    sync_threads limit (retain (is_active_in g.id) sync.threads)
      (clear_scope sync.parent_channel_ids g.threads) dropped

unfoldable pub apply_thread_list_sync : TopologyState → FrontendThreadListSync → TopologyState
unfolding find modify_first sync_guild
apply_thread_list_sync s sync =
    let touched = tick s.clock in
    let place = λ (g : CachedGuild). sync_guild s.max_threads_per_guild sync g s.dropped_items in
    elim (find_guild s sync.guild_id) [
      | none ↦ s
      | some g ↦
          modify_guild sync.guild_id (λ g. record g { touched = touched; threads = (place g).0 })
            (record s { clock = touched; dropped_items = (place g).1 })
    ]

-- The arm `GuildDelete` of `apply`.
unfoldable pub apply_guild_delete : TopologyState → FrontendGuildDelete → TopologyState
unfolding retain mark_guild_unavailable
apply_guild_delete s delete =
    if delete.unavailable
    then mark_guild_unavailable s delete.id
    else record s { guilds = retain (lacks guild_key delete.id) s.guilds }

-- The arm `ChannelDelete`.
unfoldable pub apply_channel_delete : TopologyState → FrontendChannelDelete → TopologyState
unfolding any retain modify_first has_parent
apply_channel_delete s delete =
    let touched = tick s.clock in
    if any (has_guild delete.guild_id) s.guilds
    then modify_guild delete.guild_id
        (λ g. record g {
          channels = retain (lacks channel_key delete.channel_id) g.channels;
          threads = retain (λ t. not (has_parent delete.channel_id t)) g.threads;
          touched = touched;
        })
        (record s { clock = touched })
    else s

-- The arm `ThreadDelete`.
unfoldable pub apply_thread_delete : TopologyState → FrontendThreadDelete → TopologyState
unfolding any retain modify_first
apply_thread_delete s delete =
    let touched = tick s.clock in
    if any (has_guild delete.guild_id) s.guilds
    then modify_guild delete.guild_id
        (λ g. record g {
          threads = retain (lacks thread_key delete.id) g.threads;
          touched = touched;
        })
        (record s { clock = touched })
    else s

-- The flag says that the event was one of the topology's.
unfoldable pub apply : TopologyState → FrontendEvent → TopologyState × Bool
unfolding apply_guild_snapshot apply_guild_update apply_guild_delete apply_channel_change
    apply_channel_delete apply_thread_change apply_thread_delete apply_thread_list_sync
apply s (guild_create snapshot) = (apply_guild_snapshot s snapshot, true)
apply s (guild_update update) = (apply_guild_update s update, true)
apply s (guild_delete delete) = (apply_guild_delete s delete, true)
apply s (channel_create change) = (apply_channel_change s change, true)
apply s (channel_update change) = (apply_channel_change s change, true)
apply s (channel_delete delete) = (apply_channel_delete s delete, true)
apply s (thread_create t) = (apply_thread_change s t, true)
apply s (thread_update t) = (apply_thread_change s t, true)
apply s (thread_delete delete) = (apply_thread_delete s delete, true)
apply s (thread_list_sync sync) = (apply_thread_list_sync s sync, true)
apply s _ = (s, false)
