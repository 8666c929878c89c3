-- ===== src/State/Retire.antt =====
-- src/state.rs: how topology events retire the timelines of channels and threads that disappear,
-- and lift the tombstones of those that come back.
use diddycord.Base.{
  ℕ, max, Bool, true, not, ◌&&◌, if◌then◌else◌, List, [], ◌∷◌, ◌++◌, none, some, Str, str_eq, leb,
  length, push_back, pop_front, any, retain, has, lacks, map,
}
use diddycord.Events.{
  FrontendChannel, FrontendEvent, FrontendGuildSnapshot, FrontendThread, FrontendThreadListSync,
  guild_create, guild_delete, channel_create, channel_delete, direct_channel_delete, thread_create,
  thread_update, thread_delete, thread_list_sync,
}
use diddycord.Topology.Cache.{
  TopologyState, channels, threads, threads_for_parent, channel_key, thread_key,
}
use diddycord.Topology.Ops.{is_active_in, parent_in}
use diddycord.State.Cache.{FrontendState, entry_key}

abbrev pub concat_map {ℓ κ} : {A : Type ℓ} {B : Type κ} → (A → List B) → List A → List B
concat_map f [] = []
concat_map f (x ∷ xs) = f x ++ concat_map f xs

abbrev pub channel_ids : List FrontendChannel → List Str
channel_ids = map channel_key

abbrev pub thread_ids : List FrontendThread → List Str
thread_ids = map thread_key

-- A channel and the active threads under it.
unfoldable pub with_threads : TopologyState → Str → Str → List Str
unfolding threads_for_parent
with_threads topology guild_id channel_id =
    channel_id ∷ thread_ids (threads_for_parent topology guild_id channel_id)

-- The arm `GuildCreate`: the cached channels that the snapshot no longer lists, with their threads.
unfoldable pub vanished : TopologyState → FrontendGuildSnapshot → List Str
unfolding channels with_threads any
vanished topology snapshot =
    concat_map
      (λ channel.
        if any (has channel_key channel.id) snapshot.channels
        then []
        else with_threads topology snapshot.id channel.id)
      (channels topology snapshot.id)

-- `in_scope` of the arm `ThreadListSync`.
unfoldable pub in_scope : FrontendThreadListSync → FrontendThread → Bool
unfolding parent_in
in_scope sync cached = elim sync.parent_channel_ids [
  | none ↦ true
  | some parent_ids ↦ parent_in parent_ids cached
]

-- `remains_active` of the arm `ThreadListSync`.
unfoldable pub remains_active : FrontendThreadListSync → FrontendThread → Bool
unfolding any is_active_in
remains_active sync cached =
    any (λ incoming. is_active_in sync.guild_id incoming && str_eq incoming.id cached.id)
      sync.threads

-- The ids that `invalidate_topology_timelines` collects.
unfoldable pub retired_by : TopologyState → FrontendEvent → List Str
unfolding vanished channels threads with_threads retain in_scope remains_active
retired_by topology (guild_create snapshot) =
    if snapshot.unavailable then [] else vanished topology snapshot
retired_by topology (guild_delete delete) =
    if delete.unavailable
    then []
    else channel_ids (channels topology delete.id) ++ thread_ids (threads topology delete.id)
retired_by topology (channel_delete delete) =
    with_threads topology delete.guild_id delete.channel_id
retired_by topology (direct_channel_delete delete) = delete.channel_id ∷ []
retired_by topology (thread_update thread) = if thread.archived then thread.id ∷ [] else []
retired_by topology (thread_delete delete) = delete.id ∷ []
retired_by topology (thread_list_sync sync) = thread_ids (
    retain (λ cached. in_scope sync cached && not (remains_active sync cached))
      (threads topology sync.guild_id))
retired_by topology _ = []

abbrev pub max_retired : FrontendState → ℕ
max_retired s = max s.max_channels 8

unfoldable pub retire_channel : FrontendState → Str → FrontendState
unfolding retain any
retire_channel s channel_id =
    let t = record s { channels = retain (lacks entry_key channel_id) s.channels } in
    if any (λ retired. str_eq retired channel_id) s.retired_channels then t else record t {
      retired_channels =
          push_back
            (if leb (max_retired s) (length s.retired_channels)
              then pop_front s.retired_channels
              else s.retired_channels)
            channel_id;
    }

unfoldable pub unretire_channel : FrontendState → Str → FrontendState
unfolding retain
unretire_channel s channel_id = record s {
  retired_channels = retain (λ retired. not (str_eq retired channel_id)) s.retired_channels;
}

unfoldable pub retire_all : FrontendState → List Str → FrontendState
unfolding retire_channel
retire_all s [] = s
retire_all s (id ∷ ids) = retire_all (retire_channel s id) ids

unfoldable pub unretire_all : FrontendState → List Str → FrontendState
unfolding unretire_channel
unretire_all s [] = s
unretire_all s (id ∷ ids) = unretire_all (unretire_channel s id) ids

unfoldable pub invalidate_topology_timelines : FrontendState → FrontendEvent → FrontendState
unfolding retired_by retire_all
invalidate_topology_timelines s event = retire_all s (retired_by s.topology event)

-- The ids whose tombstones `restore_topology_timelines` lifts.
unfoldable pub restored_by : FrontendEvent → List Str
unfolding retain is_active_in
restored_by (guild_create snapshot) =
    if snapshot.unavailable then [] else channel_ids snapshot.channels
restored_by (channel_create change) = change.channel.id ∷ []
restored_by (thread_create thread) = if thread.archived then [] else thread.id ∷ []
restored_by (thread_update thread) = if thread.archived then [] else thread.id ∷ []
restored_by (thread_list_sync sync) = thread_ids (retain (is_active_in sync.guild_id) sync.threads)
restored_by _ = []

unfoldable pub restore_topology_timelines : FrontendState → FrontendEvent → FrontendState
unfolding restored_by unretire_all
restore_topology_timelines s event = unretire_all s (restored_by event)
