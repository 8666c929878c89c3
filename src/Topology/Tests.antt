-- ===== src/Topology/Tests.antt =====
-- The topology of src/topology.rs at concrete states and events.
use diddycord.Base.{
  not, if◌then◌else◌, ◌≡◌, refl, true, false, [], ◌∷◌, none, some, Str, bytes, pos, str_eq, any,
  find, retain, has, arith,
}
use diddycord.Events.{
  FrontendChannel, FrontendChannelDelete, FrontendGuildDelete, FrontendGuildSnapshot,
  FrontendThread, FrontendThreadDelete, FrontendThreadListSync, guild_create, guild_delete,
  channel_delete, thread_update, thread_delete, thread_list_sync,
}
use diddycord.Topology.Cache.{
  CachedGuild, TopologyState, thread_key, find_guild, channels, thread, threads,
}
use diddycord.Topology.Ops.{apply, is_active_in}
use diddycord.Topology.Valid.{IsValid}
use diddycord.Topology.Handlers.{apply-IsValid}
use diddycord.Topology.Frame.{apply-find_other}
use diddycord.Topology.Removals.{under, removals-reads}
use diddycord.Topology.Sync.{listed, outside, apply_thread_list_sync-threads}

abbrev one : Str
one = bytes "1"

abbrev two : Str
two = bytes "2"

abbrev general : FrontendChannel
general = record {
  id = bytes "11";
  name = some (bytes "general");
  kind = 0;
  position = pos 0;
  parent_id = none;
}

abbrev random : FrontendChannel
random = record general { id = bytes "12"; name = some (bytes "random") }

abbrev topic : FrontendThread
topic = record {
  id = bytes "21";
  guild_id = one;
  parent_id = some (bytes "11");
  name = none;
  kind = 11;
  archived = false;
  locked = false;
}

abbrev side : FrontendThread
side = record topic { id = bytes "22" }

abbrev first : CachedGuild
first = record {
  id = one;
  name = bytes "first";
  unavailable = false;
  channels = general ∷ [];
  threads = topic ∷ [];
  touched = 1;
}

-- A cache with room for one guild, which has room for one channel and two threads.
abbrev state : TopologyState
state = record {
  guilds = first ∷ [];
  max_guilds = 1;
  max_channels_per_guild = 1;
  max_threads_per_guild = 2;
  clock = 1;
  dropped_items = 0;
}

state-IsValid : IsValid state
unfolding any str_eq
state-IsValid = record {
  limit = omega arith;
  guild_room = omega arith;
  guild_ids = (refl, tt);
  fit = (
    record {
      channel_room = omega arith;
      thread_room = omega arith;
      thread_ids = (refl, tt);
      own_threads = ((refl, refl), tt);
      past = omega arith;
    },
    tt,
  );
  clock_range = omega arith;
  dropped_range = omega arith;
}

abbrev newcomer : FrontendGuildSnapshot
newcomer = record {
  id = two;
  name = bytes "second";
  unavailable = false;
  channels = general ∷ random ∷ [];
}

-- The newcomer evicts the first guild, and one of its channels is dropped.
newcomer_evicts :
    let t = (apply state (guild_create newcomer)).0 in
    (find_guild t one ≡ none) × (channels t two ≡ general ∷ []) × (t.dropped_items ≡ 4)
unfolding apply find channels str_eq
newcomer_evicts = (refl, refl, refl)

apply-IsValid_example : IsValid (apply state (guild_create newcomer)).0
apply-IsValid_example = apply-IsValid state (guild_create newcomer) state-IsValid

apply-find_other_example :
    find_guild (apply state (guild_delete (record { id = two; unavailable = false }))).0 one
    ≡ find_guild state one
unfolding str_eq
apply-find_other_example =
    apply-find_other state (guild_delete (record { id = two; unavailable = false })) one refl
      (λ h. h)

abbrev gone : FrontendGuildDelete
gone = record { id = one; unavailable = false }

abbrev no_general : FrontendChannelDelete
no_general = record { guild_id = one; channel_id = bytes "11" }

abbrev no_topic : FrontendThreadDelete
no_topic = record { id = bytes "21"; guild_id = one; parent_id = none }

abbrev archived_topic : FrontendThread
archived_topic = record topic { archived = true }

abbrev sync : FrontendThreadListSync
sync = record { guild_id = one; parent_channel_ids = none; threads = side ∷ archived_topic ∷ [] }

removals-reads_example :
    let g = (apply state (guild_delete gone)).0 in
    let c = (apply state (channel_delete no_general)).0 in
    let t = (apply state (thread_delete no_topic)).0 in
    let a = (apply state (thread_update archived_topic)).0 in
    let y = (apply state (thread_list_sync sync)).0 in
    let id = bytes "21" in
    (channels g one ≡ (if false then channels state one else []))
    × (threads g one ≡ (if false then threads state one else []))
    × (channels c one ≡ retain (λ k. not (str_eq k.id (bytes "11"))) (channels state one))
    × (threads c one ≡ retain (λ k. not (under (bytes "11") k)) (threads state one))
    × (channels t one ≡ channels state one)
    × (threads t one ≡ retain (λ k. not (str_eq k.id id)) (threads state one))
    × (channels a one ≡ channels state one)
    × (threads a one ≡ retain (λ k. not (str_eq k.id id)) (threads state one))
    × (channels y one ≡ channels state one)
    × (thread y one id ≡ find (has thread_key id) (retain (outside none) (threads state one)))
unfolding any str_eq retain is_active_in
removals-reads_example =
    removals-reads state gone no_general no_topic archived_topic sync (bytes "21") refl refl

apply_thread_list_sync-threads_example :
    let t = (apply state (thread_list_sync sync)).0 in
    (threads t one ≡ listed sync) × (t.dropped_items ≡ 0)
unfolding any find str_eq retain is_active_in
apply_thread_list_sync-threads_example =
    apply_thread_list_sync-threads state sync first refl refl (refl, tt) (omega arith)
