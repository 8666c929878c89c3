-- ===== src/State/Restores.antt =====
-- The channels that come back to life, in src/state.rs.
use diddycord.Base.{
  str_eq_refl, ◌∙◌, ◌&&◌, if◌then◌else◌, ◌≡◌, refl, Bool, true, false, not, List, [], ◌∷◌, Str,
  str_eq, str_eq_iff, arith, any, retain, inl, inr, Bool-cases,
}
use diddycord.Events.{
  FrontendDirectChannel, direct_channel_create, direct_channel_update, FrontendEvent, guild_create,
  channel_create, thread_create, thread_update, thread_list_sync,
}
use diddycord.Base.Finds.{any-map, any-retain_and}
use diddycord.Topology.Ops
use diddycord.Topology.Ops.{is_active_in}
use diddycord.State.Cache.{FrontendState, is_retired_channel}
use diddycord.State.Retire.{
  unretire_channel, unretire_all, restored_by, restore_topology_timelines,
  invalidate_topology_timelines, retired_by, retire_all,
}
use diddycord.State.Ops.{apply, apply_rest_of}

-- The id is among the ids.
abbrev pub among : Str → List Str → Bool
among id = any (λ k. str_eq k id)

retain-among :
    (k id : Str) (ids : List Str)
    → among id (retain (λ r. not (str_eq r k)) ids) ≡ true
    → (str_eq k id ≡ false) × (among id ids ≡ true)
unfolding any retain
retain-among k id [] h = cc
retain-among k id (r ∷ ids) h =
    ground (arith, h, str_eq_iff r k, str_eq_iff r id, str_eq_iff k id, retain-among k id ids)

-- A tombstone that is left after some are lifted is not among them.
unretire_all-among :
    (s : FrontendState) (ids : List Str) (id : Str)
    → is_retired_channel (unretire_all s ids) id ≡ true
    → (among id ids ≡ false) × (is_retired_channel s id ≡ true)
unfolding unretire_all is_retired_channel unretire_channel any
unretire_all-among s [] id h = (refl, h)
unretire_all-among s (k ∷ ids) id h =
    let (absent, before) = unretire_all-among (unretire_channel s k) ids id h in
    let (other, still) = retain-among k id s.retired_channels before in
    (ground (arith, absent, other), still)

-- Each event that brings channels or threads back is the topology's.
restored_by-flag :
    (s : FrontendState) (event : FrontendEvent) (id : Str)
    → among id (restored_by event) ≡ true
    → (Ops.apply s.topology event).1 ≡ true
unfolding restored_by Ops.apply any
restored_by-flag s (guild_create snapshot) id h = refl
restored_by-flag s (channel_create change) id h = refl
restored_by-flag s (thread_create thread) id h = refl
restored_by-flag s (thread_update thread) id h = refl
restored_by-flag s (thread_list_sync sync) id h = refl
restored_by-flag s _ id h = cc

apply-restored_by :
    (s : FrontendState) (event : FrontendEvent) (id : Str)
    → among id (restored_by event) ≡ true
    → is_retired_channel (apply s event) id ≡ false
unfolding apply restore_topology_timelines
apply-restored_by s event id h =
    let t = invalidate_topology_timelines s event in
    let u : FrontendState = record t { topology = (Ops.apply t.topology event).0 } in
    elim (Bool-cases (is_retired_channel (unretire_all u (restored_by event)) id)) [
      | inl left ↦ absurd (ground (arith, h, unretire_all-among u (restored_by event) id left))
      | inr gone ↦ rw (restored_by-flag t event id h) gone
    ]

apply-unretire_channel :
    (s : FrontendState) (c : FrontendDirectChannel) (id : Str)
    → str_eq c.id id ≡ true
    → (is_retired_channel (apply s (direct_channel_create c)) id ≡ false)
      × (is_retired_channel (apply s (direct_channel_update c)) id ≡ false)
unfolding apply invalidate_topology_timelines retired_by retire_all Ops.apply apply_rest_of
    unretire_channel is_retired_channel
apply-unretire_channel s c id same =
    elim (Bool-cases (among id (retain (λ r. not (str_eq r c.id)) s.retired_channels))) [
      | inl left ↦ absurd (ground (arith, same, retain-among c.id id s.retired_channels left))
      | inr gone ↦ (gone, gone)
    ]

-- The event shows that the channel or thread with the id exists: in the snapshot of an available
-- guild, as a created channel, as a thread that is not archived, or as a direct channel.
abbrev pub restores : FrontendEvent → Str → Bool
restores (guild_create snapshot) id =
    not snapshot.unavailable && any (λ c. str_eq c.id id) snapshot.channels
restores (channel_create change) id = str_eq change.channel.id id
restores (thread_create thread) id = not thread.archived && str_eq thread.id id
restores (thread_update thread) id = not thread.archived && str_eq thread.id id
restores (thread_list_sync sync) id =
    any (λ t. (not t.archived && str_eq t.guild_id sync.guild_id) && str_eq t.id id) sync.threads
restores (direct_channel_create c) id = str_eq c.id id
restores (direct_channel_update c) id = str_eq c.id id
restores _ id = false

unless :
    (b : Bool) (id k : Str)
    → (not b && str_eq k id) ≡ true
    → among id (if b then [] else k ∷ []) ≡ true
unfolding any
unless b id k h = ground (arith, h)

-- A channel or thread that an event brings is no longer retired afterwards, even if the same event
-- retires it on the way: the channels of an available guild's snapshot, a created channel, a
-- created or updated direct channel, and each thread that a creation, an update or a sync of its
-- guild shows as active.
pub apply-restores :
    (s : FrontendState) (event : FrontendEvent) (id : Str)
    → restores event id ≡ true
    → is_retired_channel (apply s event) id ≡ false
unfolding restored_by any is_active_in
apply-restores s (guild_create snapshot) id h =
    apply-restored_by s (guild_create snapshot) id
      (ground (arith, h, any-map (λ r. str_eq r id) (λ c. c.id) snapshot.channels))
apply-restores s (channel_create change) id h =
    apply-restored_by s (channel_create change) id (ground (arith, h))
apply-restores s (thread_create t) id h =
    apply-restored_by s (thread_create t) id (unless t.archived id t.id h)
apply-restores s (thread_update t) id h =
    apply-restored_by s (thread_update t) id (unless t.archived id t.id h)
apply-restores s (thread_list_sync sync) id h = apply-restored_by s (thread_list_sync sync) id (
    any-map (λ r. str_eq r id) (λ t. t.id) (retain (is_active_in sync.guild_id) sync.threads)
    ∙ any-retain_and (is_active_in sync.guild_id) (λ t. str_eq t.id id) sync.threads
    ∙ h)
apply-restores s (direct_channel_create c) id h = (apply-unretire_channel s c id h).0
apply-restores s (direct_channel_update c) id h = (apply-unretire_channel s c id h).1
apply-restores s _ id h = absurd cc

-- A direct channel that is created or updated is live again.
pub direct_update-restores :
    (s : FrontendState) (c : FrontendDirectChannel)
    → is_retired_channel (apply s (direct_channel_update c)) c.id ≡ false
direct_update-restores s c = apply-restores s (direct_channel_update c) c.id (str_eq_refl c.id)
