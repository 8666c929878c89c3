-- ===== src/State/Loses.antt =====
-- Which channels and threads an event of src/state.rs says are gone, and that these are the ones that
-- are retired.
use diddycord.Base.{
  ◌≡◌, refl, ap, ◌∙◌, Bool, true, false, not, ◌&&◌, ◌||◌, if◌then◌else◌, List, [], ◌∷◌, none, some,
  Str, str_eq, arith, any, retain,
}
use diddycord.Base.Search.{any-append}
use diddycord.Base.Finds.{any-map, any-retain_and}
use diddycord.Events.{
  FrontendChannel, FrontendGuildSnapshot, FrontendThread, FrontendEvent, guild_create, guild_delete,
  channel_delete, direct_channel_delete, thread_update, thread_delete, thread_list_sync,
}
use diddycord.Topology.Cache.{TopologyState, channels, threads, threads_for_parent, has_parent}
use diddycord.Topology.Ops.{is_active_in, parent_in}
use diddycord.State.Retire.{
  concat_map, channel_ids, thread_ids, with_threads, vanished, in_scope, remains_active, retired_by,
}

-- The thread with the id, if it stands under the parent.
abbrev pub under : Str → Str → FrontendThread → Bool
under id parent t =
    elim t.parent_id as (λ _. Bool) [ none ↦ false | some p ↦ str_eq p parent ] && str_eq t.id id

-- The channel, or a cached thread of the guild under it, has the id.
abbrev pub goes_with : TopologyState → Str → Str → Str → Bool
goes_with topology guild_id id channel_id =
    str_eq channel_id id || any (under id channel_id) (threads topology guild_id)

-- The event says that the channel or thread with the id is no longer there, or no longer active.
abbrev pub loses : TopologyState → FrontendEvent → Str → Bool
loses topology (guild_create snapshot) id =
    not snapshot.unavailable
    && any
        (λ c.
          not (any (λ k. str_eq k.id c.id) snapshot.channels)
          && goes_with topology snapshot.id id c.id)
        (channels topology snapshot.id)
loses topology (guild_delete delete) id =
    not delete.unavailable
    && (any (λ c. str_eq c.id id) (channels topology delete.id)
        || any (λ t. str_eq t.id id) (threads topology delete.id))
loses topology (channel_delete delete) id = goes_with topology delete.guild_id id delete.channel_id
loses topology (direct_channel_delete delete) id = str_eq delete.channel_id id
loses topology (thread_update t) id = t.archived && str_eq t.id id
loses topology (thread_delete delete) id = str_eq delete.id id
loses topology (thread_list_sync sync) id =
    any
      (λ t.
        (elim sync.parent_channel_ids as (λ _. Bool) [
          | none ↦ true
          | some ids ↦ elim t.parent_id as (λ _. Bool) [
            | none ↦ false
            | some parent ↦ any (λ k. str_eq k parent) ids
          ]
        ]
          && not (
              any (λ u. (not u.archived && str_eq u.guild_id sync.guild_id) && str_eq u.id t.id)
                sync.threads))
        && str_eq t.id id)
      (threads topology sync.guild_id)
loses topology _ id = false

with_threads_lem :
    (topology : TopologyState) (guild_id id channel_id : Str)
    → any (λ r. str_eq r id) (with_threads topology guild_id channel_id)
      ≡ goes_with topology guild_id id channel_id
unfolding with_threads threads_for_parent has_parent any
with_threads_lem topology guild_id id channel_id =
    let ts = threads topology guild_id in
    ap (◌||◌ (str_eq channel_id id)) (
      any-map (λ r. str_eq r id) (λ (t : FrontendThread). t.id) (retain (has_parent channel_id) ts)
      ∙ any-retain_and (has_parent channel_id) (λ t. str_eq t.id id) ts)

any-concat_map {ℓ κ} :
    {A : Type ℓ} {B : Type κ} (p : B → Bool) (f : A → List B) (xs : List A)
    → any p (concat_map f xs) ≡ any (λ x. any p (f x)) xs
unfolding any
any-concat_map p f [] = refl
any-concat_map p f (x ∷ xs) =
    any-append p (f x) (concat_map f xs) ∙ ap (◌||◌ (any p (f x))) (any-concat_map p f xs)

vanished_lem :
    (topology : TopologyState) (snapshot : FrontendGuildSnapshot) (id : Str)
    → any (λ r. str_eq r id) (vanished topology snapshot)
      ≡ any
          (λ c.
            not (any (λ k. str_eq k.id c.id) snapshot.channels)
            && goes_with topology snapshot.id id c.id)
          (channels topology snapshot.id)
unfolding vanished any
vanished_lem topology snapshot id =
    any-concat_map (λ r. str_eq r id) _ (channels topology snapshot.id)
    ∙ ap (λ p. any p (channels topology snapshot.id)) (λ i c. pointwise c i)
  where
    pointwise :
        (c : FrontendChannel)
        → let listed = any (λ (k : FrontendChannel). str_eq k.id c.id) snapshot.channels in
          any (λ r. str_eq r id) (if listed then [] else with_threads topology snapshot.id c.id)
          ≡ (not listed && goes_with topology snapshot.id id c.id)
    pointwise c = ground (arith, with_threads_lem topology snapshot.id id c.id)

-- What the code retires is what the event says is gone.
pub retired_by-loses :
    (topology : TopologyState) (event : FrontendEvent) (id : Str)
    → any (λ r. str_eq r id) (retired_by topology event) ≡ loses topology event id
unfolding retired_by any in_scope remains_active is_active_in parent_in
retired_by-loses topology (guild_create snapshot) id =
    ground (arith, vanished_lem topology snapshot id)
retired_by-loses topology (guild_delete delete) id =
    let cs = channels topology delete.id in
    let ts = threads topology delete.id in
    let p = λ (r : Str). str_eq r id in
    ground (
      arith,
      any-append p (channel_ids cs) (thread_ids ts),
      any-map p (λ (c : FrontendChannel). c.id) cs,
      any-map p (λ (t : FrontendThread). t.id) ts,
    )
retired_by-loses topology (channel_delete delete) id =
    with_threads_lem topology delete.guild_id id delete.channel_id
retired_by-loses topology (direct_channel_delete delete) id = ground arith
retired_by-loses topology (thread_update t) id = ground arith
retired_by-loses topology (thread_delete delete) id = ground arith
retired_by-loses topology (thread_list_sync sync) id =
    let p = λ (t : FrontendThread). in_scope sync t && not (remains_active sync t) in
    any-map (λ r. str_eq r id) (λ (t : FrontendThread). t.id)
      (retain p (threads topology sync.guild_id))
    ∙ any-retain_and p (λ t. str_eq t.id id) (threads topology sync.guild_id)
retired_by-loses topology _ id = refl
