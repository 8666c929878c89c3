-- ===== src/Topology/Sync.antt =====
-- What a thread list sync does to the guild that it speaks of, in the cache of src/topology.rs.
use mathlib.Core.List.{append-nil, append_assoc}
use mathlib.Core.Path.{subst}
use diddycord.Base.Keys.{Distinct-middle}
use diddycord.Base.{
  ◌++◌, Bool, not, str_eq, Distinct, length-append, str_eq_sound, ℕ, ◌≤◌, ◌<◌, ◌≡◌, refl, sym, ap,
  ◌∙◌, inl, inr, false, List, [], ◌∷◌, Option, none, some, Str, arith, any, find, retain, has,
  Option-cases, length, leb, push_back,
}
use diddycord.Base.Search.{find-Holds}
use diddycord.Events.{FrontendThread, FrontendThreadListSync, thread_list_sync}
use diddycord.Topology.Cache.{
  CachedGuild, TopologyState, thread_key, has_guild, find_guild, thread, threads, channels,
}
use diddycord.Topology.Ops.{
  clear_scope, parent_in, is_active_in, sync_threads, sync_guild, apply_thread_list_sync, apply,
}
use diddycord.Topology.Guilds.{modify_guild, upsert, count_drop, tick}
use diddycord.Topology.Reads.{
  find-modify_guild, find-upsert_ne, thread_of, threads_of, thread_absent, threads_absent,
  channels_of,
}

module _ (limit : ℕ) (id : Str) where
  -- A sync leaves a thread that it does not list as its scope left it.
  find-sync_threads_ne :
      (ts cached : List FrontendThread) (d : ℕ)
      → any (has thread_key id) ts ≡ false
      → find (has thread_key id) (sync_threads limit ts cached d).0
        ≡ find (has thread_key id) cached
  unfolding sync_threads any
  find-sync_threads_ne [] cached d h = refl
  find-sync_threads_ne (t ∷ ts) cached d h =
      let r = upsert thread_key limit t cached in
      find-sync_threads_ne ts r.0 (count_drop r.1 d) (ground (arith, h))
      ∙ find-upsert_ne thread_key limit t cached id (ground (arith, h))

-- The active threads of its guild that a sync lists.
abbrev pub listed : FrontendThreadListSync → List FrontendThread
listed sync = retain (is_active_in sync.guild_id) sync.threads

-- The thread lies outside the scope of the sync.
abbrev pub outside : Option (List Str) → FrontendThread → Bool
outside none t = false
outside (some ids) t = not (elim t.parent_id as (λ _. Bool) [
  | none ↦ false
  | some parent ↦ any (λ id. str_eq id parent) ids
])

clear_scope_lem :
    (scope : Option (List Str)) (ts : List FrontendThread)
    → clear_scope scope ts ≡ retain (outside scope) ts
unfolding clear_scope parent_in retain
clear_scope_lem none [] = refl
clear_scope_lem none (t ∷ ts) = clear_scope_lem none ts
clear_scope_lem (some ids) ts = refl

-- A sync leaves the guild's channels alone. A thread that it does not list as active is found
-- afterwards only if it was cached before and lies outside the scope of the sync; with no scope
-- given, no such thread is left.
pub apply_thread_list_sync-reads :
    (s : TopologyState) (sync : FrontendThreadListSync) (id : Str)
    → any (has thread_key id) (listed sync) ≡ false
    → let t = (apply s (thread_list_sync sync)).0 in
      (channels t sync.guild_id ≡ channels s sync.guild_id)
      × (thread t sync.guild_id id
          ≡ find
              (has thread_key id)
              (retain (outside sync.parent_channel_ids) (threads s sync.guild_id)))
unfolding apply apply_thread_list_sync sync_guild retain
apply_thread_list_sync-reads s sync id h = elim (Option-cases (find_guild s sync.guild_id)) [
  | inl e ↦
      rw (e, apply_thread_list_sync)
        (
          refl,
          thread_absent s sync.guild_id e id
              ∙ sym (
                  ap (λ ts. find (has thread_key id) (retain (outside sync.parent_channel_ids) ts))
                    (threads_absent s sync.guild_id e)),
        )
  | inr (g, e) ↦
      let gid = sync.guild_id in
      let limit = s.max_threads_per_guild in
      let own : g.id ≡ gid = str_eq_sound g.id gid (find-Holds (has_guild gid) s.guilds g e) in
      let cleared = clear_scope sync.parent_channel_ids g.threads in
      let f = λ (g : CachedGuild). record g {
        touched = tick s.clock;
        threads = (sync_guild limit sync g s.dropped_items).0;
      } in
      let t = modify_guild gid f (record s {
        clock = tick s.clock;
        dropped_items = (sync_guild limit sync g s.dropped_items).1;
      }) in
      let found = find-modify_guild s gid f g (λ g. refl) e in
      rw (e, apply_thread_list_sync)
        (
          channels_of t gid (f g) found ∙ sym (channels_of s gid g e),
          thread_of t gid (f g) found id
              ∙ find-sync_threads_ne limit id (retain (is_active_in g.id) sync.threads) cleared
                  s.dropped_items
                  (ap (λ k. any (has thread_key id) (retain (is_active_in k) sync.threads)) own ∙ h)
              ∙ ap (find (has thread_key id)) (
                  clear_scope_lem sync.parent_channel_ids g.threads
                  ∙ sym (ap (retain (outside sync.parent_channel_ids)) (threads_of s gid g e))),
        )
]

not_full : (limit n : ℕ) → n < limit → leb limit n ≡ false
not_full limit n h = ground arith

sync_threads-append :
    (limit : ℕ) (ts cached : List FrontendThread) (d : ℕ)
    → Distinct thread_key (cached ++ ts)
    → length (cached ++ ts) ≤ limit
    → sync_threads limit ts cached d ≡ (cached ++ ts, d)
unfolding sync_threads upsert
sync_threads-append limit [] cached d distinct room = ap (λ ts. (ts, d)) (sym (append-nil cached))
sync_threads-append limit (t ∷ ts) cached d distinct room =
    let regroup = append_assoc cached (t ∷ []) ts in
    rw
      (
        Distinct-middle thread_key cached t ts distinct,
        not_full limit (length cached) (omega (arith, length-append cached (t ∷ ts))),
      )
      (sync_threads-append limit ts (push_back cached t) d
          (subst (Distinct thread_key) (sym regroup) distinct)
          (subst (λ l. length l ≤ limit) (sym regroup) room)
        ∙ ap (λ l. (l, d)) regroup)

-- A sync of the whole guild makes the guild's threads exactly those that it lists as active, in its
-- order, where they fit and no two have one id; and it then drops nothing.
pub apply_thread_list_sync-threads :
    (s : TopologyState) (sync : FrontendThreadListSync) (g : CachedGuild)
    → find_guild s sync.guild_id ≡ some g
    → sync.parent_channel_ids ≡ none
    → Distinct thread_key (listed sync)
    → length (listed sync) ≤ s.max_threads_per_guild
    → let t = (apply s (thread_list_sync sync)).0 in
      (threads t sync.guild_id ≡ listed sync) × (t.dropped_items ≡ s.dropped_items)
unfolding apply apply_thread_list_sync sync_guild clear_scope
apply_thread_list_sync-threads s sync g e whole distinct room =
    let gid = sync.guild_id in
    let limit = s.max_threads_per_guild in
    let own : g.id ≡ gid = str_eq_sound g.id gid (find-Holds (has_guild gid) s.guilds g e) in
    let f = λ (g : CachedGuild). record g {
      touched = tick s.clock;
      threads = (sync_guild limit sync g s.dropped_items).0;
    } in
    let t = modify_guild gid f (record s {
      clock = tick s.clock;
      dropped_items = (sync_guild limit sync g s.dropped_items).1;
    }) in
    let result : sync_guild limit sync g s.dropped_items ≡ (listed sync, s.dropped_items) =
      ap
        (λ scope.
          sync_threads limit (retain (is_active_in g.id) sync.threads) (clear_scope scope g.threads)
            s.dropped_items)
        whole
      ∙ ap (λ k. sync_threads limit (retain (is_active_in k) sync.threads) [] s.dropped_items) own
      ∙ sync_threads-append limit (listed sync) [] s.dropped_items distinct room in
    rw (e, apply_thread_list_sync)
      (
        threads_of t gid (f g) (find-modify_guild s gid f g (λ g. refl) e)
            ∙ ap (λ (r : List FrontendThread × ℕ). r.0) result,
        ap (λ (r : List FrontendThread × ℕ). r.1) result,
      )
