-- ===== src/Topology/Frame.antt =====
-- What an event of one guild leaves alone in the cache of src/topology.rs.
use diddycord.Base.{
  ◌≡◌, refl, ap, ◌∙◌, inl, inr, Bool, true, false, Str, str_eq, str_eq_iff, arith, any, find,
  modify_first, Option-cases, if_cases,
}
use diddycord.Base.Search.{find-modify_first_ne, find-retain}
use diddycord.Events.{
  FrontendChannelChange, FrontendEvent, FrontendThread, guild_create, guild_update, guild_delete,
  channel_create, channel_update, channel_delete, thread_create, thread_update, thread_delete,
  thread_list_sync,
}
use diddycord.Topology.Cache.{CachedGuild, TopologyState, has_guild, find_guild}
use diddycord.Topology.Ops.{
  apply_channel_change, apply_thread_change, apply_thread_list_sync, apply_guild_delete,
  apply_channel_delete, apply_thread_delete, apply,
}
use diddycord.Topology.Guilds.{
  refresh_guild, apply_guild_snapshot, apply_guild_update, mark_guild_unavailable,
}

-- The event speaks of the guild.
abbrev pub concerns : FrontendEvent → Str → Bool
concerns (guild_create snapshot) id = str_eq snapshot.id id
concerns (guild_update update) id = str_eq update.id id
concerns (guild_delete delete) id = str_eq delete.id id
concerns (channel_create change) id = str_eq change.guild_id id
concerns (channel_update change) id = str_eq change.guild_id id
concerns (channel_delete delete) id = str_eq delete.guild_id id
concerns (thread_create t) id = str_eq t.guild_id id
concerns (thread_update t) id = str_eq t.guild_id id
concerns (thread_delete delete) id = str_eq delete.guild_id id
concerns (thread_list_sync sync) id = str_eq sync.guild_id id
concerns _ id = false

-- The event is the snapshot of a guild that is not cached, so that another may be evicted.
abbrev pub Inserts : TopologyState → FrontendEvent → Type 0
Inserts s (guild_create snapshot) = any (has_guild snapshot.id) s.guilds ≡ false
Inserts s _ = ⊥

has_guild-other :
    (gid id : Str)
    → str_eq gid id ≡ false
    → (g : CachedGuild) → has_guild gid g ≡ true
    → has_guild id g ≡ false
has_guild-other gid id ne g h = ground (arith, str_eq_iff g.id gid)

module _ (s : TopologyState) (id gid : Str) (ne : str_eq gid id ≡ false) where
  find-modify_guild_other :
      (f : CachedGuild → CachedGuild)
      → ((g : CachedGuild) → (f g).id ≡ g.id)
      → find (has_guild id) (modify_first (has_guild gid) f s.guilds) ≡ find (has_guild id) s.guilds
  find-modify_guild_other f same =
      find-modify_first_ne (has_guild gid) (has_guild id) f s.guilds (has_guild-other gid id ne)
        (λ g h. ap (λ k. str_eq k id) (same g) ∙ has_guild-other gid id ne g h)

abbrev Keeps : TopologyState → Str → TopologyState → Type 0
Keeps s id t = find_guild t id ≡ find_guild s id

channel_change-other :
    (s : TopologyState) (change : FrontendChannelChange) (id : Str)
    → str_eq change.guild_id id ≡ false
    → Keeps s id (apply_channel_change s change)
unfolding apply_channel_change
channel_change-other s change id ne = elim (Option-cases (find_guild s change.guild_id)) [
  | inl e ↦ rw (e, apply_channel_change)
  | inr (g, e) ↦
      rw (e, apply_channel_change) (find-modify_guild_other s id change.guild_id ne _ (λ g. refl))
]

thread_change-other :
    (s : TopologyState) (t : FrontendThread) (id : Str)
    → str_eq t.guild_id id ≡ false
    → Keeps s id (apply_thread_change s t)
unfolding apply_thread_change
thread_change-other s t id ne = elim (Option-cases (find_guild s t.guild_id)) [
  | inl e ↦ rw (e, apply_thread_change)
  | inr (g, e) ↦
      rw (e, apply_thread_change) (find-modify_guild_other s id t.guild_id ne _ (λ g. refl))
]

-- An event that concerns another guild leaves a guild exactly as it was cached, its channels,
-- threads and stamp included; the one exception is the snapshot of a guild that is not cached yet,
-- which may evict.
pub apply-find_other :
    (s : TopologyState) (event : FrontendEvent) (id : Str)
    → concerns event id ≡ false
    → ¬ Inserts s event
    → find_guild (apply s event).0 id ≡ find_guild s id
unfolding apply apply_guild_snapshot refresh_guild apply_guild_update mark_guild_unavailable
    apply_thread_list_sync apply_guild_delete apply_channel_delete apply_thread_delete
apply-find_other s (guild_create snapshot) id ne old =
    if_cases (Keeps s id) (any (has_guild snapshot.id) s.guilds)
      (λ known. find-modify_guild_other s id snapshot.id ne _ (λ g. refl))
      (λ absent. absurd (old absent))
apply-find_other s (guild_update update) id ne old =
    if_cases (Keeps s id) (any (has_guild update.id) s.guilds)
      (λ known. find-modify_guild_other s id update.id ne _ (λ g. refl)) (λ absent. refl)
apply-find_other s (guild_delete delete) id ne old =
    if_cases (Keeps s id) delete.unavailable
      (λ _.
        if_cases (Keeps s id) (any (has_guild delete.id) s.guilds)
          (λ known. find-modify_guild_other s id delete.id ne _ (λ g. refl)) (λ absent. refl))
      (λ _.
        find-retain _ (has_guild id) s.guilds
          (λ g h. ground (arith, str_eq_iff g.id id, str_eq_iff g.id delete.id)))
apply-find_other s (channel_create change) id ne old = channel_change-other s change id ne
apply-find_other s (channel_update change) id ne old = channel_change-other s change id ne
apply-find_other s (channel_delete delete) id ne old =
    if_cases (Keeps s id) (any (has_guild delete.guild_id) s.guilds)
      (λ known. find-modify_guild_other s id delete.guild_id ne _ (λ g. refl)) (λ absent. refl)
apply-find_other s (thread_create t) id ne old = thread_change-other s t id ne
apply-find_other s (thread_update t) id ne old = thread_change-other s t id ne
apply-find_other s (thread_delete delete) id ne old =
    if_cases (Keeps s id) (any (has_guild delete.guild_id) s.guilds)
      (λ known. find-modify_guild_other s id delete.guild_id ne _ (λ g. refl)) (λ absent. refl)
apply-find_other s (thread_list_sync sync) id ne old =
    elim (Option-cases (find_guild s sync.guild_id)) [
      | inl e ↦ rw (e, apply_thread_list_sync)
      | inr (g, e) ↦
          rw (e, apply_thread_list_sync)
            (find-modify_guild_other s id sync.guild_id ne _ (λ g. refl))
    ]
apply-find_other s _ id ne old = refl
