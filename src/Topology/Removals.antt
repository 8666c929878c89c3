-- ===== src/Topology/Removals.antt =====
-- What the read methods of src/topology.rs return after something has been removed.
use diddycord.Base.{
  ◌≡◌, refl, sym, ap, ◌∙◌, inl, inr, Bool, true, false, not, List, [], none, some, Str, str_eq, any,
  find, retain, has, lacks, if◌then◌else◌, Option-cases, ℕ, arith,
}
use diddycord.Base.Finds.{find-any}
use diddycord.Events.{
  FrontendChannel, FrontendChannelDelete, FrontendGuildDelete, FrontendThread, FrontendThreadDelete,
  FrontendThreadListSync, guild_delete, channel_delete, thread_update, thread_delete,
  thread_list_sync,
}
use diddycord.Topology.Cache.{
  CachedGuild, TopologyState, thread_key, has_guild, has_parent, find_guild, channels, thread,
  threads,
}
use diddycord.Topology.Ops.{
  apply, place_thread, apply_channel_delete, apply_thread_delete, apply_thread_change,
}
use diddycord.Topology.Guilds.{modify_guild, tick}
use diddycord.Topology.Reads.{
  find-modify_guild, channels_of, threads_of, channels_absent, threads_absent, not_cached,
}
use diddycord.Topology.Effects.{apply_guild_delete-reads}
use diddycord.Topology.Sync.{listed, outside, apply_thread_list_sync-reads}

-- The guild's channels and threads afterwards, as functions of those before.
module _ (s : TopologyState) (gid : Str) (cs : List FrontendChannel → List FrontendChannel)
    (ts : List FrontendThread → List FrontendThread) where
  abbrev Rewrites : TopologyState → Type 0
  Rewrites t = (channels t gid ≡ cs (channels s gid)) × (threads t gid ≡ ts (threads s gid))

  absent-Rewrites : find_guild s gid ≡ none → cs [] ≡ [] → ts [] ≡ [] → Rewrites s
  absent-Rewrites e no_cs no_ts =
      let no_channels = channels_absent s gid e in
      let no_threads = threads_absent s gid e in
      (no_channels ∙ sym (ap cs no_channels ∙ no_cs), no_threads ∙ sym (ap ts no_threads ∙ no_ts))

  found-Rewrites :
      (f : CachedGuild → CachedGuild) (clock dropped : ℕ) (g : CachedGuild)
      → find_guild s gid ≡ some g
      → ((g : CachedGuild) → (f g).id ≡ g.id)
      → (f g).channels ≡ cs g.channels
      → (f g).threads ≡ ts g.threads
      → Rewrites (modify_guild gid f (record s { clock = clock; dropped_items = dropped }))
  found-Rewrites f clock dropped g e same new_cs new_ts =
      let t = modify_guild gid f (record s { clock = clock; dropped_items = dropped }) in
      let found = find-modify_guild s gid f g same e in
      (
        channels_of t gid (f g) found ∙ new_cs ∙ sym (ap cs (channels_of s gid g e)),
        threads_of t gid (f g) found ∙ new_ts ∙ sym (ap ts (threads_of s gid g e)),
      )

-- The thread stands under the channel.
abbrev pub under : Str → FrontendThread → Bool
under channel_id t = elim t.parent_id as (λ _. Bool) [
  | none ↦ false
  | some parent ↦ str_eq parent channel_id
]

channel_delete-Rewrites :
    (s : TopologyState) (deleted : FrontendChannelDelete)
    → Rewrites s deleted.guild_id
        (retain (λ c. not (str_eq c.id deleted.channel_id)))
        (retain (λ t. not (under deleted.channel_id t)))
        (apply s (channel_delete deleted)).0
unfolding apply apply_channel_delete has_parent retain
channel_delete-Rewrites s deleted =
    let gid = deleted.guild_id in
    elim (Option-cases (find_guild s gid)) [
      | inl e ↦ rw (not_cached s gid e) (
          absent-Rewrites s gid (retain (λ c. not (str_eq c.id deleted.channel_id)))
            (retain (λ t. not (under deleted.channel_id t))) e refl refl)
      | inr (g, e) ↦ rw (find-any (has_guild gid) g s.guilds e) (
          found-Rewrites s gid (retain (λ c. not (str_eq c.id deleted.channel_id)))
            (retain (λ t. not (under deleted.channel_id t))) _ (tick s.clock) s.dropped_items g e
            (λ g. refl) refl refl)
    ]

thread_delete-Rewrites :
    (s : TopologyState) (dead : FrontendThreadDelete)
    → Rewrites s dead.guild_id
        (λ cs. cs)
        (retain (λ t. not (str_eq t.id dead.id)))
        (apply s (thread_delete dead)).0
unfolding apply apply_thread_delete retain
thread_delete-Rewrites s dead =
    let gid = dead.guild_id in
    elim (Option-cases (find_guild s gid)) [
      | inl e ↦
          rw (not_cached s gid e)
            (absent-Rewrites s gid (λ cs. cs) (retain (λ t. not (str_eq t.id dead.id))) e refl refl)
      | inr (g, e) ↦ rw (find-any (has_guild gid) g s.guilds e) (
          found-Rewrites s gid (λ cs. cs) (retain (λ t. not (str_eq t.id dead.id))) _ (tick s.clock)
            s.dropped_items g e (λ g. refl) refl refl)
    ]

place_archived :
    (limit : ℕ) (t : FrontendThread) (ts : List FrontendThread)
    → t.archived ≡ true
    → (place_thread limit t ts).0 ≡ retain (lacks thread_key t.id) ts
unfolding place_thread
place_archived limit t ts old = ground (arith, old)

archived-Rewrites :
    (s : TopologyState) (update : FrontendThread)
    → update.archived ≡ true
    → Rewrites s update.guild_id
        (λ cs. cs)
        (retain (λ t. not (str_eq t.id update.id)))
        (apply s (thread_update update)).0
unfolding apply apply_thread_change retain
archived-Rewrites s update old =
    let gid = update.guild_id in
    elim (Option-cases (find_guild s gid)) [
      | inl e ↦
          rw (e, apply_thread_change)
            (absent-Rewrites s gid (λ cs. cs) (retain (λ t. not (str_eq t.id update.id))) e refl
              refl)
      | inr (g, e) ↦
          rw (e, apply_thread_change)
            (found-Rewrites s gid (λ cs. cs) (retain (λ t. not (str_eq t.id update.id))) _
              (tick s.clock) _ g e (λ g. refl) refl
              (place_archived s.max_threads_per_guild update g.threads old))
    ]

-- What goes from the guild that an event speaks of, all else in it as before, in order: all
-- channels and threads with a guild that is deleted, none if it is only unavailable; with a channel
-- the channel and the threads under it, but no other thread; with a thread that is deleted or that
-- an update archives this thread, and no channel. A sync takes no channel, and a thread that it does
-- not list as active is found after it only if it was cached and lies outside the sync's scope.
pub removals-reads :
    (s : TopologyState) (guild : FrontendGuildDelete) (deleted : FrontendChannelDelete)
    (dead : FrontendThreadDelete) (update : FrontendThread) (sync : FrontendThreadListSync)
    (id : Str)
    → update.archived ≡ true
    → any (has thread_key id) (listed sync) ≡ false
    → let g = (apply s (guild_delete guild)).0 in
      let c = (apply s (channel_delete deleted)).0 in
      let t = (apply s (thread_delete dead)).0 in
      let a = (apply s (thread_update update)).0 in
      let y = (apply s (thread_list_sync sync)).0 in
      (channels g guild.id ≡ (if guild.unavailable then channels s guild.id else []))
      × (threads g guild.id ≡ (if guild.unavailable then threads s guild.id else []))
      × (channels c deleted.guild_id
          ≡ retain (λ k. not (str_eq k.id deleted.channel_id)) (channels s deleted.guild_id))
      × (threads c deleted.guild_id
          ≡ retain (λ k. not (under deleted.channel_id k)) (threads s deleted.guild_id))
      × (channels t dead.guild_id ≡ channels s dead.guild_id)
      × (threads t dead.guild_id
          ≡ retain (λ k. not (str_eq k.id dead.id)) (threads s dead.guild_id))
      × (channels a update.guild_id ≡ channels s update.guild_id)
      × (threads a update.guild_id
          ≡ retain (λ k. not (str_eq k.id update.id)) (threads s update.guild_id))
      × (channels y sync.guild_id ≡ channels s sync.guild_id)
      × (thread y sync.guild_id id
          ≡ find
              (has thread_key id)
              (retain (outside sync.parent_channel_ids) (threads s sync.guild_id)))
removals-reads s guild deleted dead update sync id old unlisted =
    let (no_channels, no_threads) = apply_guild_delete-reads s guild in
    let (no_channel, no_children) = channel_delete-Rewrites s deleted in
    let (same_channels, no_thread) = thread_delete-Rewrites s dead in
    let (still_channels, no_archived) = archived-Rewrites s update old in
    let (kept_channels, only_outside) = apply_thread_list_sync-reads s sync id unlisted in
    (
      no_channels, no_threads, no_channel, no_children, same_channels, no_thread, still_channels,
      no_archived, kept_channels, only_outside,
    )
