-- ===== src/Topology/Effects.antt =====
-- What a guild or channel event does to the guild that it speaks of, in the cache of
-- src/topology.rs, as its read methods see it.
use diddycord.Base.{
  eq_if, if◌then◌else◌, ◌≤◌, ◌≡◌, refl, sym, ◌∙◌, ◌⊎◌, inl, inr, true, false, [], none, some, Str,
  str_eq, arith, any, Option-cases, if_cases, length, sat_add,
}
use diddycord.Base.Search.{find-retain-none, find-none}
use diddycord.Events.{FrontendChannelChange, FrontendGuildDelete, guild_delete, channel_update}
use diddycord.Topology.Cache.{
  CachedGuild, TopologyState, channel_key, has_guild, find_guild, channel, channels, threads,
}
use diddycord.Topology.Ops.{apply_guild_delete, apply_channel_change, apply}
use diddycord.Topology.Guilds.{modify_guild, upsert, count_drop, mark_guild_unavailable, tick}
use diddycord.Topology.Reads.{
  find-modify_guild, upsert-Outcome, find-upsert_ne, channel_of, channels_of, threads_of,
  threads_absent, channels_absent,
}

mark_guild_unavailable-reads :
    (s : TopologyState) (id : Str)
    → let t = mark_guild_unavailable s id in
      (channels t id ≡ channels s id) × (threads t id ≡ threads s id)
unfolding mark_guild_unavailable
mark_guild_unavailable-reads s id =
    if_cases (λ t. (channels t id ≡ channels s id) × (threads t id ≡ threads s id))
      (any (has_guild id) s.guilds)
      (λ known. elim (Option-cases (find_guild s id)) [
        | inl e ↦ absurd (ground (arith, find-none (has_guild id) s.guilds e))
        | inr (g, e) ↦
            let marked =
              find-modify_guild s id (λ g. record g { touched = tick s.clock; unavailable = true })
                g (λ g. refl) e in
            let t =
              modify_guild id (λ g. record g { touched = tick s.clock; unavailable = true })
                (record s { clock = tick s.clock }) in
            (
              channels_of t id _ marked ∙ sym (channels_of s id g e),
              threads_of t id _ marked ∙ sym (threads_of s id g e),
            )
      ])
      (λ absent. (refl, refl))

guild_delete-cases :
    (s : TopologyState) (delete : FrontendGuildDelete)
    → let t = (apply s (guild_delete delete)).0 in
      (delete.unavailable ≡ false → find_guild t delete.id ≡ none)
      × (delete.unavailable ≡ true
          → (channels t delete.id ≡ channels s delete.id)
            × (threads t delete.id ≡ threads s delete.id))
unfolding apply apply_guild_delete
guild_delete-cases s delete =
    let id = delete.id in
    if_cases
      (λ t.
        (delete.unavailable ≡ false → find_guild t id ≡ none)
        × (delete.unavailable ≡ true
            → (channels t id ≡ channels s id) × (threads t id ≡ threads s id)))
      delete.unavailable (λ away. (λ gone. cc, λ _. mark_guild_unavailable-reads s id))
      (λ gone. (λ _. find-retain-none _ (has_guild id) s.guilds (λ g h. ground arith), λ away. cc))

channel_change-cases :
    (s : TopologyState) (change : FrontendChannelChange) (g : CachedGuild)
    → find_guild s change.guild_id ≡ some g
    → let t = (apply s (channel_update change)).0 in
      ((channel t change.guild_id change.channel.id ≡ some change.channel)
        ⊎ (s.max_channels_per_guild ≤ length g.channels)
          × (channel t change.guild_id change.channel.id ≡ none)
          × (t.dropped_items ≡ sat_add s.dropped_items 1))
      × ((id : Str)
          → str_eq change.channel.id id ≡ false
          → channel t change.guild_id id ≡ channel s change.guild_id id)
unfolding apply apply_channel_change
channel_change-cases s change g e =
    let c = change.channel in
    let gid = change.guild_id in
    let limit = s.max_channels_per_guild in
    let f = λ (g : CachedGuild). record g {
      touched = tick s.clock;
      channels = (upsert channel_key limit c g.channels).0;
    } in
    let t = modify_guild gid f (record s {
      clock = tick s.clock;
      dropped_items = count_drop (upsert channel_key limit c g.channels).1 s.dropped_items;
    }) in
    let found = find-modify_guild s gid f g (λ g. refl) e in
    rw (e, apply_channel_change)
      (
        elim (upsert-Outcome channel_key limit c g.channels) [
          | inl (hit, _) ↦ inl (channel_of t gid (f g) found c.id ∙ hit)
          | inr (full, miss, dropped) ↦
              inr (full, channel_of t gid (f g) found c.id ∙ miss, rw dropped)
        ],
        λ id ne.
            channel_of t gid (f g) found id
            ∙ find-upsert_ne channel_key limit c g.channels id ne
            ∙ sym (channel_of s gid g e id),
      )

-- After a guild's deletion no read finds its channels or its threads; a guild that is only
-- unavailable keeps both.
pub apply_guild_delete-reads :
    (s : TopologyState) (delete : FrontendGuildDelete)
    → let t = (apply s (guild_delete delete)).0 in
      (channels t delete.id ≡ (if delete.unavailable then channels s delete.id else []))
      × (threads t delete.id ≡ (if delete.unavailable then threads s delete.id else []))
apply_guild_delete-reads s delete =
    let id = delete.id in
    let t = (apply s (guild_delete delete)).0 in
    let (gone, kept) = guild_delete-cases s delete in
    (
      eq_if delete.unavailable (channels t id) (channels s id) [] (λ h. (kept h).0)
          (λ h. channels_absent t id (gone h)),
      eq_if delete.unavailable (threads t id) (threads s id) [] (λ h. (kept h).1)
          (λ h. threads_absent t id (gone h)),
    )

-- A channel change for a cached guild is found under the channel's id, unless it was dropped for
-- want of room, in which case `dropped_items` counts it and the channel is not found; another channel
-- of the guild is found as before.
pub apply_channel_change-reads :
    (s : TopologyState) (change : FrontendChannelChange) (g : CachedGuild) (other : Str)
    → find_guild s change.guild_id ≡ some g
    → str_eq change.channel.id other ≡ false
    → let t = (apply s (channel_update change)).0 in
      ((channel t change.guild_id change.channel.id ≡ some change.channel)
        ⊎ (s.max_channels_per_guild ≤ length g.channels)
          × (channel t change.guild_id change.channel.id ≡ none)
          × (t.dropped_items ≡ sat_add s.dropped_items 1))
      × (channel t change.guild_id other ≡ channel s change.guild_id other)
apply_channel_change-reads s change g other e ne =
    let (own, same) = channel_change-cases s change g e in (own, same other ne)
