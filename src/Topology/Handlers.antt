-- ===== src/Topology/Handlers.antt =====
-- Each handler of src/topology.rs keeps the invariant, and so does `apply` on every event.
use diddycord.Base.{
  ◌≡◌, refl, inl, inr, false, Str, arith, length-push_back, length-take, All-push_back, any, lacks,
  Option-cases, if_cases, str_eq_flip,
}
use diddycord.Base.Search.{All-retain, length-retain-le, find-All}
use diddycord.Base.Keys.{push_back-Distinct, retain-Distinct}
use diddycord.Events.{
  FrontendChannelChange, FrontendChannelDelete, FrontendEvent, FrontendGuildSnapshot,
  FrontendGuildUpdate, FrontendGuildDelete, FrontendThread, FrontendThreadDelete,
  FrontendThreadListSync, guild_create, guild_update, guild_delete, channel_create, channel_update,
  channel_delete, thread_create, thread_update, thread_delete, thread_list_sync,
}
use diddycord.Topology.Cache.{
  CachedGuild, TopologyState, guild_key, channel_key, has_guild, find_guild,
}
use diddycord.Topology.Ops.{
  apply_channel_change, place_thread, apply_thread_change, apply_thread_list_sync,
  apply_guild_delete, apply_channel_delete, apply_thread_delete, apply,
}
use diddycord.Topology.Guilds.{
  tick, upsert, fresh_guild, refresh_guild, make_room, insert_guild, apply_guild_snapshot,
  apply_guild_update, mark_guild_unavailable,
}
use diddycord.Topology.Upsert.{length-upsert-le}
use diddycord.Topology.Valid.{IsFit, IsValid}
use diddycord.Topology.Invariant.{modify_guild-IsValid, make_room-MadeRoom, IsFit-later}
use diddycord.Topology.ThreadsFit.{
  count_drop-le, ThreadsFit, retain-ThreadsFit, place_thread-ThreadsFit, sync_guild-ThreadsFit,
  refit, fresh-IsFit,
}

module _ (s : TopologyState) (v : IsValid s) where
  open s use {clock, max_channels_per_guild as mc, max_threads_per_guild as mt}

  threads_of : {g : CachedGuild} → IsFit mc mt (tick clock) g → ThreadsFit mt g.id g.threads
  threads_of fit = (fit.thread_room, fit.thread_ids, fit.own_threads)

  insert_guild-IsValid :
      (snapshot : FrontendGuildSnapshot)
      → any (has_guild snapshot.id) s.guilds ≡ false
      → IsValid (insert_guild (record s { clock = tick clock }) snapshot (tick clock))
  unfolding insert_guild fresh_guild
  insert_guild-IsValid snapshot absent =
      let t = record s { clock = tick clock } in
      let ticked : IsValid t = record {
        limit = v.limit;
        guild_room = v.guild_room;
        guild_ids = v.guild_ids;
        fit = IsFit-later mc mt clock (tick clock) s.guilds (omega (arith, v.clock_range)) v.fit;
        clock_range = omega arith;
        dropped_range = v.dropped_range;
      } in
      let room = make_room-MadeRoom t ticked snapshot.id absent in
      let guilds = (make_room t).guilds in
      let fresh = fresh_guild snapshot (make_room t).max_channels_per_guild (tick clock) in
      record {
        limit = room.valid.limit;
        guild_room = omega (arith, length-push_back guilds fresh, room.space);
        guild_ids = push_back-Distinct guild_key guilds fresh room.absent room.valid.guild_ids;
        fit =
            All-push_back (IsFit _ _ _) guilds fresh room.valid.fit
              (fresh-IsFit snapshot _ _ _ _ (omega (arith, room.same_clock)));
        clock_range = room.valid.clock_range;
        dropped_range = omega arith;
      }

  refresh-IsFit :
      (snapshot : FrontendGuildSnapshot) (g : CachedGuild)
      → IsFit mc mt (tick clock) g
      → IsFit mc mt (tick clock) (refresh_guild snapshot mc (tick clock) g)
  unfolding refresh_guild
  refresh-IsFit snapshot g fit =
      refit _ fit refl (ground (arith, fit.channel_room, length-take mc snapshot.channels))
        (threads_of fit) (omega arith)

  apply_guild_snapshot-IsValid :
      (snapshot : FrontendGuildSnapshot) → IsValid (apply_guild_snapshot s snapshot)
  unfolding apply_guild_snapshot refresh_guild
  apply_guild_snapshot-IsValid snapshot =
      if_cases IsValid (any (has_guild snapshot.id) s.guilds)
        (λ known.
          modify_guild-IsValid s v snapshot.id (refresh_guild snapshot mc (tick clock)) _
            (ground (arith, v.dropped_range)) (λ g. refl) (λ g _ fit. refresh-IsFit snapshot g fit))
        (λ absent. insert_guild-IsValid snapshot absent)

  apply_guild_update-IsValid :
      (update : FrontendGuildUpdate) → IsValid (apply_guild_update s update)
  unfolding apply_guild_update
  apply_guild_update-IsValid update =
      if_cases IsValid (any (has_guild update.id) s.guilds)
        (λ known.
          modify_guild-IsValid s v update.id _ s.dropped_items v.dropped_range (λ g. refl)
            (λ g _ fit. refit _ fit refl fit.channel_room (threads_of fit) (omega arith)))
        (λ absent. v)

  mark_guild_unavailable-IsValid : (id : Str) → IsValid (mark_guild_unavailable s id)
  unfolding mark_guild_unavailable
  mark_guild_unavailable-IsValid id =
      if_cases IsValid (any (has_guild id) s.guilds)
        (λ known.
          modify_guild-IsValid s v id _ s.dropped_items v.dropped_range (λ g. refl)
            (λ g _ fit. refit _ fit refl fit.channel_room (threads_of fit) (omega arith)))
        (λ absent. v)

  apply_guild_delete-IsValid :
      (delete : FrontendGuildDelete) → IsValid (apply_guild_delete s delete)
  unfolding apply_guild_delete
  apply_guild_delete-IsValid delete =
      if_cases IsValid delete.unavailable (λ _. mark_guild_unavailable-IsValid delete.id)
        (λ gone. record {
          limit = v.limit;
          guild_room =
              omega (arith, length-retain-le (lacks guild_key delete.id) s.guilds, v.guild_room);
          guild_ids = retain-Distinct guild_key _ s.guilds v.guild_ids;
          fit = All-retain _ _ s.guilds v.fit;
          clock_range = v.clock_range;
          dropped_range = v.dropped_range;
        })

  apply_channel_delete-IsValid :
      (delete : FrontendChannelDelete) → IsValid (apply_channel_delete s delete)
  unfolding apply_channel_delete
  apply_channel_delete-IsValid delete =
      if_cases IsValid (any (has_guild delete.guild_id) s.guilds)
        (λ known.
          modify_guild-IsValid s v delete.guild_id _ s.dropped_items v.dropped_range (λ g. refl)
            (λ g _ fit.
              refit _ fit refl
                (omega (
                  arith,
                  length-retain-le (lacks channel_key delete.channel_id) g.channels,
                  fit.channel_room,
                ))
                (retain-ThreadsFit mt g.id _ g.threads (threads_of fit)) (omega arith)))
        (λ absent. v)

  apply_thread_delete-IsValid :
      (delete : FrontendThreadDelete) → IsValid (apply_thread_delete s delete)
  unfolding apply_thread_delete
  apply_thread_delete-IsValid delete =
      if_cases IsValid (any (has_guild delete.guild_id) s.guilds)
        (λ known.
          modify_guild-IsValid s v delete.guild_id _ s.dropped_items v.dropped_range (λ g. refl)
            (λ g _ fit.
              refit _ fit refl fit.channel_room
                (retain-ThreadsFit mt g.id _ g.threads (threads_of fit)) (omega arith)))
        (λ absent. v)

  apply_channel_change-IsValid :
      (change : FrontendChannelChange) → IsValid (apply_channel_change s change)
  unfolding apply_channel_change
  apply_channel_change-IsValid change = elim (Option-cases (find_guild s change.guild_id)) [
    | inl e ↦ rw (e, apply_channel_change) v
    | inr (g, e) ↦
        rw (e, apply_channel_change)
          (modify_guild-IsValid s v change.guild_id _ _
            (count_drop-le (upsert channel_key mc change.channel g.channels).1 s.dropped_items
              v.dropped_range)
            (λ g. refl)
            (λ g _ fit.
              refit _ fit refl
                (length-upsert-le channel_key mc change.channel g.channels fit.channel_room)
                (threads_of fit) (omega arith)))
  ]

  apply_thread_change-IsValid : (t : FrontendThread) → IsValid (apply_thread_change s t)
  unfolding apply_thread_change
  apply_thread_change-IsValid t = elim (Option-cases (find_guild s t.guild_id)) [
    | inl e ↦ rw (e, apply_thread_change) v
    | inr (g, e) ↦
        rw (e, apply_thread_change)
          (modify_guild-IsValid s v t.guild_id _ _
            (count_drop-le (place_thread mt t g.threads).1 s.dropped_items v.dropped_range)
            (λ g. refl)
            (λ g mine fit.
              refit _ fit refl fit.channel_room
                (place_thread-ThreadsFit mt g.id t g.threads (str_eq_flip g.id t.guild_id mine)
                  (threads_of fit))
                (omega arith)))
  ]

  apply_thread_list_sync-IsValid :
      (sync : FrontendThreadListSync) → IsValid (apply_thread_list_sync s sync)
  unfolding apply_thread_list_sync
  apply_thread_list_sync-IsValid sync = elim (Option-cases (find_guild s sync.guild_id)) [
    | inl e ↦ rw (e, apply_thread_list_sync) v
    | inr (g, e) ↦
        rw (e, apply_thread_list_sync)
          (modify_guild-IsValid s v sync.guild_id _ _
            (sync_guild-ThreadsFit mt sync g s.dropped_items v.dropped_range (
              threads_of (
                find-All (has_guild sync.guild_id) (IsFit mc mt (tick clock)) s.guilds g
                  (IsFit-later mc mt clock (tick clock) s.guilds (omega (arith, v.clock_range))
                    v.fit)
                  e))).1
            (λ g. refl)
            (λ g _ fit.
              refit _ fit refl fit.channel_room
                (sync_guild-ThreadsFit mt sync g s.dropped_items v.dropped_range (threads_of fit)).0
                (omega arith)))
  ]

-- Every gateway event keeps a valid cache valid: at most `max_guilds` guilds, no two of them with
-- one id; in each guild at most the limits' channels and threads, no two threads with one id, all
-- of them active and the guild's own; stamps no later than the clock, and counters within u64.
pub apply-IsValid :
    (s : TopologyState) (event : FrontendEvent) → IsValid s → IsValid (apply s event).0
unfolding apply
apply-IsValid s (guild_create snapshot) v = apply_guild_snapshot-IsValid s v snapshot
apply-IsValid s (guild_update update) v = apply_guild_update-IsValid s v update
apply-IsValid s (guild_delete delete) v = apply_guild_delete-IsValid s v delete
apply-IsValid s (channel_create change) v = apply_channel_change-IsValid s v change
apply-IsValid s (channel_update change) v = apply_channel_change-IsValid s v change
apply-IsValid s (channel_delete delete) v = apply_channel_delete-IsValid s v delete
apply-IsValid s (thread_create t) v = apply_thread_change-IsValid s v t
apply-IsValid s (thread_update t) v = apply_thread_change-IsValid s v t
apply-IsValid s (thread_delete delete) v = apply_thread_delete-IsValid s v delete
apply-IsValid s (thread_list_sync sync) v = apply_thread_list_sync-IsValid s v sync
apply-IsValid s _ v = v
