-- ===== src/Topology/ThreadsFit.antt =====
-- What the handlers of src/topology.rs keep of a single guild: its threads within the invariant.
use diddycord.Base.{
  ℕ, ◌≤◌, ◌≡◌, Bool, true, List, [], ◌∷◌, Option, none, some, Str, str_eq, u64_max, arith, length,
  length-take, All, retain, Distinct, if_cases,
}
use diddycord.Base.Search.{All-retain, length-retain-le, retain-Holds}
use diddycord.Base.Keys.{retain-Distinct}
use diddycord.Events.{FrontendGuildSnapshot, FrontendThread, FrontendThreadListSync}
use diddycord.Topology.Cache.{CachedGuild, thread_key}
use diddycord.Topology.Ops.{place_thread, clear_scope, is_active_in, sync_threads, sync_guild}
use diddycord.Topology.Guilds.{upsert, count_drop, fresh_guild}
use diddycord.Topology.Upsert.{length-upsert-le, upsert-All, upsert-Distinct}
use diddycord.Topology.Valid.{BelongsTo, IsFit}

pub count_drop-le : (b : Bool) (d : ℕ) → d ≤ u64_max → count_drop b d ≤ u64_max
count_drop-le b d h = ground arith

-- The threads of a guild, as far as the invariant speaks of them.
abbrev pub ThreadsFit : ℕ → Str → List FrontendThread → Type 0
ThreadsFit limit guild_id ts =
    (length ts ≤ limit) × Distinct thread_key ts × All (BelongsTo guild_id) ts

pub retain-ThreadsFit :
    (limit : ℕ) (guild_id : Str) (p : FrontendThread → Bool) (ts : List FrontendThread)
    → ThreadsFit limit guild_id ts
    → ThreadsFit limit guild_id (retain p ts)
retain-ThreadsFit limit guild_id p ts (room, ids, own) = (
  omega (arith, length-retain-le p ts),
  retain-Distinct thread_key p ts ids,
  All-retain p (BelongsTo guild_id) ts own,
)

pub upsert-ThreadsFit :
    (limit : ℕ) (guild_id : Str) (t : FrontendThread) (ts : List FrontendThread)
    → BelongsTo guild_id t
    → ThreadsFit limit guild_id ts
    → ThreadsFit limit guild_id (upsert thread_key limit t ts).0
upsert-ThreadsFit limit guild_id t ts mine (room, ids, own) = (
  length-upsert-le thread_key limit t ts room,
  upsert-Distinct thread_key limit t ts ids,
  upsert-All thread_key limit t ts (BelongsTo guild_id) mine own,
)

pub place_thread-ThreadsFit :
    (limit : ℕ) (guild_id : Str) (t : FrontendThread) (ts : List FrontendThread)
    → str_eq t.guild_id guild_id ≡ true
    → ThreadsFit limit guild_id ts
    → ThreadsFit limit guild_id (place_thread limit t ts).0
unfolding place_thread
place_thread-ThreadsFit limit guild_id t ts mine h =
    if_cases (λ (r : List FrontendThread × Bool). ThreadsFit limit guild_id r.0) t.archived
      (λ old. retain-ThreadsFit limit guild_id _ ts h)
      (λ active. upsert-ThreadsFit limit guild_id t ts (mine, active) h)

pub sync_threads-ThreadsFit :
    (limit : ℕ) (guild_id : Str) (ts cached : List FrontendThread) (d : ℕ)
    → All (λ t. is_active_in guild_id t ≡ true) ts
    → d ≤ u64_max
    → ThreadsFit limit guild_id cached
    → ThreadsFit limit guild_id (sync_threads limit ts cached d).0
      × ((sync_threads limit ts cached d).1 ≤ u64_max)
unfolding sync_threads is_active_in
sync_threads-ThreadsFit limit guild_id [] cached d a hd h = (h, hd)
sync_threads-ThreadsFit limit guild_id (t ∷ ts) cached d a hd h =
    let r = upsert thread_key limit t cached in
    sync_threads-ThreadsFit limit guild_id ts r.0 (count_drop r.1 d) a.1 (count_drop-le r.1 d hd)
      (upsert-ThreadsFit limit guild_id t cached (ground (arith, a.0)) h)

pub sync_guild-ThreadsFit :
    (limit : ℕ) (sync : FrontendThreadListSync) (g : CachedGuild) (d : ℕ)
    → d ≤ u64_max
    → ThreadsFit limit g.id g.threads
    → ThreadsFit limit g.id (sync_guild limit sync g d).0
      × ((sync_guild limit sync g d).1 ≤ u64_max)
unfolding sync_guild
sync_guild-ThreadsFit limit sync g d hd h =
    sync_threads-ThreadsFit limit g.id (retain (is_active_in g.id) sync.threads)
      (clear_scope sync.parent_channel_ids g.threads) d
      (retain-Holds (is_active_in g.id) sync.threads) hd (cleared sync.parent_channel_ids)
  where
    cleared : (scope : Option (List Str)) → ThreadsFit limit g.id (clear_scope scope g.threads)
    cleared none = unfold clear_scope in (omega arith, tt, tt)
    cleared (some ids) = unfold clear_scope in retain-ThreadsFit limit g.id _ g.threads h

-- A guild with new channels, threads or stamp still fits.
pub refit :
    {mc mt clock : ℕ} {g : CachedGuild} (h : CachedGuild)
    → IsFit mc mt clock g
    → h.id ≡ g.id
    → length h.channels ≤ mc
    → ThreadsFit mt h.id h.threads
    → h.touched ≤ clock
    → IsFit mc mt clock h
refit h fit same room (tr, ids, own) past = record {
  channel_room = room;
  thread_room = tr;
  thread_ids = ids;
  own_threads = own;
  past = past;
}

pub fresh-IsFit :
    (snapshot : FrontendGuildSnapshot) (mc mt clock touched : ℕ)
    → touched ≤ clock
    → IsFit mc mt clock (fresh_guild snapshot mc touched)
unfolding fresh_guild
fresh-IsFit snapshot mc mt clock touched past = record {
  channel_room = omega (arith, length-take mc snapshot.channels);
  thread_room = omega arith;
  thread_ids = tt;
  own_threads = tt;
  past = past;
}
