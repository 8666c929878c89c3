-- ===== src/Topology/Guilds.antt =====
-- src/topology.rs: the handlers of guilds, and what the handlers share.
use diddycord.Base.{
  ℕ, ◌-◌, Bool, true, false, ◌&&◌, if◌then◌else◌, List, [], ◌∷◌, none, some, Str, leb, length, take,
  push_back, any, modify_first, has, sat_add, unwrap_or,
}
use diddycord.Base.Oldest.{oldest, remove_at}
use diddycord.Events.{FrontendGuildSnapshot, FrontendGuildUpdate}
use diddycord.Topology.Cache.{CachedGuild, TopologyState, has_guild}

-- The clock advanced by one, which is also the new time stamp.
abbrev pub tick : ℕ → ℕ
tick clock = sat_add clock 1

-- Writes through `iter_mut().find(|guild| guild.id == id)`.
abbrev pub modify_guild : Str → (CachedGuild → CachedGuild) → TopologyState → TopologyState
modify_guild id f s = record s { guilds = modify_first (has_guild id) f s.guilds }

-- An entry with the same key is replaced; a new one is pushed unless the vector is full. The flag
-- says that the entry was dropped.
unfoldable pub upsert {ℓ} : {A : Type ℓ} → (A → Str) → ℕ → A → List A → List A × Bool
unfolding any modify_first
upsert key limit x xs =
    if any (has key (key x)) xs
    then (modify_first (has key (key x)) (λ _. x) xs, false)
    else if leb limit (length xs)
    then (xs, true)
    else (push_back xs x, false)

abbrev pub count_drop : Bool → ℕ → ℕ
count_drop true dropped = sat_add dropped 1
count_drop false dropped = dropped

unfoldable pub evict_least_recently_used_guild : TopologyState → TopologyState
unfolding oldest remove_at
evict_least_recently_used_guild s = elim (oldest (λ g. g.touched) s.guilds) [
  | none ↦ s
  | some (index, g) ↦ record s {
    guilds = remove_at index s.guilds;
    dropped_items =
        sat_add s.dropped_items (sat_add (sat_add 1 (length g.channels)) (length g.threads));
  }
]

-- The guild of the snapshot as it is first cached.
unfoldable pub fresh_guild : FrontendGuildSnapshot → ℕ → ℕ → CachedGuild
fresh_guild snapshot limit touched = record {
  id = snapshot.id;
  name = snapshot.name;
  unavailable = snapshot.unavailable;
  channels = take limit snapshot.channels;
  threads = [];
  touched = touched;
}

abbrev is_empty {ℓ} : {A : Type ℓ} → List A → Bool
is_empty [] = true
is_empty (x ∷ xs) = false

-- A snapshot of an unavailable guild with no channels says nothing of its channels.
unfoldable pub is_placeholder : FrontendGuildSnapshot → Bool
is_placeholder snapshot = snapshot.unavailable && is_empty snapshot.channels

-- The cached guild after a new snapshot.
unfoldable pub refresh_guild : FrontendGuildSnapshot → ℕ → ℕ → CachedGuild → CachedGuild
unfolding is_placeholder
refresh_guild snapshot limit touched g = record g {
  name = snapshot.name;
  unavailable = snapshot.unavailable;
  touched = touched;
  channels = if is_placeholder snapshot then g.channels else take limit snapshot.channels;
}

-- `dropped_items` after a snapshot whose channels exceed the limit.
abbrev pub count_excess : FrontendGuildSnapshot → TopologyState → ℕ
count_excess snapshot s =
    sat_add s.dropped_items (length snapshot.channels - s.max_channels_per_guild)

-- A full cache loses its least recently used guild.
unfoldable pub make_room : TopologyState → TopologyState
unfolding evict_least_recently_used_guild
make_room s = if leb s.max_guilds (length s.guilds) then evict_least_recently_used_guild s else s

-- The rest of `apply_guild_snapshot`, for a guild that is not cached.
unfoldable pub insert_guild : TopologyState → FrontendGuildSnapshot → ℕ → TopologyState
unfolding make_room fresh_guild
insert_guild s snapshot touched =
    let room = make_room s in
    record room {
      dropped_items = count_excess snapshot room;
      guilds = push_back room.guilds (fresh_guild snapshot room.max_channels_per_guild touched);
    }

unfoldable pub apply_guild_snapshot : TopologyState → FrontendGuildSnapshot → TopologyState
unfolding any modify_first refresh_guild insert_guild
apply_guild_snapshot s snapshot =
    let touched = tick s.clock in
    let t = record s { clock = touched } in
    if any (has_guild snapshot.id) s.guilds
    then record (modify_guild snapshot.id (refresh_guild snapshot s.max_channels_per_guild touched)
        t) {
          dropped_items =
              if is_placeholder snapshot then s.dropped_items else count_excess snapshot s;
        }
    else insert_guild t snapshot touched

unfoldable pub apply_guild_update : TopologyState → FrontendGuildUpdate → TopologyState
unfolding any modify_first
apply_guild_update s update =
    let touched = tick s.clock in
    if any (has_guild update.id) s.guilds
    then modify_guild update.id
        (λ g. record g {
          name = unwrap_or update.name g.name;
          unavailable = unwrap_or update.unavailable g.unavailable;
          touched = touched;
        })
        (record s { clock = touched })
    else s

unfoldable pub mark_guild_unavailable : TopologyState → Str → TopologyState
unfolding any modify_first
mark_guild_unavailable s guild_id =
    let touched = tick s.clock in
    if any (has_guild guild_id) s.guilds
    then modify_guild guild_id (λ g. record g { touched = touched; unavailable = true })
        (record s { clock = touched })
    else s
