-- ===== src/Topology/Invariant.antt =====
-- Every event keeps the invariant of src/topology.rs.
use diddycord.Base.{
  ℕ, ◌≤◌, ◌<◌, ◌≡◌, refl, ap, inl, inr, true, false, List, Str, u64_max, arith, length, All,
  All-imp, any, leb, if_cases,
}
use diddycord.Base.Search.{length-modify_first, All-modify_first}
use diddycord.Base.Keys.{modify_first-Distinct}
use diddycord.Base.Oldest.{
  oldest-IsOldest, length-remove_at, All-remove_at, remove_at-Distinct, any-remove_at,
}
use diddycord.Topology.Cache.{CachedGuild, TopologyState, guild_key, has_guild, with_limits}
use diddycord.Topology.Guilds.{tick, modify_guild, evict_least_recently_used_guild, make_room}
use diddycord.Topology.Valid.{IsFit, IsValid}

-- A new cache is valid, whatever limits it is given.
pub with_limits-IsValid : (g c t : ℕ) → IsValid (with_limits g c t)
unfolding with_limits
with_limits-IsValid g c t = ground arith

pub IsFit-later :
    (c t m n : ℕ) (gs : List CachedGuild) → m ≤ n → All (IsFit c t m) gs → All (IsFit c t n) gs
IsFit-later c t m n gs h = All-imp (IsFit c t m) (IsFit c t n) gs (λ g f. record {
  channel_room = f.channel_room;
  thread_room = f.thread_room;
  thread_ids = f.thread_ids;
  own_threads = f.own_threads;
  past = omega arith;
})

module _ (s : TopologyState) (v : IsValid s) where
  open s use {clock, max_channels_per_guild as mc, max_threads_per_guild as mt}

  later : All (IsFit mc mt (tick clock)) s.guilds
  later = IsFit-later mc mt clock (tick clock) s.guilds (omega (arith, v.clock_range)) v.fit

  -- The step that most handlers share: the clock advances, and one guild is rewritten.
  pub modify_guild-IsValid :
      (id : Str) (f : CachedGuild → CachedGuild) (dropped : ℕ)
      → dropped ≤ u64_max
      → ((g : CachedGuild) → (f g).id ≡ g.id)
      → ((g : CachedGuild)
          → has_guild id g ≡ true
          → IsFit mc mt (tick clock) g
          → IsFit mc mt (tick clock) (f g))
      → IsValid (modify_guild id f (record s { clock = tick clock; dropped_items = dropped }))
  unfolding later
  modify_guild-IsValid id f dropped d same keep = record {
    limit = v.limit;
    guild_room = omega (arith, length-modify_first (has_guild id) f s.guilds, v.guild_room);
    guild_ids =
        modify_first-Distinct guild_key (has_guild id) f (λ g _. same g) s.guilds v.guild_ids;
    fit = All-modify_first (has_guild id) (IsFit mc mt (tick clock)) f s.guilds keep later;
    clock_range = omega arith;
    dropped_range = d;
  }

  -- Eviction makes room for one guild in a full cache, and no more than that.
  pub evict-IsValid : IsValid (evict_least_recently_used_guild s)
  unfolding evict_least_recently_used_guild
  evict-IsValid = elim (oldest-IsOldest (λ (g : CachedGuild). g.touched) s.guilds) [
    | inl (e, _) ↦ rw (e, evict_least_recently_used_guild) v
    | inr (i, g, e, o) ↦
        rw (e, evict_least_recently_used_guild)
          (record {
            limit = v.limit;
            guild_room = omega (arith, length-remove_at i g s.guilds o.at, v.guild_room);
            guild_ids = remove_at-Distinct guild_key i s.guilds v.guild_ids;
            fit = All-remove_at _ i s.guilds v.fit;
            clock_range = v.clock_range;
            dropped_range = omega arith;
          })
  ]

  -- What an eviction does to the number of guilds and to the search for an absent one.
  pub record MadeRoom (id : Str) (t : TopologyState) : Type 0 where
    pub valid : IsValid t
    pub space : length t.guilds < t.max_guilds
    pub absent : any (has_guild id) t.guilds ≡ false
    pub same_clock : t.clock ≡ s.clock
    pub same_channels : t.max_channels_per_guild ≡ s.max_channels_per_guild

  pub make_room-MadeRoom :
      (id : Str) → any (has_guild id) s.guilds ≡ false → MadeRoom id (make_room s)
  unfolding make_room
  make_room-MadeRoom id absent =
      if_cases (MadeRoom id) (leb s.max_guilds (length s.guilds))
        (λ full. elim (oldest-IsOldest (λ (g : CachedGuild). g.touched) s.guilds) [
          | inl (_, e) ↦ absurd (ground (arith, v.limit, ap length e))
          | inr (i, g, e, o) ↦ record {
            valid = evict-IsValid;
            space =
                rw (e, evict_least_recently_used_guild)
                  (omega (arith, length-remove_at i g s.guilds o.at, v.guild_room));
            absent =
                rw (e, evict_least_recently_used_guild)
                  (any-remove_at (has_guild id) i s.guilds absent);
            same_clock = rw (e, evict_least_recently_used_guild);
            same_channels = rw (e, evict_least_recently_used_guild);
          }
        ])
        (λ room. record {
          valid = v;
          space = ground arith;
          absent = absent;
          same_clock = refl;
          same_channels = refl;
        })
