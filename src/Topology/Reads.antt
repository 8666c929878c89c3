-- ===== src/Topology/Reads.antt =====
-- What the read methods of src/topology.rs see of a rewritten guild and of an upsert.
use diddycord.Base.{
  ℕ, ◌≤◌, ◌≡◌, refl, ap, ◌∙◌, ◌⊎◌, inl, inr, Bool, true, false, List, [], none, some, Str, str_eq,
  str_eq_iff, str_eq_refl, arith, any, find, modify_first, has, if_cases, length, leb,
}
use diddycord.Base.Search.{find-modify_first_ne, find-none, find_absent}
use diddycord.Base.Finds.{find-modify_first, find-replace_first, find-push_back, find-push_back_ne}
use diddycord.Topology.Cache.{
  CachedGuild, TopologyState, channel_key, thread_key, has_guild, find_guild, channel, channels,
  thread, threads,
}
use diddycord.Topology.Guilds.{upsert}

-- Where the guild is cached, a rewrite of it is what the search finds.
pub find-modify_guild :
    (s : TopologyState) (id : Str) (f : CachedGuild → CachedGuild) (g : CachedGuild)
    → ((g : CachedGuild) → (f g).id ≡ g.id)
    → find_guild s id ≡ some g
    → find (has_guild id) (modify_first (has_guild id) f s.guilds) ≡ some (f g)
find-modify_guild s id f g same e =
    rw (find-modify_first (has_guild id) f s.guilds (λ g h. ap (λ k. str_eq k id) (same g) ∙ h), e)

module _ {ℓ} {A : Type ℓ} (key : A → Str) (limit : ℕ) (x : A) (xs : List A) where
  -- The entry is found under its key, or it was dropped: the vector is full and has no such key.
  abbrev pub Outcome : List A × Bool → Type ℓ
  Outcome r =
      (find (has key (key x)) r.0 ≡ some x) × (r.1 ≡ false)
      ⊎ (limit ≤ length xs) × (find (has key (key x)) r.0 ≡ none) × (r.1 ≡ true)

  pub upsert-Outcome : Outcome (upsert key limit x xs)
  unfolding upsert
  upsert-Outcome =
      if_cases Outcome (any (has key (key x)) xs)
        (λ old. inl (find-replace_first (has key (key x)) x xs (str_eq_refl (key x)) old, refl))
        (λ absent.
          if_cases Outcome (leb limit (length xs))
            (λ full. inr (ground arith, find_absent (has key (key x)) xs absent, refl))
            (λ room.
              inl (find-push_back (has key (key x)) x xs (str_eq_refl (key x)) absent, refl)))

  pub find-upsert_ne :
      (k : Str)
      → str_eq (key x) k ≡ false
      → find (has key k) (upsert key limit x xs).0 ≡ find (has key k) xs
  unfolding upsert
  find-upsert_ne k ne =
      if_cases (λ (r : List A × Bool). find (has key k) r.0 ≡ find (has key k) xs)
        (any (has key (key x)) xs)
        (λ old.
          find-modify_first_ne (has key (key x)) (has key k) (λ _. x) xs
            (λ y h. ground (arith, str_eq_iff (key y) (key x))) (λ y h. ne))
        (λ absent.
          if_cases (λ (r : List A × Bool). find (has key k) r.0 ≡ find (has key k) xs)
            (leb limit (length xs)) (λ full. refl) (λ room. find-push_back_ne (has key k) x xs ne))

-- What the reads return once the guild is found.
module _ (s : TopologyState) (id : Str) (g : CachedGuild) (e : find_guild s id ≡ some g) where
  pub channel_of :
      (channel_id : Str) → channel s id channel_id ≡ find (has channel_key channel_id) g.channels
  unfolding channel
  channel_of channel_id = rw (e, channel)

  pub thread_of :
      (thread_id : Str) → thread s id thread_id ≡ find (has thread_key thread_id) g.threads
  unfolding thread
  thread_of thread_id = rw (e, thread)

  pub channels_of : channels s id ≡ g.channels
  unfolding channels
  channels_of = rw (e, channels)

  pub threads_of : threads s id ≡ g.threads
  unfolding threads
  threads_of = rw (e, threads)

-- What they return for a guild that is not cached.
module _ (s : TopologyState) (id : Str) (e : find_guild s id ≡ none) where
  pub channel_absent : (channel_id : Str) → channel s id channel_id ≡ none
  unfolding channel
  channel_absent channel_id = rw (e, channel)

  pub thread_absent : (thread_id : Str) → thread s id thread_id ≡ none
  unfolding thread
  thread_absent thread_id = rw (e, thread)

  pub threads_absent : threads s id ≡ []
  unfolding threads
  threads_absent = rw (e, threads)

  pub not_cached : any (has_guild id) s.guilds ≡ false
  not_cached = find-none (has_guild id) s.guilds e

pub channels_absent : (s : TopologyState) (id : Str) → find_guild s id ≡ none → channels s id ≡ []
unfolding channels
channels_absent s id e = rw (e, channels)
