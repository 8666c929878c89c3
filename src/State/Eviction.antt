-- ===== src/State/Eviction.antt =====
-- The eviction of src/state.rs, which takes the least recently used timeline.
use mathlib.Core.Path.{subst}
use diddycord.Base.{
  sym, ◌∙◌, leb→le, str_eq, All-push_back, ℕ, suc, ◌≤◌, ◌<◌, ◌≡◌, refl, ap, inl, inr, Bool, true,
  false, List, [], ◌∷◌, none, some, Str, arith, ◌==◌, leb, length, All, All-imp, any, has,
  Option-cases, if_cases, length-push_back, push_back,
}
use diddycord.Base.Search.{any_none, any-false, Fails}
use diddycord.Base.Finds.{length-drop_first, All-drop_first}
use diddycord.Base.Keys.{drop_first-Distinct, push_back-Distinct}
use diddycord.State.Cache.{Entry, FrontendState, entry_key, empty_timeline}
use diddycord.State.Ops.{min_touched, evict_least_recently_used_channel, ensure_channel}
use diddycord.State.Valid.{IsLive, FitsEntry, IsValid}

pub min_touched-none : (es : List Entry) → min_touched es ≡ none → es ≡ []
unfolding min_touched
min_touched-none [] h = refl
min_touched-none (e ∷ es) h = ground arith

-- No stamp is smaller than the smallest.
pub min_touched-least :
    (es : List Entry) (oldest : ℕ)
    → min_touched es ≡ some oldest
    → All (λ (e : Entry). oldest ≤ e.1.touched) es
unfolding min_touched
min_touched-least [] oldest h = tt
min_touched-least (e ∷ es) oldest h = elim (Option-cases (min_touched es)) [
  | inl last ↦
      let bound : oldest ≤ e.1.touched = ground arith in
      (bound, subst (All (λ (e : Entry). oldest ≤ e.1.touched)) (sym (min_touched-none es last)) tt)
  | inr (o, more) ↦
      let bound : (oldest ≤ e.1.touched) × (oldest ≤ o) = ground arith in
      (
        bound.0,
        All-imp (λ (e : Entry). o ≤ e.1.touched) _ es (λ x h. omega (arith, bound.1))
            (min_touched-least es o more),
      )
]

-- It is the stamp of an entry.
pub min_touched-any :
    (es : List Entry) (oldest : ℕ)
    → min_touched es ≡ some oldest
    → any (λ (e : Entry). e.1.touched == oldest) es ≡ true
unfolding min_touched any
min_touched-any [] oldest h = cc
min_touched-any (e ∷ es) oldest h = elim (Option-cases (min_touched es)) [
  | inl last ↦ ground arith
  | inr (o, more) ↦ ground (arith, min_touched-any es o more, any-eq es o oldest)
]
  where
    any-eq :
        (es : List Entry) (o oldest : ℕ)
        → o ≡ oldest
        → any (λ (e : Entry). e.1.touched == o) es ≡ any (λ (e : Entry). e.1.touched == oldest) es
    any-eq es o oldest eq = ap (λ k. any (λ (e : Entry). e.1.touched == k) es) eq

evict-IsValid :
    (s : FrontendState)
    → IsValid s
    → IsValid (evict_least_recently_used_channel s)
      × (0 < length s.channels
          → suc (length (evict_least_recently_used_channel s).channels) ≡ length s.channels)
unfolding evict_least_recently_used_channel
evict-IsValid s v = elim (Option-cases (min_touched s.channels)) [
  | inl e ↦
      rw (e, evict_least_recently_used_channel)
        (v, λ pos. absurd (omega (arith, ap length (min_touched-none s.channels e))))
  | inr (o, e) ↦
      let size =
        length-drop_first (λ (e : Entry). e.1.touched == o) s.channels
          (min_touched-any s.channels o e) in
      rw (e, evict_least_recently_used_channel)
        (
          record {
            channel_limit = v.channel_limit;
            message_limit = v.message_limit;
            channel_room = omega (arith, size, v.channel_room);
            channel_ids = drop_first-Distinct entry_key _ s.channels v.channel_ids;
            timelines = All-drop_first _ (FitsEntry _) s.channels v.timelines;
            live = All-drop_first _ (IsLive s.retired_channels) s.channels v.live;
            retired_room = v.retired_room;
            topology = v.topology;
          },
          λ _. size,
        )
]

pub evict-frame :
    (s : FrontendState)
    → let t = evict_least_recently_used_channel s in
      (t.retired_channels ≡ s.retired_channels)
      × (t.max_channels ≡ s.max_channels)
      × (t.max_messages_per_channel ≡ s.max_messages_per_channel)
unfolding evict_least_recently_used_channel
evict-frame s = ground arith

pub any-evict :
    (s : FrontendState) (p : Entry → Bool)
    → any p s.channels ≡ false
    → any p (evict_least_recently_used_channel s).channels ≡ false
unfolding evict_least_recently_used_channel
any-evict s p h = elim (Option-cases (min_touched s.channels)) [
  | inl e ↦ rw (e, evict_least_recently_used_channel) h
  | inr (o, e) ↦
      rw (e, evict_least_recently_used_channel)
        (any_none p _ (All-drop_first _ (Fails p) s.channels (any-false p s.channels h)))
]

-- What a message or a page of history finds: the state is valid, and the channel has a timeline.
pub ensure_channel-IsValid :
    (s : FrontendState) (id : Str) (touched : ℕ)
    → any (λ r. str_eq r id) s.retired_channels ≡ false
    → IsValid s
    → IsValid (ensure_channel s id touched)
unfolding ensure_channel empty_timeline
ensure_channel-IsValid s id touched live v =
    if_cases IsValid (any (has entry_key id) s.channels) (λ known. v)
      (λ absent.
        if_cases
          (λ (room : FrontendState).
            IsValid
              (record room { channels = push_back room.channels (id, empty_timeline touched) }))
          (leb s.max_channels (length s.channels))
          (λ full.
            push (evict_least_recently_used_channel s) (evict-IsValid s v).0
              (ap (any (λ r. str_eq r id)) (evict-frame s).0 ∙ live) (any-evict s _ absent)
              (omega (
                arith,
                leb→le s.max_channels (length s.channels) full,
                (evict-IsValid s v).1,
                evict-frame s,
                v.channel_limit,
                v.channel_room,
              )))
          (λ room. push s v live absent (ground arith)))
  where
    push :
        (t : FrontendState)
        → IsValid t
        → any (λ r. str_eq r id) t.retired_channels ≡ false
        → any (has entry_key id) t.channels ≡ false
        → length t.channels < t.max_channels
        → IsValid (record t { channels = push_back t.channels (id, empty_timeline touched) })
    push t w live absent room = record {
      channel_limit = w.channel_limit;
      message_limit = w.message_limit;
      channel_room = omega (arith, length-push_back t.channels (id, empty_timeline touched));
      channel_ids = push_back-Distinct entry_key t.channels _ absent w.channel_ids;
      timelines =
          All-push_back (FitsEntry _) t.channels _ w.timelines
            (record { room = omega arith; ids = tt; own = tt });
      live = All-push_back (IsLive t.retired_channels) t.channels _ w.live live;
      retired_room = w.retired_room;
      topology = w.topology;
    }

-- The limit on messages, which the operations on a timeline are given, stays.
pub ensure_channel-limit :
    (s : FrontendState) (id : Str) (touched : ℕ)
    → (ensure_channel s id touched).max_messages_per_channel ≡ s.max_messages_per_channel
unfolding ensure_channel
ensure_channel-limit s id touched =
    if_cases (λ (t : FrontendState). t.max_messages_per_channel ≡ s.max_messages_per_channel)
      (any (has entry_key id) s.channels) (λ _. refl)
      (λ _.
        if_cases
          (λ (room : FrontendState). room.max_messages_per_channel ≡ s.max_messages_per_channel)
          (leb s.max_channels (length s.channels)) (λ _. (evict-frame s).2) (λ _. refl))
