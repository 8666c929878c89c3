-- ===== src/Direct/View.antt =====
-- The map that the cache of src/gateway/direct.rs stands for, without bound, stamps or order.
use diddycord.Base.{
  ℕ, ◌+◌, ◌≤◌, ◌≡◌, refl, sym, ap, ◌∙◌, true, false, List, [], ◌∷◌, Option, none, some, Str, str_eq,
  str_eq_iff, str_eq_refl, arith, any, find, modify_first, length, push_back, leb, if_cases,
  if◌then◌else◌, eq_if, sat_add, length-push_back,
}
use diddycord.Base.Search.{find-modify_first_ne, length-modify_first}
use diddycord.Base.Finds.{find-replace_first, find-push_back, find-push_back_ne}
use diddycord.Events.{
  FrontendDirectChannel, FrontendEvent, direct_channel_create, direct_channel_update,
  direct_channel_delete,
}
use diddycord.Direct.Cache.{
  CachedDirectChannel, DirectTopologyState, has_direct, channel, upsert, insert_channel,
}
use diddycord.Direct.Lookups.{content, channel-content}

-- The map from ids to direct channels.
abbrev pub View : Type 0
View = Str → Option FrontendDirectChannel

abbrev pub written : FrontendDirectChannel → View → View
written c view id = if str_eq c.id id then some c else view id

-- What an event does to the map: creations and updates write, deletions erase, and nothing else
-- matters.
abbrev pub spec : View → FrontendEvent → View
spec view (direct_channel_create c) = written c view
spec view (direct_channel_update c) = written c view
spec view (direct_channel_delete delete) =
    λ id. if str_eq delete.channel_id id then none else view id
spec view _ = view

-- The room that an event may take.
abbrev pub demand : FrontendEvent → ℕ
demand (direct_channel_create c) = 1
demand (direct_channel_update c) = 1
demand _ = 0

abbrev pub demand_all : List FrontendEvent → ℕ
demand_all [] = 0
demand_all (event ∷ events) = demand event + demand_all events

-- A new stamp leaves what is found as it is.
pub find-stamped :
    (id key : Str) (touched : ℕ) (cs : List CachedDirectChannel)
    → content (
        find
          (has_direct id)
          (modify_first (has_direct key) (λ c. record c { touched = touched }) cs))
      ≡ content (find (has_direct id) cs)
unfolding find modify_first
find-stamped id key touched [] = refl
find-stamped id key touched (c ∷ cs) = ground (arith, find-stamped id key touched cs)

module _ (s : DirectTopologyState) (c : FrontendDirectChannel) where
  abbrev entry : CachedDirectChannel
  entry = record { channel = c; touched = sat_add s.clock 1 }

  upsert_known :
      (id : Str)
      → any (has_direct c.id) s.channels ≡ true
      → content (find (has_direct id) (modify_first (has_direct c.id) (λ _. entry) s.channels))
        ≡ written c (channel s) id
  upsert_known id known =
      let cs = modify_first (has_direct c.id) (λ _. entry) s.channels in
      eq_if (str_eq c.id id) (content (find (has_direct id) cs)) (some c) (channel s id)
        (λ same.
          ap (λ k. content (find (has_direct k) cs)) (sym ((str_eq_iff c.id id).0 same))
          ∙ ap content
              (find-replace_first (has_direct c.id) entry s.channels (str_eq_refl c.id) known))
        (λ other.
          ap content (
            find-modify_first_ne (has_direct c.id) (has_direct id) (λ _. entry) s.channels
              (λ x h. ground (
                arith,
                other,
                h,
                str_eq_iff x.channel.id id,
                str_eq_iff x.channel.id c.id,
                str_eq_iff c.id id,
              ))
              (λ _ _. other))
          ∙ sym (channel-content s id))

  upsert_new :
      (id : Str)
      → any (has_direct c.id) s.channels ≡ false
      → content (find (has_direct id) (push_back s.channels entry)) ≡ written c (channel s) id
  upsert_new id absent =
      let cs = push_back s.channels entry in
      eq_if (str_eq c.id id) (content (find (has_direct id) cs)) (some c) (channel s id)
        (λ same.
          ap (λ k. content (find (has_direct k) cs)) (sym ((str_eq_iff c.id id).0 same))
          ∙ ap content
              (find-push_back (has_direct c.id) entry s.channels (str_eq_refl c.id) absent))
        (λ other.
          ap content (find-push_back_ne (has_direct id) entry s.channels other)
          ∙ sym (channel-content s id))

  pub upsert-written :
      (id : Str)
      → length s.channels + 1 ≤ s.max_channels
      → channel (upsert s c) id ≡ written c (channel s) id
  unfolding upsert insert_channel
  upsert-written id room =
      if_cases (λ (t : DirectTopologyState). channel t id ≡ written c (channel s) id)
        (any (has_direct c.id) s.channels) (λ known. channel-content _ id ∙ upsert_known id known)
        (λ absent.
          if_cases
            (λ (r : DirectTopologyState).
              channel (record r { channels = push_back r.channels entry }) id
              ≡ written c (channel s) id)
            (leb s.max_channels (length s.channels)) (λ full. absurd (ground (arith, full, room)))
            (λ _. channel-content _ id ∙ upsert_new id absent))

  pub length-upsert :
      length s.channels + 1 ≤ s.max_channels
      → (length (upsert s c).channels ≤ length s.channels + 1)
        × ((upsert s c).max_channels ≡ s.max_channels)
  unfolding upsert insert_channel
  length-upsert room = ground (
    arith,
    room,
    length-modify_first (has_direct c.id) (λ _. entry) s.channels,
    length-push_back s.channels entry,
  )
