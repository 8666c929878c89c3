-- ===== src/Direct/Lookups.antt =====
-- What the read methods of src/gateway/direct.rs find after an event.
use diddycord.Base.{
  eq_if, if◌then◌else◌, str_eq_sound, ℕ, ◌≡◌, refl, sym, ap, ◌∙◌, Bool, false, Option, none, some,
  Str, arith, any, find, retain, lacks, str_eq, str_eq_iff, str_eq_refl, leb, length, push_back,
  if_cases, ◌+◌, min, u64_max, sat_add,
}
use diddycord.Base.Search.{find-retain, find-retain-none}
use diddycord.Base.Finds.{find-replace_first, find-push_back}
use diddycord.Base.Oldest.{oldest, remove_at, any-remove_at}
use diddycord.Events.{
  FrontendDirectChannel, FrontendDirectChannelDelete, direct_channel_create, direct_channel_update,
  direct_channel_delete,
}
use diddycord.Direct.Cache.{
  CachedDirectChannel, DirectTopologyState, direct_key, has_direct, channel,
  evict_least_recently_used, insert_channel, upsert, apply,
}

abbrev pub content : Option CachedDirectChannel → Option FrontendDirectChannel
content none = none
content (some c) = some c.channel

pub channel-content :
    (s : DirectTopologyState) (id : Str) → channel s id ≡ content (find (has_direct id) s.channels)
unfolding channel
channel-content s id = go (find (has_direct id) s.channels)
  where
    go :
        (o : Option CachedDirectChannel)
        → (elim o as (λ _. Option FrontendDirectChannel) [ none ↦ none | some c ↦ some c.channel ])
          ≡ content o
    go none = refl
    go (some c) = refl

direct_delete-cases :
    (s : DirectTopologyState) (delete : FrontendDirectChannelDelete)
    → let t = (apply s (direct_channel_delete delete)).0 in
      (channel t delete.channel_id ≡ none)
      × ((id : Str) → str_eq delete.channel_id id ≡ false → channel t id ≡ channel s id)
unfolding apply
direct_delete-cases s delete =
    let t = record s { channels = retain (lacks direct_key delete.channel_id) s.channels } in
    (
      channel-content t delete.channel_id
          ∙ ap content
              (find-retain-none _ (has_direct delete.channel_id) s.channels (λ c h. ground arith)),
      λ id ne.
          channel-content t id
          ∙ ap content (
              find-retain _ (has_direct id) s.channels (λ c h. ground (
                arith,
                str_eq_iff c.channel.id id,
                str_eq_iff c.channel.id delete.channel_id,
                str_eq_iff delete.channel_id id,
              )))
          ∙ sym (channel-content s id),
    )

any-evict :
    (s : DirectTopologyState) (p : CachedDirectChannel → Bool)
    → any p s.channels ≡ false
    → any p (evict_least_recently_used s).channels ≡ false
unfolding evict_least_recently_used
any-evict s p h = go (oldest (λ (c : CachedDirectChannel). c.touched) s.channels)
  where
    go :
        (o : Option (ℕ × CachedDirectChannel))
        → any p
            (elim o as (λ _. DirectTopologyState) [
              | none ↦ s
              | some (index, c) ↦ record s {
                channels = remove_at index s.channels;
                dropped_items = min (s.dropped_items + 1) u64_max;
              }
            ]).channels
          ≡ false
    go none = h
    go (some (index, c)) = any-remove_at p index s.channels h

-- A direct channel that an event creates or updates is found under its id afterwards, whatever had
-- to make room for it.
pub apply_direct_update-reads :
    (s : DirectTopologyState) (c : FrontendDirectChannel)
    → channel (apply s (direct_channel_update c)).0 c.id ≡ some c
unfolding apply upsert insert_channel
apply_direct_update-reads s c =
    let touched = sat_add s.clock 1 in
    let entry : CachedDirectChannel = record { channel = c; touched = touched } in
    let t = record s { clock = touched } in
    let p = has_direct c.id in
    if_cases (λ (t : DirectTopologyState). channel t c.id ≡ some c) (any p s.channels)
      (λ known.
        channel-content _ c.id
        ∙ ap content (find-replace_first p entry s.channels (str_eq_refl c.id) known))
      (λ absent.
        if_cases
          (λ (room : DirectTopologyState).
            channel (record room { channels = push_back room.channels entry }) c.id ≡ some c)
          (leb s.max_channels (length s.channels))
          (λ _.
            channel-content _ c.id
            ∙ ap content (
                find-push_back p entry (evict_least_recently_used t).channels (str_eq_refl c.id)
                  (any-evict t p absent)))
          (λ _.
            channel-content _ c.id
            ∙ ap content (find-push_back p entry s.channels (str_eq_refl c.id) absent)))

-- After a direct channel's deletion no read finds it; every other one is found as before.
pub apply_direct_delete-reads :
    (s : DirectTopologyState) (delete : FrontendDirectChannelDelete) (id : Str)
    → channel (apply s (direct_channel_delete delete)).0 id
      ≡ (if str_eq delete.channel_id id then none else channel s id)
apply_direct_delete-reads s delete id =
    let t = (apply s (direct_channel_delete delete)).0 in
    let (gone, same) = direct_delete-cases s delete in
    eq_if (str_eq delete.channel_id id) (channel t id) none (channel s id)
      (λ h. ap (channel t) (sym (str_eq_sound delete.channel_id id h)) ∙ gone) (same id)

-- A direct channel that an event creates or updates is found under its id afterwards, whatever had
-- to make room for it; one that is deleted is not found, and a deletion leaves every other one.
pub apply_direct-reads :
    (s : DirectTopologyState) (c : FrontendDirectChannel) (delete : FrontendDirectChannelDelete)
    (id : Str)
    → (channel (apply s (direct_channel_create c)).0 c.id ≡ some c)
      × (channel (apply s (direct_channel_update c)).0 c.id ≡ some c)
      × (channel (apply s (direct_channel_delete delete)).0 id
          ≡ (if str_eq delete.channel_id id then none else channel s id))
unfolding apply
apply_direct-reads s c delete id = (
  apply_direct_update-reads s c,
  apply_direct_update-reads s c,
  apply_direct_delete-reads s delete id,
)
