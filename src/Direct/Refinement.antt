-- ===== src/Direct/Refinement.antt =====
-- The cache of src/gateway/direct.rs as a map: as long as there is room, it keeps exactly what a map
-- without bounds, stamps and order would.
use mathlib.Core.Path.{fun_ext}
use diddycord.Base.{
  ℕ, ◌+◌, ◌-◌, ◌≤◌, ◌≡◌, refl, sym, ap, ◌∙◌, inl, inr, Bool, List, [], ◌∷◌, Str, arith, any, lacks,
  length, ltb, ltb→lt, if_cases, foldl, map, take, sat_add, Bool-cases,
}
use diddycord.Base.Search.{length-modify_first, length-retain-le}
use diddycord.Events.{
  FrontendEvent, message, message_update, message_delete, direct_channel_create,
  direct_channel_update, direct_channel_delete,
}
use diddycord.State.Drain.{received}
use diddycord.State.DrainOrder.{take_nil, take_more}
use diddycord.Direct.Drains.{counted}
use diddycord.Direct.Cache.{
  CachedDirectChannel, DirectTopologyState, DirectDrainReport, direct_key, has_direct, channel,
  touch, apply, drain, drain_loop, no_direct_report,
}
use diddycord.Direct.Lookups.{channel-content, apply_direct_delete-reads}
use diddycord.Direct.View.{spec, demand, demand_all, find-stamped, upsert-written, length-upsert}

touch-channel : (s : DirectTopologyState) (key id : Str) → channel (touch s key).0 id ≡ channel s id
unfolding touch
touch-channel s key id =
    if_cases (λ (r : DirectTopologyState × Bool). channel r.0 id ≡ channel s id)
      (any (has_direct key) s.channels)
      (λ _.
        channel-content _ id
        ∙ find-stamped id key (sat_add s.clock 1) s.channels
        ∙ sym (channel-content s id))
      (λ _. refl)

length-touch :
    (s : DirectTopologyState) (key : Str)
    → (length (touch s key).0.channels ≤ length s.channels)
      × ((touch s key).0.max_channels ≡ s.max_channels)
unfolding touch
length-touch s key = ground (
  arith,
  length-modify_first (has_direct key)
      (λ (c : CachedDirectChannel). record c { touched = sat_add s.clock 1 }) s.channels,
)

-- One event, as long as there is room for it.
apply-spec :
    (s : DirectTopologyState) (event : FrontendEvent) (id : Str)
    → length s.channels + demand event ≤ s.max_channels
    → channel (apply s event).0 id ≡ spec (channel s) event id
unfolding apply
apply-spec s (direct_channel_create c) id room = upsert-written s c id room
apply-spec s (direct_channel_update c) id room = upsert-written s c id room
apply-spec s (direct_channel_delete delete) id room = apply_direct_delete-reads s delete id
apply-spec s (message m) id room = touch-channel s m.channel_id id
apply-spec s (message_update update) id room = touch-channel s update.channel_id id
apply-spec s (message_delete delete) id room = touch-channel s delete.channel_id id
apply-spec s _ id room = refl

length-apply :
    (s : DirectTopologyState) (event : FrontendEvent)
    → length s.channels + demand event ≤ s.max_channels
    → (length (apply s event).0.channels ≤ length s.channels + demand event)
      × ((apply s event).0.max_channels ≡ s.max_channels)
unfolding apply
length-apply s (direct_channel_create c) room = length-upsert s c room
length-apply s (direct_channel_update c) room = length-upsert s c room
length-apply s (direct_channel_delete delete) room =
    omega (arith, length-retain-le (lacks direct_key delete.channel_id) s.channels)
length-apply s (message m) room = omega (arith, length-touch s m.channel_id)
length-apply s (message_update update) room = omega (arith, length-touch s update.channel_id)
length-apply s (message_delete delete) room = omega (arith, length-touch s delete.channel_id)
length-apply s _ room = omega arith

abbrev pub run : DirectTopologyState → List FrontendEvent → DirectTopologyState
run = foldl (λ s event. (apply s event).0)

run-spec :
    (s : DirectTopologyState) (events : List FrontendEvent)
    → length s.channels + demand_all events ≤ s.max_channels
    → channel (run s events) ≡ foldl spec (channel s) events
run-spec s [] room = refl
run-spec s (event ∷ events) room =
    let (fits, same) = length-apply s event (omega (arith, room)) in
    run-spec (apply s event).0 events (omega (arith, fits, same, room))
    ∙ ap (λ view. foldl spec view events)
        (fun_ext (λ id. apply-spec s event id (omega (arith, room))))

drain_loop-run :
    (budget : ℕ) (s : DirectTopologyState) (r : DirectDrainReport) (events : List FrontendEvent)
    → r.processed ≤ budget
    → (drain_loop budget s r (map received events)).0 ≡ run s (take (budget - r.processed) events)
unfolding drain_loop
drain_loop-run budget s r [] within = ap (run s) (sym (take_nil (budget - r.processed)))
drain_loop-run budget s r (event ∷ events) within = elim (Bool-cases (ltb r.processed budget)) [
  | inr full ↦
      rw (full, drain_loop)
        (ap (λ k. run s (take k (event ∷ events))) {x = 0} {y = budget - r.processed}
          (ground (arith, full, within)))
  | inl more ↦
      rw (more, drain_loop)
        (drain_loop-run budget (apply s event).0 (counted s event r) events
            (omega (arith, ltb→lt r.processed budget more))
          ∙ ap (run s) (take_more event events r.processed budget (ltb→lt r.processed budget more)))
]

-- A drain refines the map: where nothing was lost and there is room for what is created and updated,
-- a read finds after it what the map has after the events that wait, the first `budget` of them or
-- all, in their order.
pub drain-spec :
    (s : DirectTopologyState) (events : List FrontendEvent) (budget : ℕ)
    → length s.channels + demand_all (take budget events) ≤ s.max_channels
    → channel (drain s (map received events) budget).0 ≡ foldl spec (channel s) (take budget events)
unfolding drain
drain-spec s events budget room =
    ap channel (drain_loop-run budget s no_direct_report events (omega arith))
    ∙ ap (λ k. channel (run s (take k events))) {x = budget - 0} {y = budget} (omega arith)
    ∙ run-spec s (take budget events) room
