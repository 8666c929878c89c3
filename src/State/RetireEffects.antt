-- ===== src/State/RetireEffects.antt =====
-- What becomes of the timelines of the channels and threads that an event of src/state.rs retires.
use diddycord.Base.{◌≡◌, false, Str, any, has}
use diddycord.Events.{FrontendEvent}
use diddycord.Topology.Ops
use diddycord.Topology.Ops.{is_active_in, parent_in}
use diddycord.State.Cache.{FrontendState, entry_key}
use diddycord.State.Retire.{invalidate_topology_timelines}
use diddycord.State.Ops.{apply}

-- No timeline is cached for the id.
abbrev IsGone : Str → FrontendState → Type 0
IsGone id s = any (has entry_key id) s.channels ≡ false

-- After the topology has taken the event, nothing brings a retired timeline back.
abbrev settled : FrontendState → FrontendEvent → FrontendState
settled s event =
    let t = invalidate_topology_timelines s event in
    record t { topology = (Ops.apply t.topology event).0 }
