-- ===== src/Direct/Tests.antt =====
-- The direct channels of src/gateway/direct.rs at a concrete state.
use diddycord.Base.{none, ◌≡◌, [], ◌∷◌, some, bytes, map, foldl, take, arith}
use diddycord.Events.{
  FrontendDirectChannel, FrontendDirectChannelDelete, direct_channel_create, direct_channel_delete,
}
use diddycord.Direct.Cache.{DirectTopologyState, channel, drain}
use diddycord.State.Drain.{received}
use diddycord.Direct.Refinement.{drain-spec}
use diddycord.Direct.View.{spec}

abbrev ann : FrontendDirectChannel
ann = record {
  id = bytes "31";
  recipient_id = some (bytes "41");
  recipient_username = some (bytes "ann");
  recipient_global_name = none;
  recipient_avatar_hash = none;
}

abbrev bob : FrontendDirectChannel
bob = record ann { id = bytes "32"; recipient_username = some (bytes "bob") }

-- A cache with room for one channel, which is taken.
abbrev full : DirectTopologyState
full = record {
  channels = record { channel = ann; touched = 1 } ∷ [];
  max_channels = 1;
  clock = 1;
  dropped_items = 0;
  dropped_gateway_events = 0;
}

abbrev no_ann : FrontendDirectChannelDelete
no_ann = record { channel_id = bytes "31" }

-- A cache with room for three channels.
abbrev roomy : DirectTopologyState
roomy = record full { max_channels = 3 }

drain-spec_example :
    let events = direct_channel_create bob ∷ direct_channel_delete no_ann ∷ [] in
    channel (drain roomy (map received events) 2).0 ≡ foldl spec (channel roomy) (take 2 events)
drain-spec_example =
    drain-spec roomy (direct_channel_create bob ∷ direct_channel_delete no_ann ∷ []) 2 (omega arith)
