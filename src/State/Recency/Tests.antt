-- ===== src/State/Recency/Tests.antt =====
-- A full cache of src/state.rs, with concrete input.
use diddycord.Base.{
  ℕ, push_back, sat_add, ◌≤◌, ◌≡◌, refl, [], ◌∷◌, Str, bytes, str_eq, any, All, arith,
}
use diddycord.Base.Oldest.{At, remove_at}
use diddycord.Events.{FrontendMessage, message}
use diddycord.State.Cache.{Entry, FrontendState, is_retired_channel, new, timeline}
use diddycord.State.Ops.{apply, apply_message, ensure_channel, modify_channel}
use diddycord.State.Invariant.{apply_gateway-IsValid}
use diddycord.State.ChannelInvariant.{new-IsValid}
use diddycord.State.Recency.{apply_message-full}

abbrev lobby : Str
lobby = bytes "11"

abbrev garden : Str
garden = bytes "22"

abbrev first : FrontendMessage
first = record {
  id = bytes "101";
  channel_id = lobby;
  author_username = bytes "ann";
  content = bytes "hello";
}

abbrev second : FrontendMessage
second = record first { id = bytes "102"; channel_id = garden }

-- The one place is taken by the lobby.
abbrev full_state : FrontendState
full_state = apply (new 1 2) (message first)

apply_message-full_example :
    let t = apply full_state (message second) in
    (i : ℕ) × (victim : Entry) × At i victim full_state.channels
    × All (λ (e : Entry). victim.1.touched ≤ e.1.touched) full_state.channels
    × (t.channels
        ≡ push_back (remove_at i full_state.channels) (
          garden,
          record { messages = message second ∷ []; touched = sat_add full_state.clock 1 },
        ))
    × (timeline t garden ≡ message second ∷ [])
unfolding new apply apply_message ensure_channel modify_channel is_retired_channel any str_eq
apply_message-full_example =
    apply_message-full full_state second
      (apply_gateway-IsValid (new 1 2) (message first) (new-IsValid 1 2)) refl refl (omega arith)

-- The lobby's timeline is gone.
lobby_gone : timeline (apply full_state (message second)) lobby ≡ []
unfolding new apply apply_message ensure_channel modify_channel timeline str_eq
lobby_gone = refl
