-- ===== src/Gui/Valid.antt =====
-- What holds of the sessions of src/gui_app.rs.
use diddycord.Base.{ℕ, ◌≡◌, refl, true, false, not, ◌&&◌, ◌||◌, Str, arith, is_some}
use diddycord.State.Valid
use diddycord.State.ChannelInvariant.{new-IsValid}
use diddycord.Direct.Cache as Direct
use diddycord.Direct.Invariant as DirectInvariant
use diddycord.Rest.Handle.{RestHandle, TrySend, try_fetch_messages, try_send_message, fresh_handle}
use diddycord.Rest.Submits
use diddycord.Rest.Submits.{call, fetch, send, call-IsValid}
use diddycord.Gateway.Control.{NetworkControl}
use diddycord.Gui.Session.{GuiSession, started}

-- A guild is selected only outside of the direct mode; a channel has a name exactly if it is
-- selected, and it is selected only in a guild or in the direct mode.
pub record IsNavigable (s : GuiSession) : Type 0 where
  pub mode : (s.direct_mode && is_some s.selected_guild) ≡ false
  pub named : is_some s.selected_channel_name ≡ is_some s.selected_channel
  pub placed :
      (is_some s.selected_channel && not (s.direct_mode || is_some s.selected_guild)) ≡ false

-- The caches and the queue are valid, so is the navigation, and the worker is held exactly until it
-- has finished.
pub record IsValid (s : GuiSession) : Type 0 where
  pub state : Valid.IsValid s.state
  pub direct : DirectInvariant.IsValid s.direct
  pub rest : Submits.IsValid s.rest
  pub navigation : IsNavigable s
  pub worker : s.worker_finished ≡ not s.worker

-- A list of channels is shown.
abbrev pub IsPlaced : GuiSession → Type 0
IsPlaced s = (s.direct_mode || is_some s.selected_guild) ≡ true

fresh_handle-IsValid : Submits.IsValid fresh_handle
fresh_handle-IsValid = record { counter = omega arith; queued = tt }

pub fetch-IsValid :
    (answer : TrySend) (h : RestHandle) (channel_id : Str) (limit : ℕ)
    → Submits.IsValid h
    → Submits.IsValid (try_fetch_messages answer h channel_id limit).0
unfolding call
fetch-IsValid answer h channel_id limit v = call-IsValid answer h (fetch channel_id limit) v

pub send-IsValid :
    (answer : TrySend) (h : RestHandle) (channel_id content : Str)
    → Submits.IsValid h
    → Submits.IsValid (try_send_message answer h channel_id content).0
unfolding call
send-IsValid answer h channel_id content v = call-IsValid answer h (send channel_id content) v

pub started-IsValid : (control : NetworkControl) → IsValid (started control fresh_handle)
unfolding started
started-IsValid control = record {
  state = new-IsValid 128 200;
  direct = DirectInvariant.new-IsValid Direct.default_max_direct_channels;
  rest = fresh_handle-IsValid;
  navigation = record { mode = refl; named = refl; placed = refl };
  worker = refl;
}
