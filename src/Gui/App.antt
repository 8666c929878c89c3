-- ===== src/Gui/App.antt =====
-- src/gui_app.rs: `DiddycordApp`, its login screen, its frames and its end.
use diddycord.Base.{
  ℕ, Bool, true, false, not, if◌then◌else◌, List, [], ◌∷◌, ◌++◌, Option, none, some, Str, bytes,
  unwrap_or,
}
use diddycord.Base.Results.{Result, ok, err}
use diddycord.Base.Trim.{trim}
use diddycord.Snowflake.{is_empty}
use diddycord.Gateway.Control.{NetworkControl, shutdown}
use diddycord.Gui.Session.{GuiSession, Arrivals, connect, poll}
use diddycord.Gui.Panels.{show_connected_desktop, show_connected_mobile}
use diddycord.Gui.Lists.{Widget, heading, label, small, strong, button, text_edit, Actions, Shown}

pub record DiddycordApp : Type 0 where
  pub token : Str
  pub session : Option GuiSession
  pub connect_error : Option Str

-- The environment's DISCORD_BOT_TOKEN is an argument.
unfoldable pub default : Option Str → DiddycordApp
default variable = record { token = unwrap_or variable []; session = none; connect_error = none }

-- What the user does on the login screen, and what the attempt to connect meets.
pub record Login : Type 0 where
  pub typed : Str → Str
  pub connect : Bool
  pub accepts : Str → Bool
  pub builds : Str → Bool
  pub now : ℕ
  pub spawned : Result (Unit {0}) Str

-- The platform: a desktop or a mobile device.
pub data Platform : Type 0 where
  desktop mobile : Platform

-- Input of a frame.
pub record FrameInput : Type 0 where
  pub arrivals : Arrivals
  pub actions : Actions
  pub login : Login

-- The click on the button, where it is enabled.
unfoldable pub connect_clicked : Login → DiddycordApp → DiddycordApp
unfolding connect trim
connect_clicked l app = elim (connect l.accepts l.builds l.now l.spawned (trim app.token)) [
  | ok session ↦ record { token = []; session = some session; connect_error = none }
  | err error ↦ record app { connect_error = some error }
]

abbrev pub error_widget : Option Str → List Widget
error_widget none = []
error_widget (some error) = strong error ∷ []

unfoldable pub show_login : Login → DiddycordApp → DiddycordApp × List Widget
unfolding connect_clicked trim
show_login l app =
    let t = record app { token = l.typed app.token } in
    let can_connect = not (is_empty (trim t.token)) in
    (
      elim can_connect [ true ↦ if l.connect then connect_clicked l t else t | false ↦ t ],
      heading (bytes "Diddycord")
            ∷ label (bytes "Low-overhead graphical Discord bot client")
            ∷ label (bytes "Discord bot token")
            ∷ text_edit t.token
            ∷ small (
                bytes "Diddycord accepts bot/application tokens only. "
                ++ bytes "User-token/self-bot login is intentionally unsupported.")
            ∷ error_widget app.connect_error
          ++ button can_connect (bytes "Connect") ∷ [],
    )

unfoldable pub show_connected : Platform → Actions → GuiSession → Shown
unfolding show_connected_desktop show_connected_mobile
show_connected desktop a s = show_connected_desktop a s
show_connected mobile a s = show_connected_mobile a s

-- What a frame leaves: the application, what it has shown, and the control of a session that it has
-- dropped, through which the network is told to stop.
pub record Frame : Type 0 where
  pub app : DiddycordApp
  pub widgets : List Widget
  pub released : Option NetworkControl

-- The flag of `show_connected_desktop` and `show_connected_mobile` is the click on Disconnect.
unfoldable pub update_session : Platform → FrameInput → DiddycordApp → GuiSession → Frame
unfolding poll show_connected shutdown
update_session platform input app s =
    let (t, widgets) = show_connected platform input.actions (poll input.arrivals s) in
    if input.actions.disconnect
    then record {
      app = record app { session = none };
      widgets = widgets;
      released = some (shutdown t.control);
    }
    else record { app = record app { session = some t }; widgets = widgets; released = none }

unfoldable pub update : Platform → FrameInput → DiddycordApp → Frame
unfolding show_login update_session
update platform input app = elim app.session [
  | none ↦
      let (next, widgets) = show_login input.login app in
      record { app = next; widgets = widgets; released = none }
  | some s ↦ update_session platform input app s
]

-- `Drop`: the control of the session that the application ends with.
unfoldable pub drop : DiddycordApp → Option NetworkControl
unfolding shutdown
drop app = elim app.session [ none ↦ none | some s ↦ some (shutdown s.control) ]
