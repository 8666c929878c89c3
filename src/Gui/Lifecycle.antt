-- ===== src/Gui/Lifecycle.antt =====
-- How a session of src/gui_app.rs begins and ends.
use diddycord.Base.{
  ◌≡◌, refl, ap, List, Bool, true, false, not, ◌&&◌, [], none, some, Str, arith, is_some, bytes,
  ◌++◌, ◌||◌, if◌then◌else◌,
}
use diddycord.Base.Results.{Result, ok, err}
use diddycord.Base.Trim.{trim}
use diddycord.Snowflake.{is_empty}
use diddycord.Rest.Build
use diddycord.Gateway.Control.{NetworkControl, shutdown}
use diddycord.Gui.Session.{GuiSession, connect, poll}
use diddycord.Gui.Lists.{Widget}
use diddycord.Gui.Kept.{show_connected-control}
use mathlib.Core.Option
use diddycord.Gui.App.{
  DiddycordApp, Login, Platform, FrameInput, connect_clicked, show_login, update_session, update,
  drop, Frame, show_connected,
}

abbrev pub is_ok : Result (Unit {0}) Str → Bool
is_ok (ok _) = true
is_ok (err _) = false

update_session_lem :
    (platform : Platform) (input : FrameInput) (app : DiddycordApp) (s : GuiSession)
    → let f = update_session platform input app s in
      let told : NetworkControl = record s.control { stopping = true } in
      (Option.map (λ t. t.control) f.app.session
        ≡ (if input.actions.disconnect then none else some s.control))
      × (f.released ≡ (if input.actions.disconnect then some told else none))
      × (f.app.token ≡ app.token)
unfolding update_session shutdown
update_session_lem platform input app s =
    let (t, widgets) = show_connected platform input.actions (poll input.arrivals s) in
    go input.actions.disconnect t widgets
      (show_connected-control platform input.actions input.arrivals s)
  where
    go :
        (clicked : Bool) (t : GuiSession) (widgets : List Widget)
        → t.control ≡ s.control
        → let f : Frame =
            if clicked
            then record {
              app = record app { session = none };
              widgets = widgets;
              released = some (shutdown t.control);
            }
            else record {
              app = record app { session = some t };
              widgets = widgets;
              released = none;
            } in
          let told : NetworkControl = record s.control { stopping = true } in
          (Option.map (λ t. t.control) f.app.session ≡ (if clicked then none else some s.control))
          × (f.released ≡ (if clicked then some told else none))
          × (f.app.token ≡ app.token)
    go true t widgets kept = (refl, ap (λ k. some (shutdown k)) kept, refl)
    go false t widgets kept = (ap some kept, refl, refl)

-- In a frame in which Disconnect is clicked the session goes, and the network is told to stop through
-- the session's own control, in which nothing else is changed. In every other frame, whatever else
-- is clicked and whatever has arrived, the session stays, its control is as it was, so that the
-- network is not told to stop, and no control is released. The token is never touched. An
-- application that ends tells the network of its session to stop.
pub update-is_stopped :
    (platform : Platform) (input : FrameInput) (app : DiddycordApp) (s : GuiSession)
    → app.session ≡ some s
    → let f = update platform input app in
      let told : NetworkControl = record s.control { stopping = true } in
      (Option.map (λ t. t.control) f.app.session
        ≡ (if input.actions.disconnect then none else some s.control))
      × (f.released ≡ (if input.actions.disconnect then some told else none))
      × (f.app.token ≡ app.token)
      × (drop app ≡ some told)
unfolding update drop shutdown
update-is_stopped platform input app s h =
    let (session, released, token) = update_session_lem platform input app s in
    rw (h, update, drop) (session, released, token, refl)

-- The token after trimming cannot be empty, must be fit for a header, and the client and the worker
-- must start: then, and only then, the login screen gives way to a session; the application keeps no
-- token then, and otherwise keeps what is typed and shows an error if it tried.
pub show_login_lem :
    (l : Login) (app : DiddycordApp)
    → app.session ≡ none
    → let token = trim (l.typed app.token) in
      let header = bytes "Bot " ++ token in
      let tried = not (is_empty token) && l.connect in
      let starts = tried && l.accepts header && l.builds header && is_ok l.spawned in
      let t = (show_login l app).0 in
      (is_some t.session ≡ starts)
      × (t.token ≡ (if starts then [] else l.typed app.token))
      × (is_some t.connect_error ≡ (if starts then false else tried || is_some app.connect_error))
unfolding show_login connect_clicked connect Build.new
show_login_lem l app h = ground (arith, h)
