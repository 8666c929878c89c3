-- ===== src/Gui/Protocol.antt =====
-- The applications that src/gui_app.rs can reach, by frames and by what the network publishes.
use diddycord.Base.{ℕ, arith, Bool, [], Option, none, some, Str}
use diddycord.Base.Results.{Result, ok, err}
use diddycord.Base.Trim.{trim}
use diddycord.Rest.Build
use diddycord.Rest.Build.{Built, RestBuildError, build_error_text}
use diddycord.Gateway.Control.{NetworkControl, Publication, publish, default_intents, control}
use diddycord.Gateway.Control
use diddycord.Gui.Session.{GuiSession, connect, poll, gateway_event_budget}
use diddycord.Gui.App.{
  DiddycordApp, default, Login, Platform, FrameInput, Frame, connect_clicked, show_login,
  update_session, update,
}
use diddycord.Gui.Invariant.{poll-IsValid}
use diddycord.Gui.Valid.{IsValid, started-IsValid}
use diddycord.Gui.Reachable.{show_connected-IsValid}

-- The network publishes to the session's control.
unfoldable pub publish_to : Publication → DiddycordApp → DiddycordApp
unfolding publish
publish_to p app = elim app.session [
  | none ↦ app
  | some s ↦ record app { session = some (record s { control = publish p s.control }) }
]

-- From the start, by any frames with any input, and any publications between them.
pub data Reachable (platform : Platform) : DiddycordApp → Type 0 where
  start : (variable : Option Str) → Reachable platform (default variable)
  frame :
      {app : DiddycordApp}
      → Reachable platform app
      → (input : FrameInput) → Reachable platform (update platform input app).app
  published :
      {app : DiddycordApp}
      → Reachable platform app
      → (p : Publication) → Reachable platform (publish_to p app)

abbrev pub HasValid : Option GuiSession → Type 0
HasValid none = Unit {0}
HasValid (some s) = IsValid s

publish_to-HasValid :
    (p : Publication) (app : DiddycordApp)
    → HasValid app.session
    → HasValid (publish_to p app).session
unfolding publish_to
publish_to-HasValid p app h = go app.session h
  where
    go :
        (o : Option GuiSession)
        → HasValid o
        → HasValid
            (elim o as (λ _. DiddycordApp) [
              | none ↦ record app { session = o }
              | some s ↦ record app { session = some (record s { control = publish p s.control }) }
            ]).session
    go none h = tt
    go (some s) v = record {
      state = v.state;
      direct = v.direct;
      rest = v.rest;
      navigation = record {
        mode = v.navigation.mode;
        named = v.navigation.named;
        placed = v.navigation.placed;
      };
      worker = v.worker;
    }

-- A session that a login starts.
abbrev StartsValid : Result GuiSession Str → Type 0
StartsValid (ok s) = IsValid s
StartsValid (err _) = Unit {0}

connect-StartsValid :
    (accepts builds : Str → Bool) (now : ℕ) (spawned : Result (Unit {0}) Str) (token : Str)
    → StartsValid (connect accepts builds now spawned token)
unfolding connect Build.new
connect-StartsValid accepts builds now (ok _) token =
    let backbone =
      Control.new (record { token = token; intents = default_intents }) gateway_event_budget in
    ground (arith, started-IsValid (control backbone))
connect-StartsValid accepts builds now (err error) token = ground arith

connect_clicked-HasValid :
    (l : Login) (app : DiddycordApp)
    → HasValid app.session
    → HasValid (connect_clicked l app).session
unfolding connect_clicked
connect_clicked-HasValid l app h =
    go (connect l.accepts l.builds l.now l.spawned (trim app.token))
      (connect-StartsValid l.accepts l.builds l.now l.spawned (trim app.token))
  where
    go :
        (r : Result GuiSession Str)
        → StartsValid r
        → HasValid
            (elim r as (λ _. DiddycordApp) [
              | ok session ↦ record { token = []; session = some session; connect_error = none }
              | err error ↦ record app { connect_error = some error }
            ]).session
    go (ok session) v = v
    go (err error) v = h

show_login-HasValid :
    (l : Login) (app : DiddycordApp) → HasValid app.session → HasValid (show_login l app).0.session
unfolding show_login
show_login-HasValid l app h =
    let t : DiddycordApp = record app { token = l.typed app.token } in
    ground (arith, h, connect_clicked-HasValid l t h)

update-HasValid :
    (platform : Platform) (input : FrameInput) (app : DiddycordApp)
    → HasValid app.session
    → HasValid (update platform input app).app.session
unfolding update update_session
update-HasValid platform input app h = go app.session h
  where
    go :
        (o : Option GuiSession)
        → HasValid o
        → HasValid
            (elim o as (λ _. Frame) [
              | none ↦
                  let (next, widgets) = show_login input.login app in
                  record { app = next; widgets = widgets; released = none }
              | some s ↦ update_session platform input app s
            ]).app.session
    go none v = show_login-HasValid input.login app h
    go (some s) v =
        let w =
          show_connected-IsValid input.actions platform (poll input.arrivals s)
            (poll-IsValid input.arrivals s v) in
        ground (arith, w)

-- Whatever arrives, is clicked and is typed, on either platform, a session has valid caches and a
-- valid queue; a guild is selected only outside of the direct mode; a channel has a name exactly if
-- it is selected, and is selected only in a guild or in the direct mode; and the worker is held
-- exactly until it has finished.
pub reachable-HasValid :
    {platform : Platform} {app : DiddycordApp} → Reachable platform app → HasValid app.session
unfolding default
reachable-HasValid (Reachable.start variable) = tt
reachable-HasValid {platform} (Reachable.frame {app} r input) =
    update-HasValid platform input app (reachable-HasValid r)
reachable-HasValid (Reachable.published {app} r p) =
    publish_to-HasValid p app (reachable-HasValid r)
