-- ===== src/Gui/Panels.antt =====
-- src/gui_app.rs: the messages of a channel, and all panels together as a frame shows them; spaces,
-- separators and the layout are left out.
use diddycord.Base.{
  Bool, true, not, ◌&&◌, if◌then◌else◌, List, [], ◌∷◌, ◌++◌, Option, none, some, Str, bytes,
  unwrap_or,
}
use diddycord.Base.Results.{ok, err}
use diddycord.Base.Trim.{trim}
use diddycord.Events.{FrontendMessage}
use diddycord.Snowflake.{is_empty}
use diddycord.State.Cache
use diddycord.Rest.Handle.{TrySend, try_send_message}
use diddycord.Rest.Build.{submit_error_text}
use diddycord.Gateway.Control
use diddycord.Gateway.Payloads.{display_name}
use diddycord.Gui.Session.{GuiSession, back_to_channels, back_to_servers}
use diddycord.Gui.Rows.{gateway_latency_label, network_status_label}
use diddycord.Gui.Lists.{
  Widget, heading, label, strong, small, button, text_edit, Actions, Shown, show_guilds,
  show_channels,
}

unfoldable pub draw_messages : List FrontendMessage → List Widget
draw_messages [] = []
draw_messages (m ∷ ms) = strong m.author_username ∷ label m.content ∷ draw_messages ms

unfoldable pub message_list : List FrontendMessage → List Widget
unfolding draw_messages
message_list [] =
    label (bytes "No cached messages yet. Recent history is requested when a channel is selected.")
    ∷ []
message_list (m ∷ ms) = draw_messages (m ∷ ms)

unfoldable pub can_send : GuiSession → Bool
unfolding trim
can_send s = not (is_empty (trim s.compose)) && not s.worker_finished

-- The click on the button, where it is enabled.
unfoldable pub send_clicked : TrySend → Str → GuiSession → GuiSession
unfolding try_send_message submit_error_text trim
send_clicked answer channel_id s =
    let (rest, result) = try_send_message answer s.rest channel_id (trim s.compose) in
    let t = record s { rest = rest } in
    elim result [
      | ok _ ↦ record t { compose = []; notice = none }
      | err error ↦ record t { notice = some (submit_error_text error) }
    ]

unfoldable pub show_send_button : Actions → Str → GuiSession → Shown
unfolding can_send send_clicked
show_send_button a channel_id s = (
  if can_send s && a.send then send_clicked a.send_answer channel_id s else s,
  button (can_send s) (bytes "Send") ∷ [],
)

abbrev pub notice_widget : Option Str → List Widget
notice_widget none = []
notice_widget (some notice) = small notice ∷ []

unfoldable pub show_messages : Actions → GuiSession → Shown
unfolding message_list show_send_button Cache.messages
show_messages a s = elim s.selected_channel [
  | none ↦ (
    s,
    heading (bytes "Select a text channel")
        ∷ label (bytes "Messages, live Gateway updates and REST history will appear here.")
        ∷ [],
  )
  | some channel_id ↦
      let t = record s { compose = a.typed s.compose } in
      let (u, send_button) = show_send_button a channel_id t in
      (
        u,
        heading (bytes "# " ++ unwrap_or s.selected_channel_name channel_id)
              ∷ message_list (Cache.messages s.state channel_id)
            ++ notice_widget s.notice
            ++ text_edit t.compose ∷ send_button,
      )
]

abbrev pub latency_widget : Option Str → List Widget
latency_widget none = []
latency_widget (some latency) = label latency ∷ []

unfoldable pub user_widget : GuiSession → List Widget
unfolding display_name
user_widget s = elim (Control.self_user s.control) [
  | none ↦ []
  | some user ↦ label (bytes "Signed in as " ++ display_name user) ∷ []
]

unfoldable pub top_bar : GuiSession → List Widget
unfolding user_widget gateway_latency_label network_status_label
top_bar s =
    heading (bytes "Diddycord")
      ∷ label (network_status_label (Control.status s.control))
      ∷ latency_widget (gateway_latency_label (Control.latency s.control))
    ++ user_widget s
    ++ button true (bytes "Disconnect") ∷ []

-- The whole frame on a desktop: three panels below the top bar.
unfoldable pub show_connected_desktop : Actions → GuiSession → Shown
unfolding top_bar show_guilds show_channels show_messages
show_connected_desktop a s =
    let (t, guilds) = show_guilds a s in
    let (u, channels) = show_channels a t in
    let (v, messages) = show_messages a u in (v, top_bar s ++ guilds ++ channels ++ messages)

-- The button for the way back, if there is one.
unfoldable pub show_back : Actions → GuiSession → Shown
unfolding back_to_channels back_to_servers
show_back a s = elim s.selected_channel [
  | some _ ↦ (
    if a.back then back_to_channels s else s,
    button true (0xe2 ∷ 0x80 ∷ 0xb9 ∷ bytes " Channels") ∷ [],
  )
  | none ↦ elim s.selected_guild as (λ _. Shown) [
    | some _ ↦ (
      if a.back then back_to_servers s else s,
      button true (0xe2 ∷ 0x80 ∷ 0xb9 ∷ bytes " Servers") ∷ [],
    )
    | none ↦
        if s.direct_mode
        then (
          if a.back then back_to_servers s else s,
          button true (0xe2 ∷ 0x80 ∷ 0xb9 ∷ bytes " Servers") ∷ [],
        )
        else (s, heading (bytes "Diddycord") ∷ [])
  ]
]

-- The one pane of a mobile frame.
unfoldable pub show_pane : Actions → GuiSession → Shown
unfolding show_guilds show_channels show_messages
show_pane a s = elim s.selected_channel [
  | some _ ↦ show_messages a s
  | none ↦ elim s.selected_guild as (λ _. Shown) [
    | some _ ↦ show_channels a s
    | none ↦ if s.direct_mode then show_channels a s else show_guilds a s
  ]
]

abbrev pub small_all : List Widget → List Widget
small_all [] = []
small_all (label text ∷ widgets) = small text ∷ small_all widgets
small_all (widget ∷ widgets) = widget ∷ small_all widgets

unfoldable pub show_connected_mobile : Actions → GuiSession → Shown
unfolding show_back show_pane user_widget gateway_latency_label network_status_label
show_connected_mobile a s =
    let (t, back) = show_back a s in
    let (u, pane) = show_pane a t in
    (
      u,
      back
          ++ button true (bytes "Disconnect")
            ∷ small (network_status_label (Control.status s.control))
            ∷ small_all (latency_widget (gateway_latency_label (Control.latency s.control)))
          ++ small_all (user_widget s)
          ++ pane,
    )
