-- ===== src/Gui/Lists.antt =====
-- src/gui_app.rs: the panels that list guilds, channels and threads. A panel shows its widgets, from
-- the session as it is when each is shown, and reacts to the clicks on them. Which widgets are clicked,
-- and what is typed, is an argument.
use diddycord.Base.{
  ℕ, Bool, true, not, ◌&&◌, if◌then◌else◌, List, [], ◌∷◌, ◌++◌, none, some, Str, bytes, ◌==◌,
}
use diddycord.Topology.Cache as Topology
use diddycord.Rest.Handle.{TrySend}
use diddycord.Gui.Session.{GuiSession, select_guild, select_direct_messages, is_at, select_channel}
use diddycord.Gui.Rows.{
  GuildRow, guild_rows, guild_text, NamedRow, direct_rows, ChannelRow, channel_rows, thread_rows,
  text_capable, channel_text, thread_text,
}

pub data Widget : Type 0 where
  heading label strong small : (text : Str) → Widget
  selectable : (enabled selected : Bool) → (text : Str) → Widget
  button : (enabled : Bool) → (text : Str) → Widget
  text_edit : (text : Str) → Widget

-- What the user does to the widgets of one frame, and what the command queue answers to a fetch for
-- a channel and to a send. A row is clicked by its id.
pub record Actions : Type 0 where
  pub disconnect : Bool
  pub back : Bool
  pub direct_messages : Bool
  pub guild : Str → Bool
  pub channel : Str → Bool
  pub thread : Str → Bool
  pub typed : Str → Str
  pub send : Bool
  pub fetch_answer : Str → TrySend
  pub send_answer : TrySend

abbrev pub Shown : Type 0
Shown = GuiSession × List Widget

-- The loop over the rows of a panel.
unfoldable pub show_rows {ℓ} :
    {A : Type ℓ}
    → (A → GuiSession → Widget)
    → (A → GuiSession → GuiSession)
    → List A
    → GuiSession
    → Shown
show_rows draw act [] s = (s, [])
show_rows draw act (row ∷ rows) s =
    let (t, widgets) = show_rows draw act rows (act row s) in (t, draw row s ∷ widgets)

unfoldable pub draw_guild : GuildRow → GuiSession → Widget
unfolding is_at guild_text
draw_guild row s =
    selectable true (not s.direct_mode && is_at row.id s.selected_guild) (guild_text row)

unfoldable pub click_guild : Actions → GuildRow → GuiSession → GuiSession
unfolding select_guild
click_guild a row s = if a.guild row.id then select_guild row.id s else s

unfoldable pub show_guilds : Actions → GuiSession → Shown
unfolding select_direct_messages show_rows guild_rows draw_guild click_guild
show_guilds a s =
    let t = if a.direct_messages then select_direct_messages s else s in
    let (u, widgets) = show_rows draw_guild (click_guild a) (guild_rows t) t in
    (
      u,
      heading (bytes "Servers") ∷ selectable true s.direct_mode (bytes "Direct messages") ∷ widgets,
    )

unfoldable pub draw_direct : NamedRow → GuiSession → Widget
unfolding is_at
draw_direct row s = selectable true (is_at row.id s.selected_channel) row.name

-- A click on a direct channel or a thread.
unfoldable pub click_named : (Str → Bool) → (Str → TrySend) → NamedRow → GuiSession → GuiSession
unfolding select_channel
click_named clicked answer row s =
    if clicked row.id then select_channel (answer row.id) row.id row.name s else s

abbrev pub category : ℕ
category = 4

unfoldable pub draw_channel : ChannelRow → GuiSession → Widget
unfolding is_at text_capable channel_text
draw_channel row s =
    if row.kind == category
    then strong row.name
    else selectable (text_capable row) (is_at row.id s.selected_channel) (channel_text row)

-- A category is no button, and the button of a channel without text is disabled.
unfoldable pub click_channel : Actions → ChannelRow → GuiSession → GuiSession
unfolding select_channel text_capable
click_channel a row s =
    if row.kind == category
    then s
    else if text_capable row && a.channel row.id
    then select_channel (a.fetch_answer row.id) row.id row.name s
    else s

unfoldable pub draw_thread : NamedRow → GuiSession → Widget
unfolding is_at thread_text
draw_thread row s = selectable true (is_at row.id s.selected_channel) (thread_text row)

unfoldable pub show_threads : Actions → List NamedRow → GuiSession → Shown
unfolding show_rows draw_thread click_named
show_threads a [] s = (s, [])
show_threads a (row ∷ rows) s =
    let (t, widgets) = show_rows draw_thread (click_named a.thread a.fetch_answer) (row ∷ rows) s in
    (t, strong (bytes "Active threads") ∷ widgets)

unfoldable pub show_direct_channels : Actions → GuiSession → Shown
unfolding show_rows direct_rows draw_direct click_named
show_direct_channels a s =
    let (t, widgets) =
      show_rows draw_direct (click_named a.channel a.fetch_answer) (direct_rows s) s in
    (t, heading (bytes "Direct messages") ∷ widgets)

unfoldable pub guild_title : GuiSession → Str → Str
unfolding Topology.guild
guild_title s guild_id = elim (Topology.guild s.state.topology guild_id) [
  | none ↦ bytes "Channels"
  | some g ↦ g.name
]

unfoldable pub show_guild_channels : Actions → Str → GuiSession → Shown
unfolding show_rows channel_rows draw_channel click_channel show_threads thread_rows guild_title
show_guild_channels a guild_id s =
    let (t, channels) = show_rows draw_channel (click_channel a) (channel_rows s guild_id) s in
    let (u, threads) = show_threads a (thread_rows s guild_id) t in
    (u, heading (guild_title s guild_id) ∷ channels ++ threads)

unfoldable pub show_channels : Actions → GuiSession → Shown
unfolding show_direct_channels show_guild_channels
show_channels a s = if s.direct_mode then show_direct_channels a s else elim s.selected_guild [
  | none ↦
      (s, heading (bytes "Channels") ∷ label (bytes "Select a server or Direct messages.") ∷ [])
  | some guild_id ↦ show_guild_channels a guild_id s
]
