-- ===== src/Gui/Reachable.antt =====
-- Every session that frames and publications of the network lead to in src/gui_app.rs is valid.
use diddycord.Base.{
  ◌≡◌, refl, ap, Bool, ◌&&◌, ◌||◌, List, [], ◌∷◌, Option, none, some, Str, arith, if_cases, is_some,
  if◌then◌else◌, bytes, ◌++◌, unwrap_or, ◌==◌,
}
use diddycord.State.Cache
use diddycord.Rest.Handle.{TrySend}
use diddycord.Gui.Session.{GuiSession, select_direct_messages, select_channel}
use diddycord.Gui.Rows.{
  NamedRow, ChannelRow, guild_rows, direct_rows, channel_rows, thread_rows, text_capable,
}
use diddycord.Gui.Panels.{
  can_send, show_send_button, show_messages, show_connected_desktop, show_back, show_pane,
  show_connected_mobile, message_list, notice_widget,
}
use diddycord.Gui.Lists.{
  Widget, Actions, Shown, show_rows, click_guild, show_guilds, click_named, click_channel,
  show_threads, show_direct_channels, show_guild_channels, show_channels, draw_guild, draw_direct,
  draw_channel, draw_thread, heading, label, category, text_edit,
}
use diddycord.Gui.App.{Platform, desktop, mobile, show_connected}
use diddycord.Gui.Invariant.{
  select_guild-IsValid, select_direct_messages-IsValid, back_to_channels-IsValid,
  back_to_servers-IsValid, typed-IsValid, send_clicked-IsValid, select_channel-IsValid,
  select_channel-IsPlaced,
}
use diddycord.Gui.Valid.{IsValid, IsPlaced}

-- Where each click keeps a property, the rows of a panel do.
pub show_rows-keeps {ℓ κ} :
    {A : Type ℓ} (P : GuiSession → Type κ) (draw : A → GuiSession → Widget)
    (act : A → GuiSession → GuiSession)
    → ((row : A) (s : GuiSession) → P s → P (act row s))
    → (rows : List A) (s : GuiSession) → P s
    → P (show_rows draw act rows s).0
unfolding show_rows
show_rows-keeps P draw act keep [] s h = h
show_rows-keeps P draw act keep (row ∷ rows) s h =
    show_rows-keeps P draw act keep rows (act row s) (keep row s h)

-- A valid session that shows a list of channels.
abbrev InChannels : GuiSession → Type 0
InChannels s = IsValid s × IsPlaced s

select_channel-InChannels :
    (answer : TrySend) (channel_id name : Str) (s : GuiSession)
    → InChannels s
    → InChannels (select_channel answer channel_id name s)
select_channel-InChannels answer channel_id name s (v, placed) = (
  select_channel-IsValid answer channel_id name s v placed,
  select_channel-IsPlaced answer channel_id name s placed,
)

module _ (a : Actions) where
  click_named-InChannels :
      (clicked : Str → Bool) (row : NamedRow) (s : GuiSession)
      → InChannels s
      → InChannels (click_named clicked a.fetch_answer row s)
  unfolding click_named
  click_named-InChannels clicked row s h =
      if_cases InChannels (clicked row.id)
        (λ _. select_channel-InChannels (a.fetch_answer row.id) row.id row.name s h) (λ _. h)

  click_channel-InChannels :
      (row : ChannelRow) (s : GuiSession) → InChannels s → InChannels (click_channel a row s)
  unfolding click_channel
  click_channel-InChannels row s h =
      if_cases InChannels (row.kind == category) (λ _. h)
        (λ _.
          if_cases InChannels (text_capable row && a.channel row.id)
            (λ _. select_channel-InChannels (a.fetch_answer row.id) row.id row.name s h) (λ _. h))

  show_threads-InChannels :
      (rows : List NamedRow) (s : GuiSession) → InChannels s → InChannels (show_threads a rows s).0
  unfolding show_threads
  show_threads-InChannels [] s h = h
  show_threads-InChannels (row ∷ rows) s h =
      show_rows-keeps InChannels draw_thread (click_named a.thread a.fetch_answer)
        (click_named-InChannels a.thread) (row ∷ rows) s h

  show_guilds-IsValid : (s : GuiSession) → IsValid s → IsValid (show_guilds a s).0
  unfolding show_guilds click_guild
  show_guilds-IsValid s v =
      let t = if a.direct_messages then select_direct_messages s else s in
      show_rows-keeps IsValid draw_guild (click_guild a)
        (λ row s v.
          if_cases IsValid (a.guild row.id) (λ _. select_guild-IsValid s v row.id) (λ _. v))
        (guild_rows t) t
        (if_cases IsValid a.direct_messages (λ _. select_direct_messages-IsValid s v) (λ _. v))

  show_channels-IsValid : (s : GuiSession) → IsValid s → IsValid (show_channels a s).0
  unfolding show_channels show_direct_channels show_guild_channels
  show_channels-IsValid s v =
      if_cases (λ (shown : Shown). IsValid shown.0) s.direct_mode
        (λ direct.
          (show_rows-keeps InChannels draw_direct (click_named a.channel a.fetch_answer)
            (click_named-InChannels a.channel) (direct_rows s) s
            (v, ap (λ b. b || is_some s.selected_guild) direct)).0)
        (λ _. go s.selected_guild refl)
    where
      go :
          (o : Option Str)
          → s.selected_guild ≡ o
          → IsValid
              (elim o as (λ _. Shown) [
                | none ↦ (
                  s,
                  heading (bytes "Channels")
                      ∷ label (bytes "Select a server or Direct messages.")
                      ∷ [],
                )
                | some guild_id ↦ show_guild_channels a guild_id s
              ]).0
      go none e = v
      go (some guild_id) e =
          let placed : IsPlaced s = ground (arith, e) in
          (show_threads-InChannels (thread_rows s guild_id) _ (
            show_rows-keeps InChannels draw_channel (click_channel a) click_channel-InChannels
              (channel_rows s guild_id) s (v, placed))).0

  show_messages-IsValid : (s : GuiSession) → IsValid s → IsValid (show_messages a s).0
  unfolding show_messages show_send_button
  show_messages-IsValid s v = go s.selected_channel
    where
      go :
          (o : Option Str)
          → IsValid
              (elim o as (λ _. Shown) [
                | none ↦ (
                  s,
                  heading (bytes "Select a text channel")
                      ∷ label (
                          bytes "Messages, live Gateway updates and REST history will appear here.")
                      ∷ [],
                )
                | some channel_id ↦
                    let t = record s { compose = a.typed s.compose } in
                    let (u, send_button) = show_send_button a channel_id t in
                    (
                      u,
                      heading (bytes "# " ++ unwrap_or s.selected_channel_name channel_id)
                            ∷ message_list (Cache.messages s.state channel_id)
                          ++ notice_widget s.notice
                          ++ text_edit t.compose ∷ send_button,
                    )
              ]).0
      go none = v
      go (some channel_id) =
          let t : GuiSession = record s { compose = a.typed s.compose } in
          let w = typed-IsValid s v (a.typed s.compose) in
          if_cases IsValid (can_send t && a.send)
            (λ _. send_clicked-IsValid t w a.send_answer channel_id) (λ _. w)

  show_back-IsValid : (s : GuiSession) → IsValid s → IsValid (show_back a s).0
  unfolding show_back
  show_back-IsValid s v = ground (arith, back_to_channels-IsValid s v, back_to_servers-IsValid s v)

  show_pane-IsValid : (s : GuiSession) → IsValid s → IsValid (show_pane a s).0
  unfolding show_pane
  show_pane-IsValid s v =
      ground (arith, show_messages-IsValid s v, show_channels-IsValid s v, show_guilds-IsValid s v)

  pub show_connected-IsValid :
      (platform : Platform) (s : GuiSession) → IsValid s → IsValid (show_connected platform a s).0
  unfolding show_connected show_connected_desktop show_connected_mobile
  show_connected-IsValid desktop s v =
      show_messages-IsValid _ (show_channels-IsValid _ (show_guilds-IsValid s v))
  show_connected-IsValid mobile s v = show_pane-IsValid _ (show_back-IsValid s v)
