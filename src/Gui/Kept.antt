-- ===== src/Gui/Kept.antt =====
-- A frame of src/gui_app.rs leaves the network control of its session as it is.
use diddycord.Base.{
  ◌≡◌, refl, Bool, ◌&&◌, ◌==◌, List, [], ◌∷◌, ◌++◌, Option, none, some, Str, arith, if_cases, bytes,
  unwrap_or, if◌then◌else◌,
}
use diddycord.State.Cache
use diddycord.Rest.Handle.{TrySend}
use diddycord.Gateway.Control.{NetworkControl}
use diddycord.Gui.Session.{
  GuiSession, Arrivals, Joined, join_worker, poll, select_guild, select_direct_messages, fetch_page,
  select_channel, back_to_channels, back_to_servers,
}
use diddycord.Gui.Rows.{
  NamedRow, ChannelRow, guild_rows, direct_rows, channel_rows, thread_rows, text_capable,
}
use diddycord.Gui.Panels.{
  can_send, send_clicked, show_send_button, show_messages, show_connected_desktop, show_back,
  show_pane, show_connected_mobile, message_list, notice_widget,
}
use diddycord.Gui.Lists.{
  Actions, Shown, click_guild, show_guilds, click_named, click_channel, show_threads,
  show_direct_channels, show_guild_channels, show_channels, draw_guild, draw_direct, draw_channel,
  draw_thread, heading, label, category, text_edit,
}
use diddycord.Gui.App.{Platform, desktop, mobile, show_connected}
use diddycord.Gui.Reachable.{show_rows-keeps}

join_worker-control :
    (joined : Option Joined) (s : GuiSession) → (join_worker joined s).control ≡ s.control
unfolding join_worker
join_worker-control none s = refl
join_worker-control (some joined) s = ground arith

pub poll-control : (a : Arrivals) (s : GuiSession) → (poll a s).control ≡ s.control
unfolding poll
poll-control a s = join_worker-control a.joined _

module _ (c : NetworkControl) where
  abbrev Has : GuiSession → Type 0
  Has s = s.control ≡ c

  select_channel-Has :
      (answer : TrySend) (channel_id name : Str) (s : GuiSession)
      → Has s
      → Has (select_channel answer channel_id name s)
  unfolding select_channel fetch_page
  select_channel-Has answer channel_id name s h = ground (arith, h)

  send_clicked-Has :
      (answer : TrySend) (channel_id : Str) (s : GuiSession)
      → Has s
      → Has (send_clicked answer channel_id s)
  unfolding send_clicked
  send_clicked-Has answer channel_id s h = ground (arith, h)

  module _ (a : Actions) where
    click_named-Has :
        (clicked : Str → Bool) (row : NamedRow) (s : GuiSession)
        → Has s
        → Has (click_named clicked a.fetch_answer row s)
    unfolding click_named
    click_named-Has clicked row s h =
        if_cases Has (clicked row.id)
          (λ _. select_channel-Has (a.fetch_answer row.id) row.id row.name s h) (λ _. h)

    click_channel-Has : (row : ChannelRow) (s : GuiSession) → Has s → Has (click_channel a row s)
    unfolding click_channel
    click_channel-Has row s h =
        if_cases Has (row.kind == category) (λ _. h)
          (λ _.
            if_cases Has (text_capable row && a.channel row.id)
              (λ _. select_channel-Has (a.fetch_answer row.id) row.id row.name s h) (λ _. h))

    show_threads-Has :
        (rows : List NamedRow) (s : GuiSession) → Has s → Has (show_threads a rows s).0
    unfolding show_threads
    show_threads-Has [] s h = h
    show_threads-Has (row ∷ rows) s h =
        show_rows-keeps Has draw_thread (click_named a.thread a.fetch_answer)
          (click_named-Has a.thread) (row ∷ rows) s h

    show_guilds-Has : (s : GuiSession) → Has s → Has (show_guilds a s).0
    unfolding show_guilds click_guild select_guild select_direct_messages
    show_guilds-Has s h =
        let t = if a.direct_messages then select_direct_messages s else s in
        show_rows-keeps Has draw_guild (click_guild a)
          (λ row s h. if_cases Has (a.guild row.id) (λ _. h) (λ _. h)) (guild_rows t) t
          (if_cases Has a.direct_messages (λ _. h) (λ _. h))

    show_channels-Has : (s : GuiSession) → Has s → Has (show_channels a s).0
    unfolding show_channels show_direct_channels show_guild_channels
    show_channels-Has s h =
        if_cases (λ (shown : Shown). Has shown.0) s.direct_mode
          (λ direct.
            show_rows-keeps Has draw_direct (click_named a.channel a.fetch_answer)
              (click_named-Has a.channel) (direct_rows s) s h)
          (λ _. go s.selected_guild)
      where
        go :
            (o : Option Str)
            → Has
                (elim o as (λ _. Shown) [
                  | none ↦ (
                    s,
                    heading (bytes "Channels")
                        ∷ label (bytes "Select a server or Direct messages.")
                        ∷ [],
                  )
                  | some guild_id ↦ show_guild_channels a guild_id s
                ]).0
        go none = h
        go (some guild_id) = show_threads-Has (thread_rows s guild_id) _ (
            show_rows-keeps Has draw_channel (click_channel a) click_channel-Has
              (channel_rows s guild_id) s h)

    show_messages-Has : (s : GuiSession) → Has s → Has (show_messages a s).0
    unfolding show_messages show_send_button
    show_messages-Has s h = go s.selected_channel
      where
        go :
            (o : Option Str)
            → Has
                (elim o as (λ _. Shown) [
                  | none ↦ (
                    s,
                    heading (bytes "Select a text channel")
                        ∷ label (
                            bytes
                              "Messages, live Gateway updates and REST history will appear here.")
                        ∷ [],
                  )
                  | some channel_id ↦
                      let t = record s { compose = a.typed s.compose } in
                      let (u, send_button) = show_send_button a channel_id t in
                      (
                        u,
                        heading (bytes "# " ++ unwrap_or s.selected_channel_name channel_id)
                              ∷ message_list (Cache.messages s.state channel_id)
                            ++ notice_widget s.notice
                            ++ text_edit t.compose ∷ send_button,
                      )
                ]).0
        go none = h
        go (some channel_id) =
            let t : GuiSession = record s { compose = a.typed s.compose } in
            if_cases Has (can_send t && a.send) (λ _. send_clicked-Has a.send_answer channel_id t h)
              (λ _. h)

    show_back-Has : (s : GuiSession) → Has s → Has (show_back a s).0
    unfolding show_back back_to_channels back_to_servers
    show_back-Has s h = ground (arith, h)

    show_pane-Has : (s : GuiSession) → Has s → Has (show_pane a s).0
    unfolding show_pane
    show_pane-Has s h =
        ground (arith, show_messages-Has s h, show_channels-Has s h, show_guilds-Has s h)

    show_connected-Has :
        (platform : Platform) (s : GuiSession) → Has s → Has (show_connected platform a s).0
    unfolding show_connected show_connected_desktop show_connected_mobile
    show_connected-Has desktop s h =
        let t = (show_guilds a s).0 in
        let u = (show_channels a t).0 in
        show_messages-Has u (show_channels-Has t (show_guilds-Has s h))
    show_connected-Has mobile s h = show_pane-Has (show_back a s).0 (show_back-Has s h)

-- Whatever is clicked and whatever has arrived.
pub show_connected-control :
    (platform : Platform) (a : Actions) (arrivals : Arrivals) (s : GuiSession)
    → (show_connected platform a (poll arrivals s)).0.control ≡ s.control
show_connected-control platform a arrivals s =
    show_connected-Has s.control a platform (poll arrivals s) (poll-control arrivals s)
