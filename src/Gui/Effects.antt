-- ===== src/Gui/Effects.antt =====
-- What the clicks of src/gui_app.rs do to the queue of commands, and what its buttons for the way
-- back and for the end lead to.
use diddycord.Base.{
  ◌+◌, ◌≡◌, Bool, true, false, not, ◌&&◌, ◌==◌, [], none, some, Str, arith, leb, is_some,
  if◌then◌else◌, push_back,
}
use diddycord.Base.Trim.{trim}
use diddycord.Snowflake.{is_snowflake}
use diddycord.State.Cache.{channel_message_count}
use diddycord.Rest.Commands.{
  send_message, fetch_messages, count_chars, max_message_chars, validate_channel_id,
  validate_content, validate_history_limit,
}
use diddycord.Rest.Handle.{
  TrySend, sent, full, closed, submit, submit_valid, submit_history, try_send_message,
  try_fetch_messages, next_request_id,
}
use diddycord.Gui.Session.{
  GuiSession, is_at, select_channel, fetch_page, default_history_page, back_to_channels,
  back_to_servers,
}
use diddycord.Gui.Panels.{can_send, send_clicked, show_back}
use diddycord.Gui.Lists.{Actions}

abbrev pub is_sent : TrySend → Bool
is_sent sent = true
is_sent _ = false

-- The content is trimmed; it is within the limit, and the queue takes the command.
abbrev pub goes_out : TrySend → Str → Str → Bool
goes_out answer channel_id content =
    is_snowflake channel_id
    && leb (count_chars (max_message_chars + 1) content) max_message_chars
    && is_sent answer

-- A click on Send, where the button is enabled: if the channel's id is a snowflake, the trimmed text
-- is within the limit and the queue takes the command, then exactly this command is added, and the
-- composer and the notice are cleared; otherwise no command is added, the text stays and a notice
-- is shown.
pub send_clicked_lem :
    (answer : TrySend) (channel_id : Str) (s : GuiSession)
    → can_send s ≡ true
    → let t = send_clicked answer channel_id s in
      let content = trim s.compose in
      let out = goes_out answer channel_id content in
      (t.rest.commands ≡ (
        if out
        then push_back s.rest.commands (record {
          request_id = (next_request_id s.rest.next_request_id).0;
          kind = send_message channel_id content;
        })
        else s.rest.commands))
      × (t.compose ≡ (if out then [] else s.compose))
      × (is_some t.notice ≡ not out)
unfolding can_send send_clicked try_send_message submit_valid submit validate_channel_id
    validate_content
send_clicked_lem sent channel_id s h = ground (arith, h)
send_clicked_lem full channel_id s h = ground (arith, h)
send_clicked_lem closed channel_id s h = ground (arith, h)

-- A channel that becomes selected while none of its messages are cached asks for its latest 50
-- messages, once, if its id is a snowflake and the queue takes the command; a channel that is
-- selected already or has messages asks for nothing. A refusal leaves a notice; the channel is
-- selected in each case.
pub select_channel_lem :
    (answer : TrySend) (channel_id name : Str) (s : GuiSession)
    → let t = select_channel answer channel_id name s in
      let wanted =
        not (is_at channel_id s.selected_channel)
        && channel_message_count s.state channel_id == 0 in
      let out = is_snowflake channel_id && is_sent answer in
      (t.rest.commands ≡ (
        if wanted && out
        then push_back s.rest.commands (record {
          request_id = (next_request_id s.rest.next_request_id).0;
          kind = fetch_messages channel_id none default_history_page;
        })
        else s.rest.commands))
      × (t.selected_channel ≡ some channel_id)
      × (t.selected_channel_name ≡ some name)
      × (is_some t.notice ≡ (if wanted && not out then true else is_some s.notice))
unfolding select_channel fetch_page try_fetch_messages submit_history submit_valid submit
    validate_channel_id validate_history_limit
select_channel_lem sent channel_id name s = ground arith
select_channel_lem full channel_id name s = ground arith
select_channel_lem closed channel_id name s = ground arith

-- Two clicks on the way back lead to the list of servers, from wherever they start, and keep the
-- caches and the queue.
pub show_back_twice :
    (a b : Actions) (s : GuiSession)
    → a.back ≡ true
    → b.back ≡ true
    → let t = (show_back b (show_back a s).0).0 in
      (t.selected_channel ≡ none)
      × (t.selected_guild ≡ none)
      × (t.direct_mode ≡ false)
      × (t.state ≡ s.state)
      × (t.direct ≡ s.direct)
      × (t.rest ≡ s.rest)
unfolding show_back back_to_channels back_to_servers
show_back_twice a b s h k = ground (arith, h, k)
