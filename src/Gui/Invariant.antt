-- ===== src/Gui/Invariant.antt =====
-- What holds of the sessions of src/gui_app.rs, and that every method keeps it.
use diddycord.Base.{ℕ, refl, ap, not, ◌&&◌, none, some, Str, Option, arith, if_cases, ◌==◌, []}
use diddycord.Base.Results.{Result, ok, err}
use diddycord.State.Cache.{channel_message_count}
use diddycord.State.DrainEffects.{drain-bounded}
use diddycord.State.Drain
use diddycord.Direct.Drains as DirectDrains
use diddycord.Rest.Commands.{RestSubmitError}
use diddycord.Rest.Handle.{RestHandle, TrySend, try_fetch_messages, try_send_message}
use diddycord.Rest.Submits
use diddycord.Rest.Submits.{call, fetch, send, call-IsValid}
use diddycord.Rest.Build.{submit_error_text}
use diddycord.Base.Trim.{trim}
use diddycord.Gui.Session.{
  GuiSession, Arrivals, Joined, join_worker, poll, select_guild, select_direct_messages, is_at,
  fetch_page, select_channel, back_to_channels, back_to_servers, default_history_page,
  gateway_event_budget, rest_event_budget,
}
use diddycord.Gui.Panels.{send_clicked}
use diddycord.Gui.Valid.{IsValid, IsPlaced, fetch-IsValid, send-IsValid}

module _ (s : GuiSession) (v : IsValid s) where
  join_worker-IsValid : (joined : Option Joined) → IsValid (join_worker joined s)
  unfolding join_worker
  join_worker-IsValid none = v
  join_worker-IsValid (some joined) =
      if_cases IsValid s.worker
        (λ _. record {
          state = v.state;
          direct = v.direct;
          rest = v.rest;
          navigation = record {
            mode = v.navigation.mode;
            named = v.navigation.named;
            placed = v.navigation.placed;
          };
          worker = refl;
        })
        (λ _. v)

  pub select_guild-IsValid : (guild_id : Str) → IsValid (select_guild guild_id s)
  unfolding select_guild
  select_guild-IsValid guild_id = record {
    state = v.state;
    direct = v.direct;
    rest = v.rest;
    navigation = record { mode = refl; named = refl; placed = refl };
    worker = v.worker;
  }

  pub select_direct_messages-IsValid : IsValid (select_direct_messages s)
  unfolding select_direct_messages
  select_direct_messages-IsValid = record {
    state = v.state;
    direct = v.direct;
    rest = v.rest;
    navigation = record { mode = refl; named = refl; placed = refl };
    worker = v.worker;
  }

  pub back_to_channels-IsValid : IsValid (back_to_channels s)
  unfolding back_to_channels
  back_to_channels-IsValid = record {
    state = v.state;
    direct = v.direct;
    rest = v.rest;
    navigation = record { mode = v.navigation.mode; named = refl; placed = refl };
    worker = v.worker;
  }

  pub back_to_servers-IsValid : IsValid (back_to_servers s)
  unfolding back_to_servers
  back_to_servers-IsValid = record {
    state = v.state;
    direct = v.direct;
    rest = v.rest;
    navigation = record { mode = refl; named = refl; placed = refl };
    worker = v.worker;
  }

  -- A new queue, notice and composed text.
  replaced :
      (rest : RestHandle) (compose : Str) (notice : Option Str)
      → Submits.IsValid rest
      → IsValid (record s { rest = rest; compose = compose; notice = notice })
  replaced rest compose notice r = record {
    state = v.state;
    direct = v.direct;
    rest = r;
    navigation = record {
      mode = v.navigation.mode;
      named = v.navigation.named;
      placed = v.navigation.placed;
    };
    worker = v.worker;
  }

  pub typed-IsValid : (compose : Str) → IsValid (record s { compose = compose })
  typed-IsValid compose = replaced s.rest compose s.notice v.rest

  fetch_page-IsValid :
      (answer : TrySend) (channel_id : Str) → IsValid (fetch_page answer channel_id s)
  unfolding fetch_page
  fetch_page-IsValid answer channel_id =
      go (try_fetch_messages answer s.rest channel_id default_history_page)
        (fetch-IsValid answer s.rest channel_id default_history_page v.rest)
    where
      go :
          (r : RestHandle × Result ℕ RestSubmitError)
          → Submits.IsValid r.0
          → IsValid (elim r.1 as (λ _. GuiSession) [
            | ok _ ↦ record s { rest = r.0 }
            | err error ↦ record s { rest = r.0; notice = some (submit_error_text error) }
          ])
      go (rest, ok _) h = replaced rest s.compose s.notice h
      go (rest, err error) h = replaced rest s.compose (some (submit_error_text error)) h

  pub send_clicked-IsValid :
      (answer : TrySend) (channel_id : Str) → IsValid (send_clicked answer channel_id s)
  unfolding send_clicked
  send_clicked-IsValid answer channel_id =
      go (try_send_message answer s.rest channel_id (trim s.compose))
        (send-IsValid answer s.rest channel_id (trim s.compose) v.rest)
    where
      go :
          (r : RestHandle × Result ℕ RestSubmitError)
          → Submits.IsValid r.0
          → IsValid (elim r.1 as (λ _. GuiSession) [
            | ok _ ↦ record s { rest = r.0; compose = []; notice = none }
            | err error ↦ record s { rest = r.0; notice = some (submit_error_text error) }
          ])
      go (rest, ok _) h = replaced rest [] none h
      go (rest, err error) h = replaced rest s.compose (some (submit_error_text error)) h

pub poll-IsValid : (a : Arrivals) (s : GuiSession) → IsValid s → IsValid (poll a s)
unfolding poll
poll-IsValid a s v =
    let (_, _, g, _, _, _) =
      drain-bounded s.state a.gateway_events [] gateway_event_budget v.state in
    let t = (Drain.drain s.state a.gateway_events gateway_event_budget).0 in
    let (_, _, _, _, _, r) = drain-bounded t [] a.rest_events rest_event_budget g in
    join_worker-IsValid _
      (record {
        state = r;
        direct = DirectDrains.drain-IsValid s.direct a.direct_events gateway_event_budget v.direct;
        rest = v.rest;
        navigation = record {
          mode = v.navigation.mode;
          named = v.navigation.named;
          placed = v.navigation.placed;
        };
        worker = v.worker;
      })
      a.joined

-- A channel is selected where a list of channels is shown, which stays so.
pub select_channel-IsValid :
    (answer : TrySend) (channel_id name : Str) (s : GuiSession)
    → IsValid s
    → IsPlaced s
    → IsValid (select_channel answer channel_id name s)
unfolding select_channel
select_channel-IsValid answer channel_id name s v placed =
    let t : GuiSession = record s {
      selected_channel = some channel_id;
      selected_channel_name = some name;
    } in
    let w : IsValid t = record {
      state = v.state;
      direct = v.direct;
      rest = v.rest;
      navigation = record { mode = v.navigation.mode; named = refl; placed = ap not placed };
      worker = v.worker;
    } in
    if_cases IsValid
      (not (is_at channel_id s.selected_channel) && channel_message_count s.state channel_id == 0)
      (λ _. fetch_page-IsValid t w answer channel_id) (λ _. w)

pub select_channel-IsPlaced :
    (answer : TrySend) (channel_id name : Str) (s : GuiSession)
    → IsPlaced s
    → IsPlaced (select_channel answer channel_id name s)
unfolding select_channel fetch_page
select_channel-IsPlaced answer channel_id name s placed = ground (arith, placed)
