-- ===== src/State/Tests.antt =====
-- The frontend state of src/state.rs at concrete states and events.
use diddycord.Base.{
  ◌≤◌, ◌≡◌, refl, true, false, [], ◌∷◌, some, Str, bytes, str_eq, any, find, map, take, foldl, none,
  length, pos,
}
use diddycord.Events.{
  RestEvent, FrontendMessageDelete, FrontendMessageUpdate, FrontendChannelChange, message_update,
  channel_create, message_delete, FrontendMessage, RestMessage, message, message_sent,
}
use diddycord.Topology.Cache.{default}
use diddycord.State.Cache.{FrontendState, new, timeline, is_retired_channel}
use mathlib.Core.Option
use diddycord.State.Updates.{edited, apply_message_update-reads}
use diddycord.State.Restores.{apply-restores}
use diddycord.State.Timeline.{has_message}
use diddycord.State.Ops.{
  apply_message, ensure_channel, modify_channel, apply, apply_history, apply_rest,
}
use diddycord.State.Valid.{IsValid}
use diddycord.State.Invariant.{apply_gateway-IsValid}
use diddycord.State.ChannelInvariant.{new-IsValid}
use diddycord.State.Deletes.{apply_message_delete-reads}
use diddycord.State.Echo.{rest_echo}
use diddycord.State.Drain.{received, lagged, closed, drain, drain_rest}
use diddycord.State.DrainOrder.{drained, drain-takes}
use diddycord.State.DrainEffects.{count_received, drain-bounded}
use diddycord.State.Sorted.{Sorted, apply_history-Sorted}

abbrev lobby : Str
lobby = bytes "11"

abbrev hello : FrontendMessage
hello = record {
  id = bytes "102";
  channel_id = lobby;
  author_username = bytes "ann";
  content = bytes "hello";
}

abbrev older : RestMessage
older = record {
  id = bytes "99";
  channel_id = lobby;
  author_username = some (bytes "bob");
  content = bytes "before";
}

abbrev answer : RestMessage
answer = record {
  id = bytes "102";
  channel_id = lobby;
  author_username = some (bytes "ann");
  content = bytes "hello?";
}

-- A state with one timeline, which is full with one message.
abbrev full : FrontendState
full = record {
  channels = (lobby, record { messages = message hello ∷ []; touched = 1 }) ∷ [];
  retired_channels = [];
  max_channels = 2;
  max_messages_per_channel = 1;
  clock = 1;
  gateway_ready = true;
  dropped_gateway_events = 0;
  dropped_rest_events = 0;
  topology = default;
}

-- The same state with room for two messages.
abbrev roomy : FrontendState
roomy = record full { max_messages_per_channel = 2 }

older_comes_first :
    timeline (apply_history roomy lobby (older ∷ [])) lobby
    ≡ message (record {
      id = bytes "99";
      channel_id = lobby;
      author_username = bytes "bob";
      content = bytes "before";
    })
      ∷ message hello
      ∷ []
unfolding apply_history timeline str_eq
older_comes_first = refl

apply_gateway-IsValid_example : IsValid (apply (new 2 1) (message hello))
apply_gateway-IsValid_example = apply_gateway-IsValid (new 2 1) (message hello) (new-IsValid 2 1)

abbrev deletion : FrontendMessageDelete
deletion = record { channel_id = lobby; id = bytes "102" }

apply_message_delete-reads_example :
    let t = apply full (message_delete deletion) in
    (any (has_message deletion.id) (timeline t lobby) ≡ false)
    × (find (has_message (bytes "99")) (timeline t lobby)
        ≡ find (has_message (bytes "99")) (timeline full lobby))
    × (timeline t (bytes "12") ≡ timeline full (bytes "12"))
unfolding str_eq
apply_message_delete-reads_example =
    apply_message_delete-reads full deletion (bytes "99") (bytes "12") refl refl

rest_echo_example :
    timeline (apply (apply_rest full (message_sent 7 answer)) (message hello)) lobby
    ≡ timeline (apply full (message hello)) lobby
rest_echo_example = rest_echo full 7 answer hello refl refl

apply_history-Sorted_example : Sorted (timeline (apply_history roomy lobby (older ∷ [])) lobby)
unfolding is_retired_channel any timeline find str_eq
apply_history-Sorted_example = apply_history-Sorted roomy lobby (older ∷ []) refl (tt, tt)

drain-takes_example :
    (drain (new 2 1) (map received (message hello ∷ [])) 1
      ≡ drained (foldl apply (new 2 1) (take 1 (message hello ∷ []))) 1)
    × (drain_rest (new 2 1) (map received []) 1
        ≡ drained (foldl apply_rest (new 2 1) (take 1 [])) 0)
drain-takes_example = drain-takes (new 2 1) (message hello ∷ []) [] 1

drain-bounded_example :
    let (t, report) =
      drain (new 2 1) (received (message hello) ∷ lagged 3 ∷ received (message hello) ∷ []) 1 in
    let (u, rest_report) = drain_rest (new 2 1) (closed ∷ []) 1 in
    (report.applied ≤ 1)
    × (report.applied
        ≤ count_received (received (message hello) ∷ lagged 3 ∷ received (message hello) ∷ []))
    × IsValid t
    × (rest_report.applied ≤ 1)
    × (rest_report.applied ≤ count_received {E = RestEvent} (closed ∷ []))
    × IsValid u
drain-bounded_example =
    drain-bounded (new 2 1) (received (message hello) ∷ lagged 3 ∷ received (message hello) ∷ [])
      (closed ∷ []) 1 (new-IsValid 2 1)

-- A state with a valid timeline, built by the code.
abbrev greeted : FrontendState
greeted = apply (new 2 2) (message hello)

abbrev edit : FrontendMessageUpdate
edit = record {
  id = bytes "102";
  channel_id = lobby;
  author_username = none;
  content = some (bytes "hello!");
}

apply_message_update-reads_example :
    let t = apply greeted (message_update edit) in
    let before = timeline greeted lobby in
    let after = timeline t lobby in
    (find (has_message (bytes "102")) after
      ≡ Option.map (edited edit) (find (has_message (bytes "102")) before))
    × (find (has_message (bytes "99")) after ≡ find (has_message (bytes "99")) before)
    × (length after ≡ length before)
    × (timeline t (bytes "12") ≡ timeline greeted (bytes "12"))
unfolding str_eq apply apply_message is_retired_channel ensure_channel modify_channel new
apply_message_update-reads_example =
    apply_message_update-reads greeted edit (bytes "99") (bytes "12")
      (apply_gateway-IsValid (new 2 2) (message hello) (new-IsValid 2 2)) refl refl refl

abbrev reopened : FrontendChannelChange
reopened = record {
  guild_id = bytes "1";
  channel = record { id = lobby; name = none; kind = 0; parent_id = none; position = pos 0 };
}

apply-restores_example :
    is_retired_channel
      (apply (record full { retired_channels = lobby ∷ [] }) (channel_create reopened))
      lobby
    ≡ false
unfolding str_eq
apply-restores_example =
    apply-restores (record full { retired_channels = lobby ∷ [] }) (channel_create reopened) lobby
      refl
