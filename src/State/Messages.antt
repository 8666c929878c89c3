-- ===== src/State/Messages.antt =====
-- What a message does to the timeline of its channel, in src/state.rs.
use diddycord.Base.{◌≡◌, refl, ap, ◌∙◌, true, false, if_cases}
use diddycord.Events.{FrontendMessage, message}
use diddycord.Topology.Ops
use diddycord.State.Cache.{FrontendState, timeline, is_retired_channel}
use diddycord.State.Retire.{invalidate_topology_timelines, retire_all, retired_by}
use diddycord.State.Timeline.{put_message}
use diddycord.State.Ops.{advance, apply_message, apply_rest_of, apply}
use diddycord.State.Reads.{timeline-upsert_channel, timeline-advance}

-- A message goes through `apply` with the topology untouched.
pub apply-message :
    (s : FrontendState) (m : FrontendMessage) → apply s (message m) ≡ apply_message s m
unfolding apply invalidate_topology_timelines retired_by retire_all Ops.apply apply_rest_of
apply-message s m = refl

module _ (s : FrontendState) (m : FrontendMessage) where
  -- A message for a live channel is put into the channel's timeline.
  pub apply_message-timeline :
      is_retired_channel s m.channel_id ≡ false
      → timeline (apply s (message m)) m.channel_id
        ≡ put_message s.max_messages_per_channel m (timeline s m.channel_id)
  unfolding apply_message
  apply_message-timeline live =
      ap (λ t. timeline t m.channel_id) (apply-message s m)
      ∙ if_cases
          (λ (t : FrontendState).
            timeline t m.channel_id
            ≡ put_message s.max_messages_per_channel m (timeline s m.channel_id))
          (is_retired_channel s m.channel_id) (λ retired. cc)
          (λ _.
            timeline-upsert_channel (advance s) m.channel_id (advance s).clock
              (put_message s.max_messages_per_channel m)
            ∙ ap (put_message s.max_messages_per_channel m) (timeline-advance s m.channel_id))

  -- A message for a retired channel changes nothing at all.
  pub apply_message-retired : is_retired_channel s m.channel_id ≡ true → apply s (message m) ≡ s
  unfolding apply_message
  apply_message-retired retired =
      apply-message s m
      ∙ if_cases (λ (t : FrontendState). t ≡ s) (is_retired_channel s m.channel_id) (λ _. refl)
          (λ live. cc)
