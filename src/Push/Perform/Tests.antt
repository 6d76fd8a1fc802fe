-- ===== src/Push/Perform/Tests.antt =====
-- src/push_queue/execute.rs: an item that archives and marks one message, run by the executors.
use agent_first_mail.Prelude.{
  ℕ, suc, arith, ◌≡◌, refl, true, none, some, [], ◌∷◌, lookup, insert, ok, app_error,
}
use agent_first_mail.Push.Steps.{
  ensure_step_states, step_succeeded, step_remote_outcome_unknown, mark_step_pending,
  mark_step_remote_outcome_unknown,
}
use agent_first_mail.Push.Steps.Ensure.{ensure_step_states_complete}
use agent_first_mail.Push.Session.{Session, write_item}
use agent_first_mail.Push.Execute.{
  execute_tracked_steps, remote_effect_not_applied, persist_remote_outcome_unknown,
}
use agent_first_mail.Push.Mail.{PreparedOutbound, OutboundDelivery, RemoteLocation}
use agent_first_mail.Push.Samples.{drafts_step, draft_session}
use agent_first_mail.Push.Perform.{
  Services, Effects, execute_add_flags, execute_move, prepare_current_outbound,
}
use agent_first_mail.Push.Perform.Executors.Finished.{message_complete, outbound_complete}
use agent_first_mail.Push.Perform.Executors.{execute_message_step, execute_outbound_step}
use agent_first_mail.Push.Perform.Executors.Marked.{Agree}
use agent_first_mail.Push.Perform.Executors.Moves.{FixedFolders}
use agent_first_mail.Push.Perform.Executors.Ordered.{effects_after_mark}
use agent_first_mail.Push.Perform.Executors.Replay.{only_open, executors_skip_closed}
use agent_first_mail.Push.Perform.Samples.{
  archive_step, item, session, host, collaborators, services, free, guarded,
}

free-Agree : Agree 0 free guarded
free-Agree = record {
  publish = λ t p h. rw (h.on_disk, h.seen);
  send_cloudflare_raw_message = λ t p h. rw (h.on_disk, h.seen);
  send_raw_message = λ t m h. rw (h.on_disk, h.seen);
  append_message = λ t folder raw draft h. rw (h.on_disk, h.seen);
  move_message = λ t l target id h. rw (h.on_disk, h.seen);
}

services-FixedFolders : FixedFolders services
services-FixedFolders id s t = refl

-- The session in which the loop has added the state of the step.
abbrev ready : Session ℕ
ready = record session { item = ensure_step_states item (archive_step ∷ []) }

effects_after_mark_example :
    (execute_message_step host services free 0 archive_step ready
      ≡ execute_message_step host services guarded 0 archive_step ready)
    × (execute_outbound_step host services free 0 archive_step ready
        ≡ execute_outbound_step host services guarded 0 archive_step ready)
effects_after_mark_example =
    effects_after_mark host services services-FixedFolders 0 archive_step free guarded free-Agree
      ready (ensure_step_states_complete item (archive_step ∷ []) 0 (omega arith))

executors_skip_closed_example :
    (execute_tracked_steps host collaborators
        (execute_message_step host services free)
        (archive_step ∷ [])
        session
      ≡ execute_tracked_steps host collaborators
          (only_open
            (app_error "twice" "applied before")
            (ensure_step_states item (archive_step ∷ []))
            (execute_message_step host services free))
          (archive_step ∷ [])
          session)
    × (execute_tracked_steps host collaborators
          (execute_outbound_step host services free)
          (archive_step ∷ [])
          session
        ≡ execute_tracked_steps host collaborators
            (only_open
              (app_error "twice" "applied before")
              (ensure_step_states item (archive_step ∷ []))
              (execute_outbound_step host services free))
            (archive_step ∷ [])
            session)
executors_skip_closed_example =
    executors_skip_closed host collaborators services free (app_error "twice" "applied before")
      (archive_step ∷ []) session

-- The message is moved once.
one_move :
    (execute_tracked_steps host collaborators
      (execute_message_step host services free)
      (archive_step ∷ [])
      session).1.remote
    ≡ 1
unfolding execute_tracked_steps execute_message_step step_succeeded ensure_step_states
    step_remote_outcome_unknown write_item execute_add_flags mark_step_pending execute_move
    mark_step_remote_outcome_unknown lookup insert remote_effect_not_applied
one_move = refl

-- The remote side answers a move with the new place.
abbrev archive_place : RemoteLocation
archive_place = record {
  mailbox_name = "Archive";
  mailbox_id = some "archive";
  uid_validity = some 9;
  uid = some 1;
  flags = [];
  observed_rfc3339 = "now";
  missing_rfc3339 = none;
}

abbrev moving : Effects ℕ
moving = record free { move_message = λ s l target id. (ok (some archive_place), suc s.remote) }

archive_succeeds :
    (execute_tracked_steps host collaborators
      (execute_message_step host services moving)
      (archive_step ∷ [])
      session).0
    ≡ ok tt
unfolding execute_tracked_steps execute_message_step step_succeeded ensure_step_states
    step_remote_outcome_unknown write_item execute_add_flags mark_step_pending execute_move
    mark_step_remote_outcome_unknown lookup insert remote_effect_not_applied
archive_succeeds = refl

message_complete_example :
    step_succeeded
      (execute_tracked_steps host collaborators
        (execute_message_step host services moving)
        (archive_step ∷ [])
        session).1.item
      0
    ≡ true
message_complete_example =
    message_complete host collaborators services moving (archive_step ∷ []) session archive_succeeds
      0 (omega arith)

-- A draft that is saved to a remote folder.
abbrev prepared : PreparedOutbound
prepared = record {
  message_id = "d1";
  raw = [];
  delivery =
      OutboundDelivery.email
        (record { delivery_raw = []; envelope_from = "a@x"; envelope_to = [] });
}

abbrev preparing : Services ℕ
preparing = record services { prepare_outbound = λ s. (ok prepared, s.remote) }

saving_succeeds :
    (execute_tracked_steps host collaborators
      (execute_outbound_step host preparing free)
      (drafts_step ∷ [])
      draft_session).0
    ≡ ok tt
unfolding execute_tracked_steps execute_outbound_step step_succeeded ensure_step_states
    step_remote_outcome_unknown write_item execute_add_flags mark_step_pending
    prepare_current_outbound persist_remote_outcome_unknown mark_step_remote_outcome_unknown lookup
    insert remote_effect_not_applied
saving_succeeds = refl

outbound_complete_example :
    step_succeeded
      (execute_tracked_steps host collaborators
        (execute_outbound_step host preparing free)
        (drafts_step ∷ [])
        draft_session).1.item
      0
    ≡ true
outbound_complete_example =
    outbound_complete host collaborators preparing free (drafts_step ∷ []) draft_session
      saving_succeeds 0 (omega arith)
