-- ===== src/Push/Perform/MoveProof/Tests.antt =====
-- src/push_queue/execute.rs: a lost move of one message, which is found in the target folder.
use agent_first_mail.Prelude.{
  get_elem?, ℕ, String, ◌≡◌, refl, true, Option, none, some, List, [], get_elem?, Result, ok,
}
use agent_first_mail.Push.Mail.{RemoteLocation}
use agent_first_mail.Push.Item.{PushLocation, message_ids}
use agent_first_mail.Push.Session.{Session}
use agent_first_mail.Push.Perform.{Services, action_locations}
use agent_first_mail.Push.Perform.Samples.{services, session, archive_step}
use agent_first_mail.Push.Perform.MoveProof.{recover_remote_outcome_unknown_move}
use agent_first_mail.Push.Perform.MoveProof.Evidence.{
  Proved, recover_remote_outcome_unknown_move-Proved,
}

abbrev archived : RemoteLocation
archived = record {
  mailbox_name = "Archive";
  mailbox_id = none;
  uid_validity = some 9;
  uid = some 4;
  flags = [];
  observed_rfc3339 = "t2";
  missing_rfc3339 = none;
}

-- The message has a Message-ID, and no place that is known.
abbrev reading : Services ℕ
reading = record services {
  read_message_by_id =
      λ s id. (ok (record { rfc822_message_id = some "r@x"; locations = [] }), s.remote);
}

abbrev search : Session ℕ → String → String → Result (Option RemoteLocation) × ℕ
search s folder id = (ok (some archived), s.remote)

only : get_elem? (message_ids session.item) 0 ≡ some "m1"
unfolding message_ids
only = refl

proved :
    (recover_remote_outcome_unknown_move reading search archive_step "archive" session).0 ≡ ok true
unfolding recover_remote_outcome_unknown_move
proved = refl

recover_remote_outcome_unknown_move-Proved_example :
    (places : List PushLocation) × ((action_locations reading archive_step session).0 ≡ ok places)
    × Proved reading search places "archive" "m1"
recover_remote_outcome_unknown_move-Proved_example =
    recover_remote_outcome_unknown_move-Proved reading search archive_step "archive" session 0 "m1"
      proved only
