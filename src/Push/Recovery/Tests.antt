-- ===== src/Push/Recovery/Tests.antt =====
-- src/push_queue/recovery.rs: a person settles a send by SMTP whose outcome is unknown.
use agent_first_mail.Prelude.{
  ℕ, String, if◌then◌else◌, ◌≡◌, refl, true, none, some, Option, List, [], ◌∷◌, str_eq, insert,
  lookup, ok, map,
}
use agent_first_mail.Push.Mail.{RemoteLocation}
use agent_first_mail.Push.Steps.{new_state}
use agent_first_mail.Push.Item.{ActionStep, PushItem, PushStepState, PushStepStatus, step_label}
use agent_first_mail.Push.Session.{Session}
use agent_first_mail.Push.Samples.{calm_host}
use agent_first_mail.Push.Build.Samples.{planner, reply, smtp_step}
use agent_first_mail.Push.Perform.Samples.{services}
use agent_first_mail.Push.Recovery.Confirm.{sent, Inquiry, recover_with_remote}

abbrev lost : PushStepState
lost = record {
  index = 0;
  label = "smtp_send";
  status = PushStepStatus.remote_outcome_unknown;
  started_rfc3339 = some "t1";
  completed_rfc3339 = none;
  result_summary = some "remote outcome unknown";
  send_receipt = none;
  error_code = none;
  error = none;
  retryable = some true;
}

abbrev unsure : PushItem
unsure = record reply { step_states = lost ∷ [] }

abbrev session : Session ℕ
session = record { item = unsure; queue = ("push_draft_a", unsure) ∷ []; tick = 0; remote = 0 }

abbrev inquiry : Inquiry ℕ
inquiry = record {
  host = calm_host;
  planner = λ r. planner;
  services = services;
  sent_mailbox_ids = "sent" ∷ [];
  outbound_rfc822_message_id = λ item. item.push_id;
  find_by_message_id = λ s folder id. (ok none, s.remote);
  recovery_plan_id = λ r item evidence. ok "plan_7";
  append_audit_event = λ s kind report. (ok tt, s.remote);
  refresh_outbound_push_views = λ s. (ok tt, s.remote);
}

abbrev statuses_at : Option PushItem → List PushStepStatus
statuses_at none = []
statuses_at (some item) = map (λ (state : PushStepState). state.status) item.step_states

settled_as_sent :
    statuses_at (
      lookup "push_draft_a"
        (recover_with_remote inquiry "push_draft_a" (some "plan_7") (some sent) session).1.queue)
    ≡ PushStepStatus.succeeded ∷ []
unfolding recover_with_remote insert lookup step_label
settled_as_sent = refl

other_plan :
    (recover_with_remote inquiry "push_draft_a" (some "plan_6") (some sent) session).1.queue
    ≡ session.queue
unfolding recover_with_remote step_label
other_plan = refl

-- An append to Drafts whose outcome is unknown, and the send after it.
abbrev append_step : ActionStep
append_step = record smtp_step { smtp_send = none; append_to_mailbox_id = some "drafts" }

abbrev unsure_append : PushItem
unsure_append = record reply {
  step_states = record lost { label = "append_to_mailbox_id_drafts" } ∷ new_state 1 smtp_step ∷ [];
}

abbrev append_session : Session ℕ
append_session = record {
  item = unsure_append;
  queue = ("push_draft_a", unsure_append) ∷ [];
  tick = 0;
  remote = 0;
}

abbrev in_folder : String → String → Option RemoteLocation
in_folder asked folder =
    if str_eq asked folder
    then some (record {
      mailbox_name = folder;
      uid_validity = some 1;
      uid = some 7;
      mailbox_id = none;
      flags = [];
      observed_rfc3339 = "t2";
      missing_rfc3339 = none;
    })
    else none

-- The mailboxes, with the message in one of the folders.
abbrev asking : String → Inquiry ℕ
asking asked = record inquiry {
  planner =
      λ r. record planner { configured_outbound_steps = λ action. append_step ∷ smtp_step ∷ [] };
  services = record services {
    is_drafts = λ id. str_eq id "drafts";
    action_mailbox_folder = λ s id. (ok id, s.remote);
  };
  find_by_message_id = λ s folder id. (ok (in_folder asked folder), s.remote);
}

abbrev append_statuses : String → String → List PushStepStatus
append_statuses asked plan_id = statuses_at (
    lookup "push_draft_a"
      (recover_with_remote (asking asked) "push_draft_a" (some plan_id) none
        append_session).1.queue)

found_in_drafts :
    append_statuses "drafts" "plan_7" ≡ PushStepStatus.succeeded ∷ PushStepStatus.pending ∷ []
unfolding recover_with_remote insert lookup step_label
found_in_drafts = refl

found_nowhere :
    append_statuses "trash" "plan_7" ≡ PushStepStatus.pending ∷ PushStepStatus.pending ∷ []
unfolding recover_with_remote insert lookup step_label
found_nowhere = refl

found_in_sent :
    append_statuses "sent" "plan_7"
    ≡ PushStepStatus.remote_outcome_unknown ∷ PushStepStatus.pending ∷ []
unfolding recover_with_remote insert lookup step_label
found_in_sent = refl
