-- ===== src/Push/Build/Samples.antt =====
-- src/push_queue/plan.rs: a queue with a message to move away, a reply to it, and an item without a
-- plan.
use agent_first_mail.Prelude.{
  ℕ, String, none, some, List, [], ◌∷◌, Map, Result, ok, str_eq, if◌then◌else◌,
}
use agent_first_mail.Push.Mail.{OutboundDelivery}
use agent_first_mail.Push.Item.{
  ActionStep, send, spam, PushPayload, PushItem, PushStepState, PushStepStatus, MessageActionPush,
}
use agent_first_mail.Push.Labels.{Planner}

abbrev pub file_of : String → ℕ → PushPayload → List PushStepState → PushItem
file_of id seq payload states = record {
  push_id = id;
  enqueue_seq = seq;
  payload = payload;
  planned_outbound = none;
  planned_outbound_message = none;
  planned_message_action = none;
  planned_message_rfc822 = [];
  created_rfc3339 = "t0";
  updated_rfc3339 = "t0";
  attempt_count = 0;
  step_states = states;
  local_stage = none;
  audit_pending = none;
  last_error = none;
}

abbrev pub move_step : ActionStep
move_step = record {
  add_flags = [];
  move_to_mailbox_id = some "junk";
  append_to_mailbox_id = none;
  smtp_send = none;
  cloudflare_send = none;
  file_send = none;
  on = none;
}

abbrev pub smtp_step : ActionStep
smtp_step = record {
  add_flags = [];
  move_to_mailbox_id = none;
  append_to_mailbox_id = none;
  smtp_send = some [];
  cloudflare_send = none;
  file_send = none;
  on = none;
}

-- The reply was tried before, and failed.
abbrev pub tried : PushStepState
tried = record {
  index = 0;
  label = "smtp_send";
  status = PushStepStatus.failed;
  started_rfc3339 = some "t1";
  completed_rfc3339 = none;
  result_summary = none;
  send_receipt = none;
  error_code = none;
  error = none;
  retryable = none;
}

abbrev pub junk : PushItem
junk =
    file_of "push_message_m1" 1
      (PushPayload.message
        (record { message_id = "m1"; action = spam; message_action_snapshot = none }))
      []

abbrev pub stale : PushItem
stale =
    file_of "push_message_m2" 2
      (PushPayload.message
        (record { message_id = "m2"; action = spam; message_action_snapshot = none }))
      []

abbrev pub reply : PushItem
reply =
    file_of "push_draft_a" 3
      (PushPayload.draft (record {
        case_uid = "c1";
        draft_name = "reply.md";
        draft_uid_validity = none;
        draft_uid = none;
      }))
      (tried ∷ [])

abbrev pub files : Map PushItem
files = ("push_draft_a", reply) ∷ ("push_message_m1", junk) ∷ ("push_message_m2", stale) ∷ []

abbrev pub junk_plan : MessageActionPush
junk_plan = record {
  action = spam;
  message_ids = "m1" ∷ [];
  locations = [];
  steps = move_step ∷ [];
  reply_to_message_id = none;
}

-- The message m2 is no longer to be moved.
abbrev pub planner : Planner
planner = record {
  plan_message_push = λ id action push. if str_eq id "m1" then ok (some junk_plan) else ok none;
  read_message_eml = λ id. ok [];
  draft_frontmatter = λ case_uid name. ok (
      some (record {
        sync_intent = some send;
        send_intent = none;
        reply_to_message_id = some "m1";
        reply_route = none;
      }));
  configured_outbound_steps = λ action. smtp_step ∷ [];
  prepare_outbound = λ item. ok (record {
    message_id = "d1";
    raw = [];
    delivery =
        OutboundDelivery.email
          (record { delivery_raw = []; envelope_from = "a@x"; envelope_to = [] });
  });
}

abbrev pub digest : Map PushItem → List PushItem → List PushItem → Result String
digest queue items skipped = ok "plan_1"
