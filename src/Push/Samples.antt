-- ===== src/Push/Samples.antt =====
-- src/types/push.rs: a queued draft and a host for the tests of the push queue.
use agent_first_mail.Prelude.{ℕ, suc, String, ok, none, some, [], ◌∷◌}
use agent_first_mail.Push.Item.{
  ActionStep, save_draft, remote_succeeded, PushPayload, OutboundPush, PushItem,
}
use agent_first_mail.Push.Session.{Session, Host}
use agent_first_mail.Push.Finalize.{LocalWork}

abbrev pub drafts_step : ActionStep
drafts_step = record {
  add_flags = [];
  move_to_mailbox_id = none;
  append_to_mailbox_id = some "drafts";
  smtp_send = none;
  cloudflare_send = none;
  file_send = none;
  on = none;
}

abbrev pub outbound_plan : OutboundPush
outbound_plan = record {
  action = save_draft;
  case_uid = "c1";
  draft_name = "reply.md";
  draft_uid_validity = none;
  draft_uid = none;
  steps = drafts_step ∷ [];
  reply_to_message_id = none;
}

-- Its remote steps are over, and its local stages are not.
abbrev pub draft_item : PushItem
draft_item = record {
  push_id = "push_2";
  enqueue_seq = 4;
  payload = PushPayload.draft (record {
    case_uid = "c1";
    draft_name = "reply.md";
    draft_uid_validity = none;
    draft_uid = none;
  });
  planned_outbound = some outbound_plan;
  planned_outbound_message = none;
  planned_message_action = none;
  planned_message_rfc822 = [];
  created_rfc3339 = "t0";
  updated_rfc3339 = "t1";
  attempt_count = 1;
  step_states = [];
  local_stage = some remote_succeeded;
  audit_pending = none;
  last_error = none;
}

abbrev pub draft_session : Session ℕ
draft_session = record { item = draft_item; queue = []; tick = 0; remote = 0 }

abbrev pub calm_host : Host
calm_host = record { time = λ tick. "now"; write_error = λ tick. none }

-- Each piece of work counts as one.
abbrev pub work : LocalWork ℕ
work = record {
  record_outbound_after_push = λ s. (ok tt, suc s.remote);
  remove_outbound_draft_after_push = λ s. (ok tt, suc s.remote);
  clear_pending_push_item = λ s. (ok tt, suc s.remote);
  refresh_outbound_push_views = λ s. (ok tt, s.remote);
  refresh_message_push_views = λ s. (ok tt, s.remote);
  new_audit_event_id = λ s. (ok "event_1", s.remote);
  fail_after_local_stage = λ stage. none;
}

abbrev pub kind : PushItem → String
kind item = "draft"
