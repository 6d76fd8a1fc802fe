-- ===== src/Push/Perform/Samples.antt =====
-- src/push_queue/execute.rs: an item that archives and marks one message, and a remote side that counts
-- the effects.
use agent_first_mail.Prelude.{
  ◌&&◌, ℕ, suc, Bool, true, false, none, some, [], ◌∷◌, lookup, is_some, Result, ok, err, app_error,
}
use agent_first_mail.Push.Item.{
  ActionStep, case_add, PushPayload, PushItem, PushLocation, MessageActionPush, SendReceipt,
}
use agent_first_mail.Push.Steps.{step_remote_outcome_unknown}
use agent_first_mail.Push.Session.{Session, Host}
use agent_first_mail.Push.Execute.{Collaborators}
use agent_first_mail.Push.Perform.{Services, Effects}

abbrev pub archive_step : ActionStep
archive_step = record {
  add_flags = "\\Seen" ∷ [];
  move_to_mailbox_id = some "archive";
  append_to_mailbox_id = none;
  smtp_send = none;
  cloudflare_send = none;
  file_send = none;
  on = none;
}

abbrev pub inbox_place : PushLocation
inbox_place = record { message_id = "m1"; mailbox_name = "INBOX"; uid_validity = 7; uid = 3 }

abbrev pub plan : MessageActionPush
plan = record {
  action = case_add;
  message_ids = "m1" ∷ [];
  locations = inbox_place ∷ [];
  steps = archive_step ∷ [];
  reply_to_message_id = none;
}

abbrev pub item : PushItem
item = record {
  push_id = "push_1";
  enqueue_seq = 1;
  payload =
      PushPayload.message
        (record { message_id = "m1"; action = case_add; message_action_snapshot = none });
  planned_outbound = none;
  planned_outbound_message = none;
  planned_message_action = some plan;
  planned_message_rfc822 = [];
  created_rfc3339 = "t0";
  updated_rfc3339 = "t0";
  attempt_count = 0;
  step_states = [];
  local_stage = none;
  audit_pending = none;
  last_error = none;
}

-- The remote side counts the effects.
abbrev pub session : Session ℕ
session = record { item = item; queue = []; tick = 0; remote = 0 }

abbrev pub host : Host
host = record { time = λ tick. "now"; write_error = λ tick. none }

abbrev pub collaborators : Collaborators ℕ
collaborators = record {
  refresh = λ s step. (ok tt, s.remote);
  output_confirmed = λ s. (ok false, s.remote);
  action_mailbox_folder = λ s id. (ok id, s.remote);
  append_rfc822_message_ids = λ s. (ok [], s.remote);
  find_by_message_id = λ s folder id. (ok false, s.remote);
  move_proved = λ s step id. (ok false, s.remote);
}

abbrev pub services : Services ℕ
services = record {
  prepare_outbound =
      λ s. (err (app_error "push_item_invalid" "push item is not outbound"), s.remote);
  output_confirmed = λ s p. (ok false, s.remote);
  prepare_cloudflare_send = λ s p. (ok tt, s.remote);
  validate_smtp_send_attempt = λ s p. (ok tt, s.remote);
  prepare_send = λ s m. (ok tt, s.remote);
  action_mailbox_folder = λ s id. (ok "Archive", s.remote);
  is_drafts = λ id. false;
  draft_reply_to = λ s o. (ok none, s.remote);
  message_remote_locations_any = λ s id. (ok [], s.remote);
  read_message_by_id = λ s id. (ok (record { rfc822_message_id = none; locations = [] }), s.remote);
  read_message_eml = λ s id. (ok [], s.remote);
  add_flags = λ s l flags. (ok tt, s.remote);
  add_remote_flags = λ s l flags. (ok tt, s.remote);
  relocate_message = λ s id places. (ok tt, s.remote);
}

abbrev pub receipt : SendReceipt
receipt = record {
  message_id = "r1";
  delivered = [];
  queued = [];
  permanent_bounces = [];
  suppressed_recipients = [];
}

abbrev pub if_allowed : {A : Type 0} → Bool → A → Result A
if_allowed true a = ok a
if_allowed false a = err (app_error "lost" "no item on disk")

-- The effects, each under a test of the session.
abbrev pub effects_if : (Session ℕ → Bool) → Effects ℕ
effects_if test = record {
  publish = λ s p. (if_allowed (test s) tt, suc s.remote);
  send_cloudflare_raw_message = λ s p. (if_allowed (test s) receipt, suc s.remote);
  send_raw_message = λ s m. (if_allowed (test s) tt, suc s.remote);
  append_message = λ s folder raw draft. (if_allowed (test s) tt, suc s.remote);
  move_message = λ s l target id. (if_allowed (test s) none, suc s.remote);
}

abbrev pub free : Effects ℕ
free = effects_if (λ s. true)

abbrev pub guarded : Effects ℕ
guarded =
    effects_if
      (λ s. is_some (lookup s.item.push_id s.queue) && step_remote_outcome_unknown s.item 0)
