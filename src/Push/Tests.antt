-- ===== src/Push/Tests.antt =====
-- src/push_queue/execute.rs: an item with two steps, one of them done, and the theorems at its run.
use agent_first_mail.Prelude.{
  ℕ, zero, suc, ◌≡◌, refl, false, Option, none, some, [], ◌∷◌, lookup, ok, app_error,
}
use agent_first_mail.Push.Item.{
  ActionStep, PushStepState, succeeded, PushPayload, PushItem, case_add,
}
use agent_first_mail.Push.Steps.{ensure_step_states, step_succeeded, step_remote_outcome_unknown}
use agent_first_mail.Push.Session.{Session, Exec, Host, raise, write_item}
use agent_first_mail.Push.Execute.{Collaborators, execute_tracked_steps}
use agent_first_mail.Push.Execute.Frame.{Keeps}
use agent_first_mail.Push.Execute.Present.{SamePresence}
use agent_first_mail.Push.Execute.Blocked.{SameElsewhere, is_closed, execute_skips_closed}
use agent_first_mail.Push.Execute.Durable.{IsRecorded, execute_only_recorded}

abbrev flag_step : ActionStep
flag_step = record {
  add_flags = "\\Seen" ∷ [];
  move_to_mailbox_id = none;
  append_to_mailbox_id = none;
  smtp_send = none;
  cloudflare_send = none;
  file_send = none;
  on = none;
}

abbrev move_step : ActionStep
move_step = record flag_step { add_flags = []; move_to_mailbox_id = some "archive" }

abbrev done_state : PushStepState
done_state = record {
  index = 0;
  label = "add_flags";
  status = succeeded;
  started_rfc3339 = some "t0";
  completed_rfc3339 = some "t1";
  result_summary = some "flags updated";
  send_receipt = none;
  error_code = none;
  error = none;
  retryable = none;
}

abbrev item : PushItem
item = record {
  push_id = "push_1";
  enqueue_seq = 1;
  payload =
      PushPayload.message
        (record { message_id = "m1"; action = case_add; message_action_snapshot = none });
  planned_outbound = none;
  planned_outbound_message = none;
  planned_message_action = none;
  planned_message_rfc822 = [];
  created_rfc3339 = "t0";
  updated_rfc3339 = "t1";
  attempt_count = 1;
  step_states = done_state ∷ [];
  local_stage = none;
  audit_pending = none;
  last_error = none;
}

-- The remote side counts the effects.
abbrev session : Session ℕ
session = record { item = item; queue = []; tick = 0; remote = 0 }

abbrev host : Host
host = record { time = λ tick. "now"; write_error = λ tick. none }

abbrev nobody : Collaborators ℕ
nobody = record {
  refresh = λ s step. (ok tt, s.remote);
  output_confirmed = λ s. (ok false, s.remote);
  action_mailbox_folder = λ s id. (ok id, s.remote);
  append_rfc822_message_ids = λ s. (ok [], s.remote);
  find_by_message_id = λ s folder id. (ok false, s.remote);
  move_proved = λ s step id. (ok false, s.remote);
}

abbrev apply : ℕ → ActionStep → Exec ℕ (Unit {0})
apply index step s = (ok tt, record s { remote = suc s.remote })

-- An executor that refuses an item that is not on disk.
abbrev if_on_disk : Option PushItem → Exec ℕ (Unit {0}) → Exec ℕ (Unit {0})
if_on_disk none m = raise (app_error "lost" "no item on disk")
if_on_disk (some found) m = m

abbrev apply_on_disk : ℕ → ActionStep → Exec ℕ (Unit {0})
apply_on_disk index step s = if_on_disk (lookup s.item.push_id s.queue) (apply index step) s

-- An executor that refuses the first step.
abbrev apply_later : ℕ → ActionStep → Exec ℕ (Unit {0})
apply_later zero step = raise (app_error "twice" "applied before")
apply_later (suc index) step = apply (suc index) step

agree_on_disk :
    (index : ℕ) (step : ActionStep) (t : Session ℕ)
    → IsRecorded index t
    → apply index step t ≡ apply_on_disk index step t
agree_on_disk index step t r = rw r.on_disk refl

if_on_disk_present :
    (o : Option PushItem) (j index : ℕ) (step : ActionStep)
    → Keeps (SamePresence j) (if_on_disk o (apply index step))
if_on_disk_present none j index step = record { at = λ s. refl }
if_on_disk_present (some found) j index step = record { at = λ s. refl }

apply_on_disk_present :
    (j index : ℕ) (step : ActionStep) → Keeps (SamePresence j) (apply_on_disk index step)
apply_on_disk_present j index step = record {
  at = λ s. (if_on_disk_present (lookup s.item.push_id s.queue) j index step).at s;
}

execute_only_recorded_example :
    execute_tracked_steps host nobody apply (flag_step ∷ move_step ∷ []) session
    ≡ execute_tracked_steps host nobody apply_on_disk (flag_step ∷ move_step ∷ []) session
execute_only_recorded_example =
    execute_only_recorded host nobody apply apply_on_disk agree_on_disk apply_on_disk_present
      (flag_step ∷ move_step ∷ []) session

agree_later :
    (index : ℕ) (step : ActionStep) (t : Session ℕ)
    → is_closed step index (ensure_step_states item (flag_step ∷ move_step ∷ [])) ≡ false
    → apply index step t ≡ apply_later index step t
unfolding is_closed step_succeeded ensure_step_states
agree_later zero step t h = cc
agree_later (suc index) step t h = refl

apply_frame : (index : ℕ) (step : ActionStep) → Keeps (SameElsewhere index) (apply index step)
apply_frame index step = record { at = λ s other j n. refl }

execute_skips_closed_example :
    execute_tracked_steps host nobody apply (flag_step ∷ move_step ∷ []) session
    ≡ execute_tracked_steps host nobody apply_later (flag_step ∷ move_step ∷ []) session
execute_skips_closed_example =
    execute_skips_closed host nobody apply apply_later (flag_step ∷ move_step ∷ []) session
      agree_later apply_frame

-- The step that was done is not applied again, and the other one is.
one_effect :
    (execute_tracked_steps host nobody apply (flag_step ∷ move_step ∷ []) session).1.remote ≡ 1
unfolding execute_tracked_steps step_succeeded ensure_step_states step_remote_outcome_unknown
    write_item
one_effect = refl
