-- ===== src/Push/Steps.antt =====
-- src/push_queue/execute/step_state.rs: the durable transitions of one action step. A time that the
-- source reads from the clock is an argument.
pub mod Ensure
pub mod Marks
use Prim.Native.String.{◌++◌ as str_append}
use agent_first_mail.Prelude.{
  ℕ, zero, suc, ◌+◌, String, Bool, true, false, not, ◌&&◌, ◌||◌, Option, none, some, List, [], ◌∷◌,
  ◌++◌, ltb, leb, ◌==◌, is_some, opt_is, if◌then◌else◌, any, find, retain, update_first, length,
  AppError,
}
use agent_first_mail.Push.Item.{
  ActionStep, is_send, is_nil, step_label, PushStepStatus, pending, succeeded, failed,
  remote_outcome_unknown, is_succeeded, is_unknown, PushStepState, MessageActionPush, PushPayload,
  draft, message, PushItem, message_ids,
}

abbrev pub has_index : ℕ → PushStepState → Bool
has_index index state = state.index == index

abbrev pub new_state : ℕ → ActionStep → PushStepState
new_state index step = record {
  index = index;
  label = step_label step;
  status = pending;
  started_rfc3339 = none;
  completed_rfc3339 = none;
  result_summary = none;
  send_receipt = none;
  error_code = none;
  error = none;
  retryable = none;
}

-- The loop over the steps that adds the states which are missing.
add_states : ℕ → List ActionStep → List PushStepState → List PushStepState
unfolding any
add_states index [] states = states
add_states index (step ∷ steps) states =
    add_states (index + 1) steps
      (if any (has_index index) states then states else states ++ new_state index step ∷ [])

-- `sort_by_key(index)`, which is stable.
insert_state : PushStepState → List PushStepState → List PushStepState
insert_state state [] = state ∷ []
insert_state state (other ∷ states) =
    if leb state.index other.index
    then state ∷ other ∷ states
    else other ∷ insert_state state states

sort_states : List PushStepState → List PushStepState
unfolding insert_state
sort_states [] = []
sort_states (state ∷ states) = insert_state state (sort_states states)

unfoldable pub ensure_step_states : PushItem → List ActionStep → PushItem
unfolding add_states sort_states retain
ensure_step_states item steps = record item {
  step_states =
      sort_states
        (retain (λ state. ltb state.index (length steps)) (add_states 0 steps item.step_states));
}

abbrev pub done_at : ℕ → PushStepState → Bool
done_at index state = has_index index state && is_succeeded state.status

abbrev pub unknown_at : ℕ → PushStepState → Bool
unknown_at index state = has_index index state && is_unknown state.status

unfoldable pub step_succeeded : PushItem → ℕ → Bool
unfolding any
step_succeeded item index = any (done_at index) item.step_states

unfoldable pub step_remote_outcome_unknown : PushItem → ℕ → Bool
unfolding any
step_remote_outcome_unknown item index = any (unknown_at index) item.step_states

abbrev pub legacy_move_message : String → String
legacy_move_message id =
    str_append "message cannot be relocated after remote move without Message-ID: " id

pub legacy_at : ℕ → List String → PushStepState → Bool
unfolding any
legacy_at index ids state =
    has_index index state
    && opt_is state.error_code "rfc822_message_id_missing"
    && any (λ id. opt_is state.error (legacy_move_message id)) ids

unfoldable pub legacy_move_message_id_preflight_failed : PushItem → ℕ → ActionStep → Bool
unfolding any message_ids legacy_at
legacy_move_message_id_preflight_failed item index step =
    if not (is_some item.planned_message_action)
      || not (is_some step.move_to_mailbox_id)
      || not (is_nil step.add_flags)
      || is_some step.append_to_mailbox_id
      || is_send step
    then false
    else any (legacy_at index (message_ids item)) item.step_states

-- `step_state_mut(item, index)` and a change of the state that it finds
abbrev pub update_state : ℕ → (PushStepState → PushStepState) → PushItem → PushItem
update_state index f item = record item {
  step_states = update_first (has_index index) f item.step_states;
}

abbrev or_now : Option String → String → Option String
or_now none now = some now
or_now (some time) now = some time

-- `get_or_insert` keeps a start that is there.
abbrev record_attempt : ActionStep → PushStepStatus → String → PushStepState → PushStepState
record_attempt step status now state = record state {
  label = step_label step;
  status = status;
  started_rfc3339 = or_now state.started_rfc3339 now;
}

abbrev clear_step_error : PushStepState → PushStepState
clear_step_error state = record state { error_code = none; error = none; retryable = none }

freeze_payload : Option MessageActionPush → PushPayload → PushPayload
freeze_payload snapshot (draft d) = draft d
freeze_payload snapshot (message m) = message (
    if is_some m.message_action_snapshot
    then m
    else record m { message_action_snapshot = snapshot })

unfoldable pub freeze_message_action_snapshot : PushItem → PushItem
unfolding freeze_payload
freeze_message_action_snapshot item = record item {
  payload = freeze_payload item.planned_message_action item.payload;
}

abbrev pub pend : ActionStep → String → PushStepState → PushStepState
pend step now state = record state {
  label = step_label step;
  status = pending;
  started_rfc3339 = some now;
  completed_rfc3339 = none;
  result_summary = none;
  send_receipt = none;
  error_code = none;
  error = none;
  retryable = none;
}

unfoldable pub mark_step_pending : ℕ → ActionStep → String → String → PushItem → PushItem
unfolding freeze_message_action_snapshot update_first
mark_step_pending index step now later item =
    record (update_state index (pend step now) (freeze_message_action_snapshot item)) {
      updated_rfc3339 = later;
    }

abbrev step_result_summary : ActionStep → String
step_result_summary step =
    if is_some step.file_send
    then "file_send published"
    else if is_some step.cloudflare_send
    then "cloudflare_send submitted; inspect send_receipt for recipient outcomes"
    else if is_some step.smtp_send
    then "smtp_send succeeded"
    else if is_some step.append_to_mailbox_id
    then "append succeeded"
    else if is_some step.move_to_mailbox_id
    then "move succeeded"
    else if not (is_nil step.add_flags)
    then "flags updated"
    else "noop succeeded"

abbrev pub succeed : ActionStep → String → PushStepState → PushStepState
succeed step now state = clear_step_error (record (record_attempt step succeeded now state) {
  completed_rfc3339 = some now;
  result_summary = some (step_result_summary step);
})

unfoldable pub mark_step_succeeded : ℕ → ActionStep → String → PushItem → PushItem
unfolding update_first
mark_step_succeeded index step now item = update_state index (succeed step now) item

abbrev pub fail : ActionStep → AppError → String → PushStepState → PushStepState
fail step e now state = record (record_attempt step failed now state) {
  completed_rfc3339 = some now;
  result_summary = none;
  error_code = some e.error_code;
  error = some e.message;
  retryable = some e.retryable;
}

unfoldable pub mark_step_failed : ℕ → ActionStep → AppError → String → PushItem → PushItem
unfolding update_first
mark_step_failed index step e now item = update_state index (fail step e now) item

abbrev code_of : Option AppError → Option String
code_of none = none
code_of (some e) = some e.error_code

abbrev text_of : Option AppError → Option String
text_of none = none
text_of (some e) = some e.message

abbrev pub lose : ActionStep → Option AppError → String → PushStepState → PushStepState
lose step e now state = record (record_attempt step remote_outcome_unknown now state) {
  completed_rfc3339 = none;
  result_summary = some "remote outcome unknown";
  error_code = code_of e;
  error = text_of e;
  retryable = some false;
}

unfoldable pub mark_step_remote_outcome_unknown :
    ℕ → ActionStep → Option AppError → String → PushItem → PushItem
unfolding update_first
mark_step_remote_outcome_unknown index step e now item = update_state index (lose step e now) item

unfoldable pub mark_step_recovered_pending : String → PushStepState → PushStepState
mark_step_recovered_pending summary state = record state {
  status = pending;
  started_rfc3339 = none;
  completed_rfc3339 = none;
  result_summary = some summary;
  retryable = some true;
}
