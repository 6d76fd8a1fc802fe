-- ===== src/Push/Recovery.antt =====
-- src/push_queue/recovery.rs: settling a push whose outcome is uncertain. A confirmation carries the
-- id of the plan that it was shown. Of the JSON of an answer and of an audit event, the parts that
-- the program puts together are kept.
pub mod Checks
pub mod Settled
pub mod Yields
pub mod Confirm
mod Tests
use agent_first_mail.Prelude.{
  ℕ, zero, suc, ◌+◌, String, Bool, true, false, not, ◌&&◌, ◌||◌, Option, none, some, List, [], ◌∷◌,
  ◌++◌, ltb, ◌==◌, is_some, str_eq, if◌then◌else◌, any, find, length, get_elem?, update_at, Map,
  insert, values, Result, ok, err, ◌>>=◌, ◌>>◌, refuse_if, AppError, app_error, with_calls, lookup,
}
use agent_first_mail.Push.Mail.{PreparedOutbound, OutboundDelivery, ReplyRoute, RemoteLocation}
use agent_first_mail.Push.Item.{
  ActionStep, is_send, is_nil, step_label, is_unknown, is_succeeded, is_pending, OutboundAction,
  save_draft, send, SendReceipt, OutboundPush, PushItem, PushStepState, item_draft,
}
use agent_first_mail.Push.Steps.{mark_step_succeeded, mark_step_recovered_pending}
use agent_first_mail.Push.Plan.{position}
use agent_first_mail.Push.Labels.{Planner}
use agent_first_mail.Push.Planning.{plan_item}

unsupported : AppError
unsupported =
    app_error "push_recovery_unsupported"
      "recovery requires an uncertain first Drafts APPEND with every later step unstarted, or an uncertain send step with every earlier step succeeded and every later step unstarted"

abbrev is_send_label : String → Bool
is_send_label label =
    str_eq label "smtp_send" || str_eq label "cloudflare_send" || str_eq label "file_send"

abbrev unknown_state : PushStepState → Bool
unknown_state state = is_unknown state.status

-- A step that was not started, as the states after the uncertain one must be.
abbrev unstarted : PushStepState → Bool
unstarted state =
    is_pending state.status
    && not (is_some state.started_rfc3339)
    && not (is_some state.completed_rfc3339)

-- The states from place i on do not fit an uncertain step at the place `unknown`.
pub misplaced : ℕ → ℕ → List PushStepState → Bool
misplaced unknown i [] = false
misplaced unknown i (state ∷ states) =
    not (state.index == i)
    || (ltb i unknown && not (is_succeeded state.status))
    || (ltb unknown i && not (unstarted state))
    || misplaced unknown (i + 1) states

abbrev local_work : PushItem → Bool
local_work item =
    not (is_some (item_draft item)) || is_some item.local_stage || is_some item.audit_pending

-- `ok_or_else(unsupported)`
abbrev supported {ℓ} : {A : Type ℓ} → Option A → Result A
supported none = err unsupported
supported (some a) = ok a

-- The item with its plan, and its uncertain step.
pub record Uncertain : Type 0 where
  pub item : PushItem
  pub index : ℕ
  pub step : ActionStep
  pub state : PushStepState

abbrev is_send_action : OutboundAction → Bool
is_send_action save_draft = false
is_send_action send = true

abbrev first_unknown : List PushStepState → Bool
first_unknown [] = false
first_unknown (state ∷ states) =
    state.index == 0 && is_unknown state.status && not (misplaced 0 1 states)

abbrev later_send : List ActionStep → Bool
later_send [] = false
later_send (step ∷ steps) = any is_send steps

-- The plan of the item does not have the uncertain send at its place, or the uncertain append.
other_send : PushItem → OutboundPush → ActionStep → PushStepState → Bool
unfolding step_label
other_send item outbound step state =
    not (length item.step_states == length outbound.steps)
    || not (is_send_action outbound.action)
    || not (is_send step)
    || not (str_eq (step_label step) state.label)

other_append : (String → Bool) → PushItem → OutboundPush → ActionStep → String → Bool
unfolding any
other_append is_drafts item outbound step mailbox_id =
    not (length item.step_states == length outbound.steps)
    || not (is_send_action outbound.action)
    || is_some outbound.draft_uid
    || is_some outbound.draft_uid_validity
    || not (is_drafts mailbox_id)
    || is_send step
    || is_some step.move_to_mailbox_id
    || not (is_nil step.add_flags)
    || not (later_send outbound.steps)

module _ (planner : Planner) where
  -- An item without a plan is refused.
  planned_item : PushItem → Result PushItem
  unfolding plan_item unsupported
  planned_item original = do
    planned ← plan_item planner original
    refuse_if (not planned.0) unsupported
    ok planned.1

  -- The checks of an uncertain send.
  unfoldable pub uncertain_send : PushItem → Result Uncertain
  unfolding position misplaced planned_item unsupported other_send
  uncertain_send original = do
    unknown ← supported (position unknown_state original.step_states)
    refuse_if (local_work original || misplaced unknown 0 original.step_states) unsupported
    item ← planned_item original
    outbound ← supported item.planned_outbound
    step ← supported (get_elem? outbound.steps unknown)
    state ← supported (get_elem? item.step_states unknown)
    refuse_if (other_send item outbound step state) unsupported
    ok (record { item = item; index = unknown; step = step; state = state })

  -- The checks of an uncertain append to Drafts.
  unfoldable pub uncertain_append : (String → Bool) → PushItem → Result (Uncertain × String)
  unfolding misplaced planned_item unsupported other_append
  uncertain_append is_drafts original = do
    refuse_if (local_work original || not (first_unknown original.step_states)) unsupported
    item ← planned_item original
    outbound ← supported item.planned_outbound
    step ← supported (get_elem? outbound.steps 0)
    mailbox_id ← supported step.append_to_mailbox_id
    state ← supported (get_elem? item.step_states 0)
    refuse_if (other_append is_drafts item outbound step mailbox_id) unsupported
    ok (record { item = item; index = 0; step = step; state = state }, mailbox_id)

-- A step that is done, or that is to be tried again.
unfoldable pub settled_done : Uncertain → Option String → String → PushItem
unfolding mark_step_succeeded update_at
settled_done u summary now =
    let item = mark_step_succeeded u.index u.step now u.item in
    record item {
      step_states = elim summary [
        | none ↦ item.step_states
        | some text ↦
            update_at u.index (λ state. record state { result_summary = some text })
              item.step_states
      ];
    }

unfoldable pub settled_open : Uncertain → String → PushItem
unfolding mark_step_recovered_pending update_at
settled_open u summary = record u.item {
  step_states = update_at u.index (mark_step_recovered_pending summary) u.item.step_states;
}
