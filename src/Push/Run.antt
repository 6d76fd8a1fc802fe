-- ===== src/Push/Run.antt =====
-- src/push_queue/mod.rs: a confirmed run over the queue. The entries of an item into its remote steps
-- are of src/push_queue/execute.rs, and the exit code of src/types/command_result.rs.
pub mod Audited
pub mod Loop
pub mod Command
mod Tests
use Prim.Native.String.{◌++◌ as str_append}
use agent_first_mail.Prelude.{
  ℕ, zero, suc, ◌+◌, ◌-◌, String, Bool, true, false, not, ◌&&◌, ◌||◌, Option, none, some, List, [],
  ◌∷◌, length, ltb, ◌==◌, is_some, if◌then◌else◌, any, Map, lookup, remove, Result, ok, err,
  refuse_if, AppError, app_error, with_calls,
}
use agent_first_mail.Push.Item.{
  ActionStep, is_nil, is_unknown, PushAuditPending, OutboundAction, save_draft, send,
  MessagePushAction, case_add, notification, spam, trash, unspam, untrash, MessageActionPush,
  PushPayload, draft, message, OutboundPush, PushItem, succeeded_step_count,
}
use agent_first_mail.Push.Session.{
  Session, Exec, Host, continue, ◌>>=◌, ◌>>◌, done, raise, modify, now, write_item, ask,
}
use agent_first_mail.Push.Execute.{Collaborators, execute_tracked_steps, error_text}
use agent_first_mail.Push.Perform.{Services, Effects, lift}
use agent_first_mail.Push.Perform.Executors.{execute_message_step, execute_outbound_step}
use agent_first_mail.Push.Finalize.{LocalWork, finalize_pushed_item}
use agent_first_mail.Push.Labels.{Planner, filter_reply_to_steps}

-- The feature that a send step needs, and the first step whose feature the build lacks.
abbrev send_feature : ActionStep → Option (String × String)
send_feature step =
    if is_some step.cloudflare_send
    then some ("cloudflare_send", "cloudflare")
    else if is_some step.smtp_send
    then some ("smtp_send", "smtp")
    else if is_some step.file_send
    then some ("file_send", "files")
    else none

abbrev missing_or :
    (String → Bool) → Option (String × String) → Option (String × String) → Option (String × String)
missing_or compiled none later = later
missing_or compiled (some (label, feature)) later =
    if compiled feature then later else some (label, feature)

missing_send_feature : (String → Bool) → List ActionStep → Option (String × String)
missing_send_feature compiled [] = none
missing_send_feature compiled (step ∷ steps) =
    missing_or compiled (send_feature step) (missing_send_feature compiled steps)

abbrev disabled_unless_none : Option (String × String) → Result (Unit {0})
disabled_unless_none none = ok tt
disabled_unless_none (some (label, feature)) = err (
    with_calls false (
      app_error "feature_disabled" (
        str_append label (
          str_append " requires the "
            (str_append feature " feature, which this afmail build does not include")))))

unfoldable pub require_compiled_send_features :
    (String → Bool) → List ActionStep → Result (Unit {0})
unfolding missing_send_feature
require_compiled_send_features compiled steps =
    disabled_unless_none (missing_send_feature compiled steps)

-- What a run calls beside the executors and the finalization: what planning reads, the compiled
-- features, the guards of a message action (the push id is that of the item, which does not count
-- for them), and the audit log. An event of a success has an identity, and appending it again
-- changes nothing.
pub record Surroundings (R : Type 0) : Type 0 where
  pub planner : R → Planner
  pub compiled : String → Bool
  pub ensure_archive_eligible : R → List String → String → Result (Unit {0})
  pub ensure_message_ids_unreferenced : R → List String → String → Result (Unit {0})
  pub append_audit_event_with_identity : Session R → PushAuditPending → Result (Unit {0}) × R
  pub append_audit_event : Session R → AppError → Result (Unit {0}) × R
  pub finalize_archiving_cases : Session R → Result (Unit {0}) × R
  pub mark_pending_push_error : Session R → AppError → Result (Unit {0}) × R
  pub fail_push_failure_persistence : String → Option AppError

-- The parts of a run.
pub record Parts (R : Type 0) : Type 0 where
  pub host : Host
  pub collaborators : Collaborators R
  pub services : Services R
  pub effects : Effects R
  pub work : LocalWork R
  pub display_kind : PushItem → String
  pub around : Surroundings R

abbrev is_save : OutboundAction → Bool
is_save save_draft = true
is_save send = false

abbrev empty_upload : OutboundAction → List ActionStep → Result (Unit {0})
empty_upload action steps =
    refuse_if (is_save action && is_nil steps)
      (app_error "draft_upload_unavailable" "draft upload is not configured")

abbrev push_item_invalid : String → AppError
push_item_invalid text = app_error "push_item_invalid" text

module _ {R : Type 0} (p : Parts R) where
  resolved_steps : OutboundPush → PushItem → R → Result (List ActionStep)
  unfolding filter_reply_to_steps
  resolved_steps outbound item remote =
      if is_nil outbound.steps
      then filter_reply_to_steps (p.around.planner remote) item
          ((p.around.planner remote).configured_outbound_steps outbound.action)
      else ok outbound.steps

  run_outbound : OutboundPush → Exec R (Unit {0})
  unfolding resolved_steps require_compiled_send_features execute_tracked_steps
  run_outbound outbound = do
    steps ← λ s. (resolved_steps outbound s.item s.remote, s)
    lift (require_compiled_send_features p.around.compiled steps)
    lift (empty_upload outbound.action steps)
    execute_tracked_steps p.host p.collaborators (execute_outbound_step p.host p.services p.effects)
        steps

  outbound_or : Option OutboundPush → Exec R (Unit {0})
  unfolding run_outbound
  outbound_or none s = raise (push_item_invalid "push item is not outbound") s
  outbound_or (some outbound) s =
      if is_some s.item.local_stage then done s else run_outbound outbound s

  push_outbound : Exec R (Unit {0})
  unfolding outbound_or
  push_outbound s = outbound_or s.item.planned_outbound s

  abbrev guard_action : MessagePushAction → List String → String → R → Result (Unit {0})
  guard_action notification ids push_id remote = p.around.ensure_archive_eligible remote ids push_id
  guard_action spam ids push_id remote = p.around.ensure_message_ids_unreferenced remote ids push_id
  guard_action trash ids push_id remote =
      p.around.ensure_message_ids_unreferenced remote ids push_id
  guard_action case_add ids push_id remote = ok tt
  guard_action unspam ids push_id remote = ok tt
  guard_action untrash ids push_id remote = ok tt

  action_or : Option MessageActionPush → Exec R (Unit {0})
  unfolding execute_tracked_steps
  action_or none = raise (push_item_invalid "push item is not a message action")
  action_or (some payload) = do
    λ s. (guard_action payload.action payload.message_ids s.item.push_id s.remote, s)
    execute_tracked_steps p.host p.collaborators (execute_message_step p.host p.services p.effects)
        payload.steps

  push_action_steps : Exec R (Unit {0})
  unfolding action_or
  push_action_steps s = action_or s.item.planned_message_action s

  remote_part : PushPayload → Exec R (Unit {0})
  unfolding push_outbound push_action_steps
  remote_part (draft d) = push_outbound
  remote_part (message m) = push_action_steps

  -- The remote steps and the finalization of an item. An item whose audit event is prepared has
  -- both behind it.
  unfoldable pub push_item : Exec R (Unit {0})
  unfolding remote_part finalize_pushed_item
  push_item s =
      if is_some s.item.audit_pending
      then done s
      else (do remote_part s.item.payload; finalize_pushed_item p.host p.display_kind p.work) s

  abbrev removed_if : Option AppError → Exec R (Unit {0})
  removed_if none s = (ok tt, record s { queue = remove s.item.push_id s.queue; tick = suc s.tick })
  removed_if (some e) s = (err e, record s { tick = suc s.tick })

  -- A file that is not there is removed already.
  abbrev deleted_or : Option PushItem → Exec R (Unit {0})
  deleted_or none s = done s
  deleted_or (some file) s = removed_if (p.host.write_error s.tick) s

  -- `delete_item` of src/push_queue/io.rs
  unfoldable pub delete_item : Exec R (Unit {0})
  unfolding remove lookup
  delete_item s = deleted_or (lookup s.item.push_id s.queue) s

  audit_succeeded : Option PushAuditPending → Exec R (Unit {0})
  audit_succeeded none s = (
    err (
        app_error "push_audit_state_invalid" (
          str_append "push " (str_append s.item.push_id " has no durable audit_pending identity"))),
    s,
  )
  audit_succeeded (some pending) s =
      ask (λ t. p.around.append_audit_event_with_identity t pending) s

  -- The event, the removal of the item from the queue, and the cases that wait for it.
  unfoldable pub complete_successful_push_audit : Exec R (Unit {0})
  unfolding audit_succeeded delete_item
  complete_successful_push_audit = do
    λ s. audit_succeeded s.item.audit_pending s
    delete_item
    ask p.around.finalize_archiving_cases
    modify (λ item. record item { audit_pending = none; last_error = none })
