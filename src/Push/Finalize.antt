-- ===== src/Push/Finalize.antt =====
-- src/push_queue/mod.rs: finalize_pushed_item, the local stages after the remote steps of an item.
-- `as_str` of the actions is in src/types/push.rs.
pub mod Ends
pub mod Forward
pub mod Once
mod Tests
use Prim.Native.String.{◌++◌ as str_append}
use agent_first_mail.Prelude.{
  ℕ, String, Bool, true, false, Option, none, some, leb, is_some, if◌then◌else◌, Result, ok, err,
  AppError,
}
use agent_first_mail.Push.Item.{
  PushLocalStage, remote_succeeded, outbound_recorded, draft_removed, pending_cleared,
  audit_pending, stage_rank, PushAuditPending, OutboundAction, save_draft, send, MessagePushAction,
  case_add, notification, spam, trash, unspam, untrash, PushPayload, draft, message, OutboundPush,
  PushItem, message_ids, succeeded_step_count,
}
use agent_first_mail.Push.Session.{
  Session, Exec, Host, continue, ◌>>=◌, ◌>>◌, done, modify, now, write_item, ask,
}

-- The work on the local mail, and the views of it. A call is given the session as it finds it.
pub record LocalWork (R : Type 0) : Type 0 where
  pub record_outbound_after_push : Session R → Result (Unit {0}) × R
  pub remove_outbound_draft_after_push : Session R → Result (Unit {0}) × R
  pub clear_pending_push_item : Session R → Result (Unit {0}) × R
  pub refresh_outbound_push_views : Session R → Result (Unit {0}) × R
  pub refresh_message_push_views : Session R → Result (Unit {0}) × R
  pub new_audit_event_id : Session R → Result String × R
  pub fail_after_local_stage : PushLocalStage → Option AppError

abbrev at_least : PushLocalStage → Option PushLocalStage → Bool
at_least stage none = false
at_least stage (some current) = leb (stage_rank stage) (stage_rank current)

abbrev pub local_stage_at_least : PushLocalStage → PushItem → Bool
local_stage_at_least stage item = at_least stage item.local_stage

abbrev action_name : OutboundAction → String
action_name save_draft = "save_draft"
action_name send = "send"

abbrev of_outbound : {A : Type 0} → (OutboundPush → A) → Option OutboundPush → Option A
of_outbound f none = none
of_outbound f (some outbound) = some (f outbound)

audit_of : String → String → String → PushItem → PushAuditPending
unfolding message_ids succeeded_step_count
audit_of id time kind item = record {
  event_id = id;
  created_rfc3339 = time;
  push_kind = kind;
  case_uid = of_outbound (λ o. o.case_uid) item.planned_outbound;
  draft_name = of_outbound (λ o. o.draft_name) item.planned_outbound;
  action = of_outbound (λ o. action_name o.action) item.planned_outbound;
  message_ids = message_ids item;
  succeeded_step_count = succeeded_step_count item;
  attempt_count = item.attempt_count;
  last_error = none;
}

abbrev fail_with : {R : Type 0} → Option AppError → Exec R (Unit {0})
fail_with none s = (ok tt, s)
fail_with (some e) s = (err e, s)

abbrev unless : {R : Type 0} → Bool → Exec R (Unit {0}) → Exec R (Unit {0})
unless true m = done
unless false m = m

-- The item as it is stored decides what is left to do.
abbrev unless_at : {R : Type 0} → (PushItem → Bool) → Exec R (Unit {0}) → Exec R (Unit {0})
unless_at test m s = unless (test s.item) m s

-- `display_kind` of the item is a label for people.
module _ {R : Type 0} (host : Host) (display_kind : PushItem → String) (work : LocalWork R) where
  -- The stage, the time of the update, and the write of the item.
  pub enter : PushLocalStage → Exec R (Unit {0})
  unfolding write_item
  enter stage = do
    modify (λ item. record item { local_stage = some stage })
    time ← now host
    modify (λ item. record item { updated_rfc3339 = time })
    write_item host
    fail_with (work.fail_after_local_stage stage)

  unfoldable pub advance_local_stage : PushLocalStage → Exec R (Unit {0})
  unfolding enter
  advance_local_stage stage = unless_at (local_stage_at_least stage) (enter stage)

  record_stage : Exec R (Unit {0})
  unfolding advance_local_stage
  record_stage = do
    ask work.record_outbound_after_push
    advance_local_stage outbound_recorded
    ask work.refresh_outbound_push_views

  remove_stage : Exec R (Unit {0})
  unfolding advance_local_stage
  remove_stage = do
    ask work.remove_outbound_draft_after_push
    advance_local_stage draft_removed
    ask work.refresh_outbound_push_views

  clear_stage : Exec R (Unit {0})
  unfolding advance_local_stage
  clear_stage = do
    ask work.clear_pending_push_item
    advance_local_stage pending_cleared
    ask work.refresh_message_push_views

  new_audit : Exec R (Unit {0})
  unfolding audit_of
  new_audit = do
    id ← ask work.new_audit_event_id
    time ← now host
    modify
        (λ item. record item { audit_pending = some (audit_of id time (display_kind item) item) })

  prepare_push_audit_pending : Exec R (Unit {0})
  unfolding new_audit enter
  prepare_push_audit_pending = do
    unless_at (λ item. is_some item.audit_pending) new_audit
    unless_at (local_stage_at_least audit_pending) (enter audit_pending)

  outbound_stages : Option OutboundPush → Exec R (Unit {0})
  unfolding record_stage remove_stage
  outbound_stages none = done
  outbound_stages (some outbound) = do
    unless_at (local_stage_at_least outbound_recorded) record_stage
    unless_at (local_stage_at_least draft_removed) remove_stage

  outbound_stages_at : Exec R (Unit {0})
  unfolding outbound_stages
  outbound_stages_at s = outbound_stages s.item.planned_outbound s

  unfoldable pub finalize_pushed_item : Exec R (Unit {0})
  unfolding advance_local_stage outbound_stages_at clear_stage prepare_push_audit_pending
  finalize_pushed_item = do
    advance_local_stage remote_succeeded
    outbound_stages_at
    unless_at (local_stage_at_least pending_cleared) clear_stage
    prepare_push_audit_pending
