-- ===== src/Push/Planning.antt =====
-- src/push_queue/mod.rs: plan_item resolves what a queued item does now. An item whose effects have
-- started keeps the plan that was frozen with it.
pub mod Derived
pub mod Progress
use Prim.Native.String.{◌++◌ as str_append}
use agent_first_mail.Prelude.{
  String, Bool, true, false, not, ◌&&◌, ◌||◌, Option, none, some, List, [], ◌∷◌, str_eq, is_some,
  if◌then◌else◌, any, all, Map, insert, Result, ok, err, ◌>>=◌, ◌>>◌, refuse_if, AppError,
  app_error, with_calls, ◌==◌,
}
use agent_first_mail.Push.Mail.{Bytes, PreparedOutbound}
use agent_first_mail.Push.Item.{
  ActionStep, is_nil, draft_removed, PushAuditPending, OutboundAction, save_draft, send,
  MessagePushAction, case_add, notification, spam, trash, unspam, untrash, PushLocation,
  MessageActionPush, DraftPush, MessagePush, PushPayload, draft, message, OutboundPush, PushItem,
  item_draft, message_ids, has_started_effects,
}
use agent_first_mail.Push.Finalize.{local_stage_at_least}
use agent_first_mail.Push.Queue.{action_code}
use agent_first_mail.Push.Labels.{
  DraftFrontmatter, Planner, queued_draft, filter_reply_to_steps, reset_progress_if_plan_changed,
}

-- `MessagePushAction::from_kind`
unfoldable pub from_kind : String → Option MessagePushAction
from_kind kind =
    if str_eq kind "case.add" || str_eq kind "case_add"
    then some case_add
    else if str_eq kind "message.notification" || str_eq kind "notification"
    then some notification
    else if str_eq kind "message.spam" || str_eq kind "spam"
    then some spam
    else if str_eq kind "message.trash" || str_eq kind "trash"
    then some trash
    else if str_eq kind "message.unspam" || str_eq kind "unspam"
    then some unspam
    else if str_eq kind "message.untrash" || str_eq kind "untrash"
    then some untrash
    else none

-- `MessagePushAction::kind`
unfoldable pub kind_of : MessagePushAction → String
kind_of case_add = "case.add"
kind_of notification = "message.notification"
kind_of spam = "message.spam"
kind_of trash = "message.trash"
kind_of unspam = "message.unspam"
kind_of untrash = "message.untrash"

abbrev only_id : List String → String → Bool
only_id [] id = false
only_id (x ∷ []) id = str_eq x id
only_id (x ∷ y ∷ ids) id = false

unfoldable pub validate_message_action_snapshot :
    PushItem → MessagePush → MessageActionPush → Result (Unit {0})
unfolding all has_started_effects
validate_message_action_snapshot item m snapshot =
    refuse_if
      (not (
        action_code snapshot.action == action_code m.action
        && only_id snapshot.message_ids m.message_id
        && all (λ location. str_eq location.message_id m.message_id) snapshot.locations
        && not (is_nil snapshot.locations)
        && not (is_nil snapshot.steps)))
      (with_calls (has_started_effects item) (
        app_error "push_item_invalid"
          (str_append "message action snapshot does not match queued intent for " item.push_id)))

audit_invalid : String → AppError
audit_invalid text = app_error "push_audit_state_invalid" text

outbound_named : String → Result OutboundAction
unfolding audit_invalid
outbound_named name =
    if str_eq name "save_draft"
    then ok save_draft
    else if str_eq name "send"
    then ok send
    else err (audit_invalid (str_append "unsupported audit_pending outbound action: " name))

abbrev audited_draft : OutboundAction → String → String → Option DraftPush → OutboundPush
audited_draft action case_uid draft_name none = record {
  action = action;
  case_uid = case_uid;
  draft_name = draft_name;
  draft_uid_validity = none;
  draft_uid = none;
  steps = [];
  reply_to_message_id = none;
}
audited_draft action case_uid draft_name (some d) = record {
  action = action;
  case_uid = case_uid;
  draft_name = draft_name;
  draft_uid_validity = d.draft_uid_validity;
  draft_uid = d.draft_uid;
  steps = [];
  reply_to_message_id = none;
}

audited_outbound : PushItem → String → String → String → Result PushItem
unfolding outbound_named
audited_outbound item case_uid draft_name name = do
  action ← outbound_named name
  ok (record item {
    planned_outbound = some (audited_draft action case_uid draft_name (item_draft item));
  })

audited_action : PushItem → PushAuditPending → Option MessagePushAction → Result PushItem
unfolding audit_invalid
audited_action item pending none =
    err (audit_invalid (str_append "unsupported audit_pending message action: " pending.push_kind))
audited_action item pending (some action) = ok (record item {
  planned_message_action = some (record {
    action = action;
    message_ids = pending.message_ids;
    locations = [];
    steps = [];
    reply_to_message_id = none;
  });
})

audited_plan :
    PushItem → PushAuditPending → Option String → Option String → Option String → Result PushItem
unfolding audited_outbound audited_action from_kind
audited_plan item pending (some case_uid) (some draft_name) (some name) =
    audited_outbound item case_uid draft_name name
audited_plan item pending none draft_name name =
    audited_action item pending (from_kind pending.push_kind)
audited_plan item pending (some case_uid) none name =
    audited_action item pending (from_kind pending.push_kind)
audited_plan item pending (some case_uid) (some draft_name) none =
    audited_action item pending (from_kind pending.push_kind)

-- `hydrate_audit_pending_plan`, at the audit event of the item
unfoldable pub hydrate_audit_pending_plan : PushItem → PushAuditPending → Result PushItem
unfolding audited_plan
hydrate_audit_pending_plan item pending =
    audited_plan item pending pending.case_uid pending.draft_name pending.action

unknown : String → PushItem → String → AppError
unknown noun item text =
    app_error "push_remote_outcome_unknown"
      (str_append noun (str_append " push " (str_append item.push_id text)))

-- Whether the item still has a plan, and the item with it.
abbrev pub Planned : Type 0
Planned = Bool × PushItem

abbrev steps_of : Option MessageActionPush → List ActionStep
steps_of none = []
steps_of (some action) = action.steps

-- A draft with no intent has no plan, unless its effects have started.
unplanned_draft : PushItem → Result Planned
unfolding unknown has_started_effects
unplanned_draft item =
    if has_started_effects item
    then err (unknown "draft" item " has started but the draft has no sync_intent")
    else ok (false, item)

abbrev with_steps : List ActionStep → Option OutboundPush → Option OutboundPush
with_steps steps none = none
with_steps steps (some outbound) = some (record outbound { steps = steps })

module _ (planner : Planner) where
  frozen_plan :
      PushItem → MessagePush → Option MessageActionPush → Result (Option MessageActionPush)
  unfolding validate_message_action_snapshot
  frozen_plan item m (some snapshot) =
      validate_message_action_snapshot item m snapshot >> ok (some snapshot)
  frozen_plan item m none = planner.plan_message_push m.message_id m.action item.push_id

  message_plan : PushItem → MessagePush → Result (Option MessageActionPush)
  unfolding frozen_plan has_started_effects
  message_plan item m =
      if has_started_effects item
      then frozen_plan item m m.message_action_snapshot
      else planner.plan_message_push m.message_id m.action item.push_id

  read_all : List String → Map Bytes → Result (Map Bytes)
  unfolding insert
  read_all [] raws = ok raws
  read_all (id ∷ ids) raws = do raw ← planner.read_message_eml id; read_all ids (insert id raw raws)

  with_raw : PushItem → List ActionStep → Result Planned
  unfolding any read_all message_ids
  with_raw item steps =
      if any (λ step. is_some step.append_to_mailbox_id) steps
      then (do
        raws ← read_all (message_ids item) item.planned_message_rfc822
        ok (true, record item { planned_message_rfc822 = raws }))
      else ok (true, item)

  plan_message : PushItem → Option MessageActionPush → Result Planned
  unfolding reset_progress_if_plan_changed with_raw unknown has_started_effects
  plan_message item none =
      if has_started_effects item
      then err (
          with_calls true
            (unknown "message" item " has started but its original action plan is unavailable"))
      else ok (false, record item { planned_message_action = none })
  plan_message item (some action) = do
    kept ←
        reset_progress_if_plan_changed planner
          (record item { planned_message_action = some action })
    with_raw kept (steps_of kept.planned_message_action)

  prepared_for : PushItem → Option PreparedOutbound → Result PreparedOutbound
  prepared_for item (some prepared) = ok prepared
  prepared_for item none = planner.prepare_outbound item

  plan_intended : PushItem → DraftPush → OutboundAction → Option String → Result Planned
  unfolding filter_reply_to_steps reset_progress_if_plan_changed prepared_for
  plan_intended item d action reply_to = do
    let planned = record item { planned_outbound = some (queued_draft action d [] reply_to) }
    steps ← filter_reply_to_steps planner planned (planner.configured_outbound_steps action)
    kept ←
        reset_progress_if_plan_changed planner
          (record planned { planned_outbound = with_steps steps planned.planned_outbound })
    prepared ← prepared_for kept kept.planned_outbound_message
    ok (true, record kept { planned_outbound_message = some prepared })

  plan_intent : PushItem → DraftPush → Option OutboundAction → Option String → Result Planned
  unfolding unplanned_draft plan_intended
  plan_intent item d none reply_to = unplanned_draft item
  plan_intent item d (some action) reply_to = plan_intended item d action reply_to

  plan_draft : PushItem → DraftPush → Option DraftFrontmatter → Result Planned
  unfolding plan_intent unplanned_draft
  plan_draft item d none =
      if local_stage_at_least draft_removed item
      then ok (true, record item { planned_outbound = some (queued_draft send d [] none) })
      else unplanned_draft item
  plan_draft item d (some found) = plan_intent item d found.sync_intent found.reply_to_message_id

  plan_payload : PushItem → PushPayload → Result Planned
  unfolding message_plan plan_message plan_draft
  plan_payload item (message m) = do plan ← message_plan item m; plan_message item plan
  plan_payload item (draft d) = do
    found ← planner.draft_frontmatter d.case_uid d.draft_name
    plan_draft item d found

  plan_audited : PushItem → Option PushAuditPending → Result Planned
  unfolding hydrate_audit_pending_plan plan_payload
  plan_audited item (some pending) = do
    planned ← hydrate_audit_pending_plan item pending
    ok (true, planned)
  plan_audited item none = plan_payload item item.payload

  unfoldable pub plan_item : PushItem → Result Planned
  unfolding plan_audited
  plan_item item = plan_audited item item.audit_pending
