-- ===== src/Push/Labels.antt =====
-- src/push_queue/preview.rs, execute.rs and mod.rs: the steps that an item resolves to now, their
-- labels, and whether the recorded progress goes on with them.
pub mod Reset
use Prim.Native.String.{◌++◌ as str_append}
use agent_first_mail.Prelude.{
  ℕ, String, Bool, true, false, not, ◌&&◌, ◌||◌, Option, none, some, List, [], ◌∷◌, map, ltb,
  length, str_eq, is_some, opt_is, if◌then◌else◌, any, all, retain, Map, insert, Result, ok, err,
  ◌>>=◌, ◌>>◌, refuse_if, AppError, app_error, with_calls,
}
use agent_first_mail.Push.Mail.{Bytes, ReplyRoute, PreparedOutbound}
use agent_first_mail.Push.Item.{
  ActionStep, ActionStepOn, reply_to_message, is_nil, step_label, PushStepState, draft_removed,
  PushAuditPending, OutboundAction, save_draft, send, MessagePushAction, case_add, notification,
  spam, trash, unspam, untrash, PushLocation, MessageActionPush, DraftPush, MessagePush,
  PushPayload, draft, message, OutboundPush, PushItem, item_draft, message_ids, has_started_effects,
}
use agent_first_mail.Push.Finalize.{local_stage_at_least}
use agent_first_mail.Push.Queue.{action_code, same_action}

-- What planning reads of the front matter of a draft.
pub record DraftFrontmatter : Type 0 where
  pub sync_intent : Option OutboundAction
  pub send_intent : Option String
  pub reply_to_message_id : Option String
  pub reply_route : Option ReplyRoute

-- What planning reads of the workspace and of the configuration: the plan of a message action, with
-- the item whose references do not count, the bytes of a message, the front matter of a draft if its
-- file is there, the configured steps, and the composition of an outbound message.
pub record Planner : Type 0 where
  pub plan_message_push : String → MessagePushAction → String → Result (Option MessageActionPush)
  pub read_message_eml : String → Result Bytes
  pub draft_frontmatter : String → String → Result (Option DraftFrontmatter)
  pub configured_outbound_steps : OutboundAction → List ActionStep
  pub prepare_outbound : PushItem → Result PreparedOutbound

abbrev on_reply : Option ActionStepOn → Bool
on_reply none = false
on_reply (some reply_to_message) = true

abbrev file_step : ActionStep
file_step = record {
  add_flags = [];
  move_to_mailbox_id = none;
  append_to_mailbox_id = none;
  smtp_send = none;
  cloudflare_send = none;
  file_send = some [];
  on = none;
}

abbrev route_of : Option DraftFrontmatter → Option ReplyRoute
route_of none = none
route_of (some found) = found.reply_route

abbrev pub queued_draft :
    OutboundAction → DraftPush → List ActionStep → Option String → OutboundPush
queued_draft action d steps reply_to = record {
  action = action;
  case_uid = d.case_uid;
  draft_name = d.draft_name;
  draft_uid_validity = d.draft_uid_validity;
  draft_uid = d.draft_uid;
  steps = steps;
  reply_to_message_id = reply_to;
}

-- Equal lists of labels, and the prefix test of slices.
same_labels : List String → List String → Bool
same_labels [] [] = true
same_labels [] (y ∷ ys) = false
same_labels (x ∷ xs) [] = false
same_labels (x ∷ xs) (y ∷ ys) = str_eq x y && same_labels xs ys

labels_start_with : List String → List String → Bool
labels_start_with labels [] = true
labels_start_with [] (y ∷ ys) = false
labels_start_with (x ∷ xs) (y ∷ ys) = str_eq x y && labels_start_with xs ys

pub labels_continue : List String → List String → Bool
unfolding same_labels labels_start_with
labels_continue current planned =
    same_labels current planned
    || (ltb (length current) (length planned) && labels_start_with planned current)

module _ (planner : Planner) where
  skip_from : Option DraftFrontmatter → String → Result Bool
  skip_from none draft_name =
      err (app_error "draft_not_found" (str_append "queued draft file is missing: " draft_name))
  skip_from (some found) draft_name =
      ok (opt_is found.send_intent "new" || not (is_some found.reply_to_message_id))

  skip_for : Option OutboundPush → Result Bool
  unfolding skip_from
  skip_for none = ok true
  skip_for (some outbound) = do
    found ← planner.draft_frontmatter outbound.case_uid outbound.draft_name
    skip_from found outbound.draft_name

  unfoldable pub should_skip_reply_to_steps : PushItem → Result Bool
  unfolding skip_for
  should_skip_reply_to_steps item = skip_for item.planned_outbound

  email_steps : PushItem → List ActionStep → Result (List ActionStep)
  unfolding any retain should_skip_reply_to_steps
  email_steps item steps =
      if any (λ step. is_some step.file_send) steps
      then err (
          with_calls false (
            app_error "channel_operation_unsupported"
              "file_send applies only to drafts with a file reply route; this email draft cannot use it"))
      else if not (any (λ step. on_reply step.on) steps)
      then ok steps
      else (do
        skip ← should_skip_reply_to_steps item
        ok (if skip then retain (λ step. not (on_reply step.on)) steps else steps))

  routed_steps :
      PushItem → OutboundAction → Option ReplyRoute → List ActionStep → Result (List ActionStep)
  unfolding email_steps
  routed_steps item action none steps = email_steps item steps
  routed_steps item send (some route) steps = ok (file_step ∷ [])
  routed_steps item save_draft (some route) steps =
      err (app_error "channel_operation_unsupported" "file channels do not upload remote drafts")

  steps_for : PushItem → Option OutboundPush → List ActionStep → Result (List ActionStep)
  unfolding routed_steps
  steps_for item none steps = email_steps item steps
  steps_for item (some outbound) steps = do
    found ← planner.draft_frontmatter outbound.case_uid outbound.draft_name
    routed_steps item outbound.action (route_of found) steps

  unfoldable pub filter_reply_to_steps : PushItem → List ActionStep → Result (List ActionStep)
  unfolding steps_for
  filter_reply_to_steps item steps = steps_for item item.planned_outbound steps

  labels_of : PushItem → Option OutboundPush → Result (List String)
  unfolding filter_reply_to_steps step_label
  labels_of item none = ok []
  labels_of item (some outbound) =
      if not (is_nil outbound.steps)
      then ok (map step_label outbound.steps)
      else if is_some item.local_stage
      then ok (map (λ state. state.label) item.step_states)
      else (do
        steps ← filter_reply_to_steps item (planner.configured_outbound_steps outbound.action)
        ok (map step_label steps))

  planned_labels : PushItem → Option MessageActionPush → Result (List String)
  unfolding labels_of
  planned_labels item (some action) = ok (map step_label action.steps)
  planned_labels item none = labels_of item item.planned_outbound

  unfoldable pub actions_for : PushItem → Result (List String)
  unfolding planned_labels
  actions_for item = planned_labels item item.planned_message_action

  reset_unless_started : PushItem → List String → Result PushItem
  unfolding labels_continue has_started_effects
  reset_unless_started item labels =
      if labels_continue (map (λ state. state.label) item.step_states) labels
      then ok item
      else if has_started_effects item
      then err (
          app_error "push_plan_changed_after_start" (
            str_append "push item " (
              str_append item.push_id
                " has recorded remote progress but now resolves to a different plan")))
      else ok (record item { step_states = []; local_stage = none; last_error = none })

  unfoldable pub reset_progress_if_plan_changed : PushItem → Result PushItem
  unfolding reset_unless_started actions_for
  reset_progress_if_plan_changed item =
      if is_nil item.step_states
      then ok item
      else (do labels ← actions_for item; reset_unless_started item labels)
