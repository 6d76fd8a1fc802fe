-- ===== src/Push/Item.antt =====
-- src/types/push.rs, with the configured steps of src/config/actions.rs and the receipt of
-- src/senders/mod.rs: a queued push item.
use Prim.Native.String.{◌++◌ as str_append}
use agent_first_mail.Prelude.{
  ℕ, ◌+◌, String, Bool, true, false, not, ◌&&◌, ◌||◌, Option, none, some, List, [], ◌∷◌, ◌==◌,
  is_some, if◌then◌else◌, any, Map,
}
use agent_first_mail.Push.Mail.{Bytes, PreparedOutbound}

pub record SendReceipt : Type 0 where
  pub message_id : String
  pub delivered : List String
  pub queued : List String
  pub permanent_bounces : List String
  pub suppressed_recipients : List String

pub data ActionStepOn : Type 0 where
  reply_to_message : ActionStepOn

pub record ActionStep : Type 0 where
  pub add_flags : List String
  pub move_to_mailbox_id : Option String
  pub append_to_mailbox_id : Option String
  pub smtp_send : Option (Map String)
  pub cloudflare_send : Option (Map String)
  pub file_send : Option (Map String)
  pub on : Option ActionStepOn

abbrev pub is_send : ActionStep → Bool
is_send step = is_some step.smtp_send || is_some step.cloudflare_send || is_some step.file_send

abbrev pub is_nil {ℓ} : {A : Type ℓ} → List A → Bool
is_nil [] = true
is_nil (x ∷ xs) = false

-- src/push_queue/preview.rs
flags_label : Option ActionStepOn → String
flags_label none = "add_flags"
flags_label (some reply_to_message) = "add_flags:ReplyToMessage"

mailbox_label : Option String → Option String → String → String
mailbox_label (some id) append rest = str_append "move_to_mailbox_id_" id
mailbox_label none (some id) rest = str_append "append_to_mailbox_id_" id
mailbox_label none none rest = rest

unfoldable pub step_label : ActionStep → String
unfolding flags_label mailbox_label
step_label step =
    if not (is_nil step.add_flags)
    then flags_label step.on
    else mailbox_label step.move_to_mailbox_id step.append_to_mailbox_id (
        if is_some step.file_send
        then "file_send"
        else if is_some step.smtp_send
        then "smtp_send"
        else if is_some step.cloudflare_send
        then "cloudflare_send"
        else "noop")

pub data PushStepStatus : Type 0 where
  pending succeeded failed remote_outcome_unknown : PushStepStatus

abbrev pub is_pending : PushStepStatus → Bool
is_pending pending = true
is_pending _ = false

abbrev pub is_succeeded : PushStepStatus → Bool
is_succeeded succeeded = true
is_succeeded _ = false

abbrev pub is_unknown : PushStepStatus → Bool
is_unknown remote_outcome_unknown = true
is_unknown _ = false

pub record PushStepState : Type 0 where
  pub index : ℕ
  pub label : String
  pub status : PushStepStatus
  pub started_rfc3339 : Option String
  pub completed_rfc3339 : Option String
  pub result_summary : Option String
  pub send_receipt : Option SendReceipt
  pub error_code : Option String
  pub error : Option String
  pub retryable : Option Bool

-- In the order of `derive(Ord)`.
pub data PushLocalStage : Type 0 where
  remote_succeeded outbound_recorded draft_removed pending_cleared audit_pending : PushLocalStage

abbrev pub stage_rank : PushLocalStage → ℕ
stage_rank remote_succeeded = 0
stage_rank outbound_recorded = 1
stage_rank draft_removed = 2
stage_rank pending_cleared = 3
stage_rank audit_pending = 4

pub record PushAuditPending : Type 0 where
  pub event_id : String
  pub created_rfc3339 : String
  pub push_kind : String
  pub case_uid : Option String
  pub draft_name : Option String
  pub action : Option String
  pub message_ids : List String
  pub succeeded_step_count : ℕ
  pub attempt_count : ℕ
  pub last_error : Option String

pub data OutboundAction : Type 0 where
  save_draft send : OutboundAction

pub data MessagePushAction : Type 0 where
  case_add notification spam trash unspam untrash : MessagePushAction

pub record PushLocation : Type 0 where
  pub message_id : String
  pub mailbox_name : String
  pub uid_validity : ℕ
  pub uid : ℕ

pub record MessageActionPush : Type 0 where
  pub action : MessagePushAction
  pub message_ids : List String
  pub locations : List PushLocation
  pub steps : List ActionStep
  pub reply_to_message_id : Option String

pub record DraftPush : Type 0 where
  pub case_uid : String
  pub draft_name : String
  pub draft_uid_validity : Option ℕ
  pub draft_uid : Option ℕ

pub record MessagePush : Type 0 where
  pub message_id : String
  pub action : MessagePushAction
  pub message_action_snapshot : Option MessageActionPush

pub data PushPayload : Type 0 where
  draft : DraftPush → PushPayload
  message : MessagePush → PushPayload

pub record OutboundPush : Type 0 where
  pub action : OutboundAction
  pub case_uid : String
  pub draft_name : String
  pub draft_uid_validity : Option ℕ
  pub draft_uid : Option ℕ
  pub steps : List ActionStep
  pub reply_to_message_id : Option String

-- `schema_name` and `schema_version` are constants of every item.
pub record PushItem : Type 0 where
  pub push_id : String
  pub enqueue_seq : ℕ
  pub payload : PushPayload
  pub planned_outbound : Option OutboundPush
  pub planned_outbound_message : Option PreparedOutbound
  pub planned_message_action : Option MessageActionPush
  pub planned_message_rfc822 : Map Bytes
  pub created_rfc3339 : String
  pub updated_rfc3339 : String
  -- 64 bits
  pub attempt_count : ℕ
  pub step_states : List PushStepState
  pub local_stage : Option PushLocalStage
  pub audit_pending : Option PushAuditPending
  pub last_error : Option String

-- What serialisation keeps: the plan of an item is computed anew.
abbrev pub stored : PushItem → PushItem
stored item = record item {
  planned_outbound = none;
  planned_outbound_message = none;
  planned_message_action = none;
  planned_message_rfc822 = [];
}

abbrev draft_of : PushPayload → Option DraftPush
draft_of (draft d) = some d
draft_of (message m) = none

abbrev message_of : PushPayload → Option MessagePush
message_of (draft d) = none
message_of (message m) = some m

-- `PushItem::draft` and `PushItem::message`
abbrev pub item_draft : PushItem → Option DraftPush
item_draft item = draft_of item.payload

abbrev pub item_message : PushItem → Option MessagePush
item_message item = message_of item.payload

abbrev payload_ids : PushPayload → List String
payload_ids (draft d) = []
payload_ids (message m) = m.message_id ∷ []

abbrev ids_of : Option MessageActionPush → PushPayload → List String
ids_of none payload = payload_ids payload
ids_of (some action) payload = action.message_ids

unfoldable pub message_ids : PushItem → List String
message_ids item = ids_of item.planned_message_action item.payload

abbrev locations_of : Option MessageActionPush → List PushLocation
locations_of none = []
locations_of (some action) = action.locations

-- `PushItem::locations`
abbrev pub item_locations : PushItem → List PushLocation
item_locations item = locations_of item.planned_message_action

abbrev planned_reply : Option OutboundPush → Option String
planned_reply none = none
planned_reply (some outbound) = outbound.reply_to_message_id

abbrev or_planned : Option String → Option OutboundPush → Option String
or_planned (some id) outbound = some id
or_planned none outbound = planned_reply outbound

abbrev reply_of : Option MessageActionPush → Option OutboundPush → Option String
reply_of none outbound = planned_reply outbound
reply_of (some action) outbound = or_planned action.reply_to_message_id outbound

-- `PushItem::reply_to_message_id`
abbrev pub item_reply_to : PushItem → Option String
item_reply_to item = reply_of item.planned_message_action item.planned_outbound

count_succeeded : ℕ → List PushStepState → ℕ
count_succeeded completed [] = completed
count_succeeded completed (state ∷ states) =
    count_succeeded
      (if state.index == completed && is_succeeded state.status then completed + 1 else completed)
      states

unfoldable pub succeeded_step_count : PushItem → ℕ
unfolding count_succeeded
succeeded_step_count item = count_succeeded 0 item.step_states

abbrev pub has_started : PushStepState → Bool
has_started state =
    not (is_pending state.status)
    || is_some state.started_rfc3339
    || is_some state.completed_rfc3339

unfoldable pub has_started_steps : PushItem → Bool
unfolding any
has_started_steps item = any has_started item.step_states

unfoldable pub has_started_effects : PushItem → Bool
unfolding has_started_steps
has_started_effects item =
    has_started_steps item || is_some item.local_stage || is_some item.audit_pending
