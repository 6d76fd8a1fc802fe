-- ===== src/Push/Queue/Actions.antt =====
-- src/push_queue/mod.rs: a message action enters the queue, one item for each message.
pub mod Kept
pub mod Loop
pub mod Guard
mod Tests
use Prim.Native.String.{◌++◌ as str_append}
use agent_first_mail.Prelude.{
  ℕ, suc, String, Bool, true, false, not, ◌||◌, Option, none, some, List, [], ◌∷◌, ◌==◌, str_eq,
  is_some, if◌then◌else◌, any, find, retain, Map, insert, values, Result, ok, err, AppError,
  app_error,
}
use agent_first_mail.Push.Item.{
  ActionStep, is_nil, MessagePushAction, PushLocation, MessageActionPush, MessagePush, PushPayload,
  message, PushItem, item_message, has_started_effects, stored,
}
use agent_first_mail.Push.Queue.{action_code, next_enqueue_seq, already_started}
use agent_first_mail.Push.Planning.{from_kind, kind_of}
use agent_first_mail.Push.Build.{Disk, or_failed, write_to}

abbrev of_message : String → Option MessagePush → Bool
of_message message_id none = false
of_message message_id (some m) = str_eq m.message_id message_id

abbrev pub is_for_message : String → PushItem → Bool
is_for_message message_id item = of_message message_id (item_message item)

unfoldable pub find_message_item : Map PushItem → String → Option PushItem
unfolding find
find_message_item queue message_id = find (is_for_message message_id) (values queue)

unfoldable pub message_push_id : String → String
message_push_id message_id = str_append "push_message_" message_id

abbrev other_action : MessagePushAction → Option MessagePush → Bool
other_action action none = false
other_action action (some m) = not (action_code m.action == action_code action)

abbrev pub action_changed : MessagePushAction → Option PushItem → Bool
action_changed action none = false
action_changed action (some existing) = other_action action (item_message existing)

abbrev kind_or_unknown : Option MessagePush → String
kind_or_unknown none = "unknown"
kind_or_unknown (some m) = kind_of m.action

ensure_started_action_unchanged : PushItem → MessagePushAction → Result (Unit {0})
unfolding kind_of has_started_effects
ensure_started_action_unchanged existing action =
    if has_started_effects existing
    then err (
        already_started
          (str_append "message push item already started and cannot change action from " (
            str_append (kind_or_unknown (item_message existing))
              (str_append " to " (str_append (kind_of action) ": "))))
          existing.push_id)
    else ok tt

-- The guard of a queued item: another action may not replace one that has started.
pub ensure_unchanged : MessagePushAction → Option PushItem → Result (Unit {0})
unfolding ensure_started_action_unchanged
ensure_unchanged action none = ok tt
ensure_unchanged action (some existing) =
    if action_changed action (some existing)
    then ensure_started_action_unchanged existing action
    else ok tt

abbrev then_check : Result (Unit {0}) → Result (Unit {0}) → Result (Unit {0})
then_check (ok checked) rest = rest
then_check (err e) rest = err e

can_queue_all : Map PushItem → MessagePushAction → List String → Result (Unit {0})
unfolding ensure_unchanged find_message_item
can_queue_all queue action [] = ok tt
can_queue_all queue action (message_id ∷ message_ids) =
    then_check (ensure_unchanged action (find_message_item queue message_id))
      (can_queue_all queue action message_ids)

abbrev can_queue_as : Map PushItem → Option MessagePushAction → List String → Result (Unit {0})
can_queue_as queue none message_ids = ok tt
can_queue_as queue (some action) message_ids = can_queue_all queue action message_ids

unfoldable pub ensure_message_action_can_queue :
    Map PushItem → String → List String → List ActionStep → Result (Unit {0})
unfolding can_queue_all from_kind
ensure_message_action_can_queue queue kind message_ids steps =
    if is_nil steps then ok tt else can_queue_as queue (from_kind kind) message_ids

abbrev snapshot_of : Option MessagePush → Option MessageActionPush
snapshot_of none = none
snapshot_of (some m) = m.message_action_snapshot

-- What the caller asks for.
pub record ActionRequest : Type 0 where
  pub action : MessagePushAction
  pub locations : List PushLocation
  pub steps : List ActionStep
  pub reply_to_message_id : Option String

abbrev payload_of : ActionRequest → String → Option MessageActionPush → PushPayload
payload_of request message_id snapshot = message (record {
  message_id = message_id;
  action = request.action;
  message_action_snapshot = snapshot;
})

new_action_item : ActionRequest → String → String → ℕ → PushItem
unfolding retain message_push_id
new_action_item request now message_id seq = record {
  push_id = message_push_id message_id;
  enqueue_seq = seq;
  payload = payload_of request message_id none;
  planned_outbound = none;
  planned_outbound_message = none;
  planned_message_action = some (record {
    action = request.action;
    message_ids = message_id ∷ [];
    locations =
        retain (λ (location : PushLocation). str_eq location.message_id message_id)
          request.locations;
    steps = request.steps;
    reply_to_message_id = request.reply_to_message_id;
  });
  planned_message_rfc822 = [];
  created_rfc3339 = now;
  updated_rfc3339 = now;
  attempt_count = 0;
  step_states = [];
  local_stage = none;
  audit_pending = none;
  last_error = none;
}

-- The item of a message: a new one, or the one that is queued, which keeps its progress unless the
-- action is another.
pub action_item : ActionRequest → String → Map PushItem → String → Option PushItem → PushItem
unfolding new_action_item next_enqueue_seq
action_item request now queue message_id none =
    new_action_item request now message_id (next_enqueue_seq queue)
action_item request now queue message_id (some existing) =
    let fresh = new_action_item request now message_id existing.enqueue_seq in
    if action_changed request.action (some existing) then fresh else record fresh {
      payload = payload_of request message_id (snapshot_of (item_message existing));
      created_rfc3339 = existing.created_rfc3339;
      attempt_count = existing.attempt_count;
      step_states = existing.step_states;
      local_stage = existing.local_stage;
      audit_pending = existing.audit_pending;
      last_error = existing.last_error;
    }

abbrev has_location : List PushLocation → String → Bool
has_location locations message_id =
    any (λ (location : PushLocation). str_eq location.message_id message_id) locations

module _ (failure : ℕ → Option AppError) (now : String) (request : ActionRequest) where
  store_action :
      String → Option PushItem → Result (Unit {0}) → Disk → Result (Option PushItem) × Disk
  unfolding action_item insert
  store_action message_id existing (err e) d = (err e, d)
  store_action message_id existing (ok checked) d =
      let item = action_item request now d.queue message_id existing in
      let (r, d') = write_to failure item d in
      (elim r [ ok written ↦ ok (some item) | err e ↦ err e ], d')

  -- One round of the loop. A message without a place is passed over.
  queue_message : String → Disk → Result (Option PushItem) × Disk
  unfolding any find_message_item ensure_unchanged store_action
  queue_message message_id d =
      if has_location request.locations message_id
      then store_action message_id (find_message_item d.queue message_id)
          (ensure_unchanged request.action (find_message_item d.queue message_id)) d
      else (ok none, d)

  abbrev pub first_of : Option PushItem → Result (Option PushItem) → Result (Option PushItem)
  first_of none rest = rest
  first_of (some item) (ok later) = ok (some item)
  first_of (some item) (err e) = err e

  queue_messages : List String → Disk → Result (Option PushItem) × Disk
  unfolding queue_message
  queue_messages [] d = (ok none, d)
  queue_messages (message_id ∷ message_ids) d =
      let (r, d') = queue_message message_id d in
      let (rest, last) = queue_messages message_ids d' in
      elim r [ ok item ↦ (first_of item rest, last) | err e ↦ (err e, d') ]

abbrev request_of :
    MessagePushAction → List PushLocation → List ActionStep → Option String → ActionRequest
request_of action locations steps reply_to_message_id = record {
  action = action;
  locations = locations;
  steps = steps;
  reply_to_message_id = reply_to_message_id;
}

queue_as :
    (ℕ → Option AppError)
    → String
    → String
    → List String
    → (MessagePushAction → ActionRequest)
    → List PushLocation
    → Option MessagePushAction
    → Disk
    → Result (Option PushItem) × Disk
unfolding queue_messages
queue_as failure now kind message_ids request locations none d = (
  err (app_error "push_item_invalid" (str_append "unsupported message push action kind: " kind)),
  d,
)
queue_as failure now kind message_ids request locations (some action) d =
    if is_nil locations
    then (ok none, d)
    else queue_messages failure now (request action) message_ids d

-- The first item that is queued. The clock is read once.
unfoldable pub queue_action_steps :
    (ℕ → Option AppError)
    → String
    → String
    → List String
    → List PushLocation
    → List ActionStep
    → Option String
    → Disk
    → Result (Option PushItem) × Disk
unfolding from_kind queue_as
queue_action_steps failure now kind message_ids locations steps reply_to_message_id d =
    if is_nil message_ids || is_nil steps
    then (ok none, d)
    else queue_as failure now kind message_ids
        (λ action. request_of action locations steps reply_to_message_id) locations (from_kind kind)
        d
