-- ===== src/Push/Queue.antt =====
-- src/push_queue/mod.rs and io.rs: items enter the queue directory and leave it. The directory is a
-- map from push ids to items, read in the order of the ids.
pub mod Order
pub mod Actions
pub mod Started
mod Tests
use Prim.Native.String.{◌++◌ as str_append}
use agent_first_mail.Prelude.{
  ℕ, ◌+◌, ◌%◌, String, Bool, true, false, not, ◌&&◌, Option, none, some, List, [], ◌∷◌, ltb, ◌==◌,
  str_eq, is_some, if◌then◌else◌, any, find, retain, Map, insert, remove, values, Result, ok, err,
  AppError, app_error,
}
use agent_first_mail.Push.Item.{
  OutboundAction, save_draft, send, MessagePushAction, case_add, notification, spam, trash, unspam,
  untrash, DraftPush, MessagePush, PushPayload, draft, message, PushItem, item_draft, item_message,
  has_started_effects,
}

abbrev is_draft : String → String → Option DraftPush → Bool
is_draft case_uid draft_name none = false
is_draft case_uid draft_name (some d) = str_eq d.case_uid case_uid && str_eq d.draft_name draft_name

abbrev pub is_draft_of : String → String → PushItem → Bool
is_draft_of case_uid draft_name item = is_draft case_uid draft_name (item_draft item)

unfoldable pub find_draft_item : Map PushItem → String → String → Option PushItem
unfolding find
find_draft_item queue case_uid draft_name = find (is_draft_of case_uid draft_name) (values queue)

pub max_seq : List PushItem → ℕ
max_seq [] = 0
max_seq (item ∷ items) =
    let rest = max_seq items in if ltb rest item.enqueue_seq then item.enqueue_seq else rest

-- A 64-bit sum.
unfoldable pub next_enqueue_seq : Map PushItem → ℕ
unfolding max_seq
next_enqueue_seq queue = (max_seq (values queue) + 1) % 18446744073709551616

abbrev pub same_action : OutboundAction → OutboundAction → Bool
same_action save_draft save_draft = true
same_action save_draft send = false
same_action send save_draft = false
same_action send send = true

abbrev was : Option OutboundAction → OutboundAction → Bool
was none action = false
was (some previous) action = same_action previous action

abbrev pub already_started : String → String → AppError
already_started text push_id = app_error "push_already_started" (str_append text push_id)

-- Whether the progress of the item starts anew.
unfoldable pub validate_outbound_requeue :
    Option PushItem → Option OutboundAction → OutboundAction → Result Bool
unfolding has_started_effects
validate_outbound_requeue none previous action = ok false
validate_outbound_requeue (some existing) previous action =
    if has_started_effects existing
    then err (
        already_started "outbound push item already started and cannot be re-queued: "
          existing.push_id)
    else ok (not (was previous action))

abbrev kept_uid_validity : Option DraftPush → Option ℕ
kept_uid_validity none = none
kept_uid_validity (some d) = d.draft_uid_validity

abbrev kept_uid : Option DraftPush → Option ℕ
kept_uid none = none
kept_uid (some d) = d.draft_uid

abbrev draft_payload : String → String → Option DraftPush → PushPayload
draft_payload case_uid draft_name existing = draft (record {
  case_uid = case_uid;
  draft_name = draft_name;
  draft_uid_validity = kept_uid_validity existing;
  draft_uid = kept_uid existing;
})

new_item : String → ℕ → String → PushPayload → PushItem
new_item push_id seq now payload = record {
  push_id = push_id;
  enqueue_seq = seq;
  payload = payload;
  planned_outbound = none;
  planned_outbound_message = none;
  planned_message_action = none;
  planned_message_rfc822 = [];
  created_rfc3339 = now;
  updated_rfc3339 = now;
  attempt_count = 0;
  step_states = [];
  local_stage = none;
  audit_pending = none;
  last_error = none;
}

-- The item of a draft: a new one, or the one that is queued, with its progress or without.
queued_item : Map PushItem → String → String → String → String → Option PushItem → Bool → PushItem
unfolding new_item next_enqueue_seq
queued_item queue new_id now case_uid draft_name none reset =
    new_item new_id (next_enqueue_seq queue) now (draft_payload case_uid draft_name none)
queued_item queue new_id now case_uid draft_name (some existing) reset =
    let fresh =
      new_item existing.push_id existing.enqueue_seq now
        (draft_payload case_uid draft_name (item_draft existing)) in
    if reset then fresh else record fresh {
      created_rfc3339 = existing.created_rfc3339;
      attempt_count = existing.attempt_count;
      step_states = existing.step_states;
      local_stage = existing.local_stage;
      audit_pending = existing.audit_pending;
    }

store_item : Option AppError → PushItem → Map PushItem → Result String × Map PushItem
store_item none item queue = (ok item.push_id, insert item.push_id item queue)
store_item (some e) item queue = (err e, queue)

queue_checked :
    Option AppError
    → Map PushItem
    → String
    → String
    → String
    → String
    → Option PushItem
    → Result Bool
    → Result String × Map PushItem
unfolding store_item queued_item
queue_checked failure queue new_id now case_uid draft_name existing (err e) = (err e, queue)
queue_checked failure queue new_id now case_uid draft_name existing (ok reset) =
    store_item failure (queued_item queue new_id now case_uid draft_name existing reset) queue

-- `failure` is that of the write, and `new_id` the id that `new_draft_push_id` gives.
unfoldable pub queue_outbound :
    Option AppError
    → Map PushItem
    → String
    → String
    → String
    → String
    → Option OutboundAction
    → OutboundAction
    → Result String × Map PushItem
unfolding queue_checked find_draft_item validate_outbound_requeue
queue_outbound failure queue new_id now case_uid draft_name previous action =
    let existing = find_draft_item queue case_uid draft_name in
    queue_checked failure queue new_id now case_uid draft_name existing
      (validate_outbound_requeue existing previous action)

after_delete :
    Option AppError
    → String
    → Map PushItem
    → Result (List String) × Map PushItem
    → Result (List String) × Map PushItem
after_delete (some e) id queue rest = (err e, queue)
after_delete none id queue (ok ids, left) = (ok (id ∷ ids), left)
after_delete none id queue (err e, left) = (err e, left)

-- `delete_item` for each item, with the failure of each removal. What was removed before a failure
-- stays removed.
delete_items :
    (String → Option AppError) → List PushItem → Map PushItem → Result (List String) × Map PushItem
unfolding after_delete
delete_items failure [] queue = (ok [], queue)
delete_items failure (item ∷ items) queue =
    after_delete (failure item.push_id) item.push_id queue
      (delete_items failure items (remove item.push_id queue))

delete_read :
    (String → Option AppError)
    → Map PushItem
    → Option AppError
    → List PushItem
    → Result (List String) × Map PushItem
unfolding delete_items
delete_read failure queue none items = delete_items failure items queue
delete_read failure queue (some e) [] = (ok [], queue)
delete_read failure queue (some e) (item ∷ items) = (err e, queue)

abbrev id_of : Option PushItem → String
id_of none = ""
id_of (some item) = item.push_id

-- Nothing is removed if one of the items has started.
delete_unstarted :
    String
    → (String → Option AppError)
    → Option AppError
    → List PushItem
    → Map PushItem
    → Result (List String) × Map PushItem
unfolding delete_read any find has_started_effects
delete_unstarted text failure unread items queue =
    if any has_started_effects items
    then (err (already_started text (id_of (find has_started_effects items))), queue)
    else delete_read failure queue unread items

-- The ids of the removed items. `unread` is the failure of reading the draft's front matter, which
-- names the action that is reported beside each id.
unfoldable pub remove_outbound_for_draft :
    (String → Option AppError)
    → Option AppError
    → Map PushItem
    → String
    → String
    → Result (List String) × Map PushItem
unfolding delete_unstarted retain
remove_outbound_for_draft failure unread queue case_uid draft_name =
    delete_unstarted "outbound push item already started and cannot be removed locally: " failure
      unread (retain (is_draft_of case_uid draft_name) (values queue)) queue

abbrev pub action_code : MessagePushAction → ℕ
action_code case_add = 0
action_code notification = 1
action_code spam = 2
action_code trash = 3
action_code unspam = 4
action_code untrash = 5

abbrev is_push : String → MessagePushAction → Option MessagePush → Bool
is_push message_id action none = false
is_push message_id action (some m) =
    str_eq m.message_id message_id && action_code m.action == action_code action

abbrev pub is_push_of : String → MessagePushAction → PushItem → Bool
is_push_of message_id action item = is_push message_id action (item_message item)

-- The kind is parsed before.
unfoldable pub remove_pending_message_pushes :
    (String → Option AppError)
    → Map PushItem
    → String
    → MessagePushAction
    → Result (List String) × Map PushItem
unfolding delete_unstarted retain
remove_pending_message_pushes failure queue message_id action =
    delete_unstarted "push item already started and cannot be undone locally: " failure none
      (retain (is_push_of message_id action) (values queue)) queue
