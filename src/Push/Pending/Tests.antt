-- ===== src/Push/Pending/Tests.antt =====
-- src/store/push_state.rs: a push that is recorded, fails and is cleared, on computed values.
use agent_first_mail.Prelude.{
  String, ◌≡◌, refl, none, some, Option, List, [], ◌∷◌, str_eq, if◌then◌else◌, map, AppError,
}
use agent_first_mail.Push.Item.{PushItem, MessageActionPush, trash, message_ids}
use agent_first_mail.Push.Samples.{draft_item}
use agent_first_mail.Push.Pending.{
  WorkspacePendingPush, Store, state_or_default, record_pending_push_item, clear_pending_push_item,
}
use agent_first_mail.Push.Pending.Waits.{Waiting, pending-Waiting}

abbrev trash_action : MessageActionPush
trash_action = record {
  action = trash;
  message_ids = "m1" ∷ "m2" ∷ [];
  locations = [];
  steps = [];
  reply_to_message_id = none;
}

abbrev trash_item : PushItem
trash_item = record draft_item { planned_message_action = some trash_action }

abbrev earlier_push : WorkspacePendingPush
earlier_push = record {
  push_id = "push_1";
  kind = "message.spam";
  queued_rfc3339 = "t0";
  last_error = none;
}

abbrev later_push : WorkspacePendingPush
later_push = record earlier_push { push_id = "push_3" }

-- The message m1 waits for two pushes.
abbrev two_pending : Store
two_pending message_id =
    if str_eq "m1" message_id
    then some (record { pending = earlier_push ∷ later_push ∷ []; last_completed_rfc3339 = none })
    else none

abbrev writable : String → Option AppError
writable message_id = none

abbrev kind_of_item : PushItem → String
kind_of_item item = "message.trash"

abbrev pending_ids : Store → String → List String
pending_ids store message_id =
    map (λ (p : WorkspacePendingPush). p.push_id) (state_or_default (store message_id)).pending

recorded_in_order :
    pending_ids (record_pending_push_item kind_of_item writable trash_item two_pending).1 "m1"
    ≡ "push_1" ∷ "push_2" ∷ "push_3" ∷ []
unfolding record_pending_push_item message_ids
recorded_in_order = refl

cleared_message :
    (clear_pending_push_item "t9" writable trash_item two_pending).1 "m1"
    ≡ some (record { pending = earlier_push ∷ later_push ∷ []; last_completed_rfc3339 = none })
unfolding clear_pending_push_item message_ids
cleared_message = refl

-- A message without pushes is taken to have completed one.
cleared_empty_message :
    (clear_pending_push_item "t9" writable trash_item two_pending).1 "m2"
    ≡ some (record { pending = []; last_completed_rfc3339 = some "t9" })
unfolding clear_pending_push_item message_ids
cleared_empty_message = refl

pending-Waiting_example :
    Waiting kind_of_item writable none "t9" "refused" trash_item two_pending "push_2" "m1"
unfolding message_ids
pending-Waiting_example =
    pending-Waiting kind_of_item writable none "t9" "refused" trash_item two_pending "push_2" "m1"
      (refl, (refl, tt))
