-- ===== src/Push/Queue/Tests.antt =====
-- src/push_queue/mod.rs and io.rs: a queue with one started draft.
use agent_first_mail.Prelude.{
  ◌<◌, String, ◌≡◌, refl, true, Option, none, some, [], ◌∷◌, arith, Map, lookup, err, AppError,
}
use agent_first_mail.Push.Item.{
  OutboundAction, send, save_draft, MessagePushAction, PushItem, has_started_effects,
}
use agent_first_mail.Push.Samples.{draft_item}
use agent_first_mail.Push.Queue.{
  next_enqueue_seq, already_started, max_seq, queue_outbound, remove_outbound_for_draft,
  remove_pending_message_pushes,
}
use agent_first_mail.Push.Queue.Order.{next_enqueue_seq_last}
use agent_first_mail.Push.Queue.Started.{IsDirectory, started_kept}

abbrev queue : Map PushItem
queue = ("push_2", draft_item) ∷ []

queue-IsDirectory : IsDirectory queue
unfolding IsDirectory lookup
queue-IsDirectory = (refl, refl, tt)

there : lookup "push_2" queue ≡ some draft_item
unfolding lookup
there = refl

draft_item_started : has_started_effects draft_item ≡ true
unfolding has_started_effects
draft_item_started = refl

-- A started draft is not queued again.
requeue_refused :
    (queue_outbound none queue "push_9" "now" "c1" "reply.md" (some save_draft) send).0
    ≡ err (already_started "outbound push item already started and cannot be re-queued: " "push_2")
unfolding queue_outbound
requeue_refused = refl

next_enqueue_seq_last_example : 4 < next_enqueue_seq queue
next_enqueue_seq_last_example =
    next_enqueue_seq_last queue "push_2" draft_item (unfold max_seq in omega arith) there

started_kept_example :
    ((failure : Option AppError) (now case_uid draft_name : String)
        (previous : Option OutboundAction) (action : OutboundAction)
      → lookup "push_2"
          (queue_outbound failure queue "push_9" now case_uid draft_name previous action).1
        ≡ some draft_item)
    × ((failure : String → Option AppError) (unread : Option AppError)
          (case_uid draft_name : String)
        → lookup "push_2" (remove_outbound_for_draft failure unread queue case_uid draft_name).1
          ≡ some draft_item)
    × ((failure : String → Option AppError) (message_id : String) (action : MessagePushAction)
        → lookup "push_2" (remove_pending_message_pushes failure queue message_id action).1
          ≡ some draft_item)
started_kept_example =
    started_kept queue queue-IsDirectory "push_2" draft_item there draft_item_started "push_9"
      (unfold lookup in refl)
