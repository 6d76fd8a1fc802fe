-- ===== src/Push/Queue/Actions/Loop.antt =====
-- src/push_queue/mod.rs: the loop over the messages of an action.
use agent_first_mail.Prelude.{
  ℕ, String, ◌≡◌, refl, true, Bool-cases, Option, none, some, List, [], ◌∷◌, Map, lookup, Result,
  ok, err, AppError, inl, inr, ◌||◌,
}
use agent_first_mail.Push.Item.{
  ActionStep, is_nil, PushItem, PushLocation, MessagePushAction, has_started_effects,
}
use agent_first_mail.Push.Build.{Disk, or_failed}
use agent_first_mail.Push.Planning.{from_kind}
use agent_first_mail.Push.Queue.Actions.{
  find_message_item, ensure_unchanged, ActionRequest, store_action, queue_message, queue_messages,
  queue_action_steps, queue_as, has_location, first_of,
}
use agent_first_mail.Push.Queue.Actions.Kept.{
  IsNamed, Kept, Kept-refl, Kept-trans, started-Kept, Leaves, stored-Leaves,
}

module _ (failure : ℕ → Option AppError) (now : String) (request : ActionRequest) where
  failed-Leaves :
      (o : Option AppError) (k : String) (item : PushItem) (queue : Map PushItem) (d : Disk)
      → Leaves k item queue
      → Leaves k item d.queue
      → Leaves k item (or_failed failure o queue d).1.queue
  failed-Leaves none k item queue d a b = a
  failed-Leaves (some e) k item queue d a b = b

  module _ (k : String) where
    stored_action-Leaves :
        (id : String) (item : PushItem) (d : Disk) (r : Result (Unit {0}))
        → IsNamed d.queue
        → lookup k d.queue ≡ some item
        → has_started_effects item ≡ true
        → ensure_unchanged request.action (find_message_item d.queue id) ≡ r
        → Leaves k item
            (store_action failure now request id (find_message_item d.queue id) r d).1.queue
    unfolding store_action
    stored_action-Leaves id item d (err e) n h s c = record {
      named = n;
      after = item;
      there = h;
      kept = Kept-refl item;
    }
    stored_action-Leaves id item d (ok checked) n h s c =
        failed-Leaves (failure d.tick) k item _ d
          (stored-Leaves now request d.queue k id item n h s c)
          (record { named = n; after = item; there = h; kept = Kept-refl item })

    message-Leaves :
        (id : String) (item : PushItem) (d : Disk)
        → IsNamed d.queue
        → lookup k d.queue ≡ some item
        → has_started_effects item ≡ true
        → Leaves k item (queue_message failure now request id d).1.queue
    unfolding queue_message
    message-Leaves id item d n h s = elim (Bool-cases (has_location request.locations id)) [
      | inl placed ↦ rw placed (stored_action-Leaves id item d _ n h s refl)
      | inr absent ↦
          rw absent (record { named = n; after = item; there = h; kept = Kept-refl item })
    ]

    chosen_queue :
        (item : PushItem) (r : Result (Option PushItem)) (d : Disk)
        (rest : Result (Option PushItem) × Disk)
        → Leaves k item d.queue
        → Leaves k item rest.1.queue
        → Leaves k item
            (elim r as (λ x. Result (Option PushItem) × Disk) [
              | ok first ↦ (first_of failure now request first rest.0, rest.1)
              | err e ↦ (err e, d)
            ]).1.queue
    chosen_queue item (ok first) d rest a b = b
    chosen_queue item (err e) d rest a b = a

    messages-Leaves :
        (ids : List String) (item : PushItem) (d : Disk)
        → IsNamed d.queue
        → lookup k d.queue ≡ some item
        → has_started_effects item ≡ true
        → Leaves k item (queue_messages failure now request ids d).1.queue
    unfolding queue_messages
    messages-Leaves [] item d n h s = record {
      named = n;
      after = item;
      there = h;
      kept = Kept-refl item;
    }
    messages-Leaves (id ∷ ids) item d n h s =
        let (r, d') = queue_message failure now request id d in
        let one = message-Leaves id item d n h s in
        let rest =
          messages-Leaves ids one.after d' one.named one.there
            (started-Kept item one.after one.kept s) in
        chosen_queue item r d' (queue_messages failure now request ids d') one (record {
          named = rest.named;
          after = rest.after;
          there = rest.there;
          kept = Kept-trans item one.after rest.after one.kept rest.kept;
        })

queue_as-Kept :
    (failure : ℕ → Option AppError) (now kind : String) (ids : List String)
    (request : MessagePushAction → ActionRequest) (locations : List PushLocation)
    (o : Option MessagePushAction) (d : Disk) (k : String) (item : PushItem)
    → IsNamed d.queue
    → lookup k d.queue ≡ some item
    → has_started_effects item ≡ true
    → (after : PushItem) × (lookup k (queue_as failure now kind ids request locations o d).1.queue
        ≡ some after)
      × Kept item after
unfolding queue_as
queue_as-Kept failure now kind ids request locations none d k item n h s = (item, h, Kept-refl item)
queue_as-Kept failure now kind ids request locations (some action) d k item n h s =
    let left = messages-Leaves failure now (request action) k ids item d n h s in
    elim (Bool-cases (is_nil locations)) [
      | inl empty ↦ rw empty (item, h, Kept-refl item)
      | inr full ↦ rw full (left.after, left.there, left.kept)
    ]

-- In a directory where the file of a message's push is named for the message, and no other is, an item
-- whose effects have started keeps its id, payload, number, step states, local stage, audit event,
-- attempts and time of creation, whatever action is queued, for whichever messages, failed writes
-- included.
pub queue_action_steps-Kept :
    (failure : ℕ → Option AppError) (now kind : String) (message_ids : List String)
    (locations : List PushLocation) (steps : List ActionStep) (reply_to_message_id : Option String)
    (d : Disk) (k : String) (item : PushItem)
    → IsNamed d.queue
    → lookup k d.queue ≡ some item
    → has_started_effects item ≡ true
    → (after : PushItem) × (lookup k
          (queue_action_steps failure now kind message_ids locations steps reply_to_message_id
            d).1.queue
        ≡ some after)
      × Kept item after
unfolding queue_action_steps
queue_action_steps-Kept failure now kind message_ids locations steps reply_to_message_id d k item n
      h s =
    elim (Bool-cases (is_nil message_ids || is_nil steps)) [
      | inl empty ↦ rw empty (item, h, Kept-refl item)
      | inr full ↦
          rw full
            (queue_as-Kept failure now kind message_ids _ locations (from_kind kind) d k item n h s)
    ]
