-- ===== src/Push/Queue/Actions/Guard.antt =====
-- src/push_queue/mod.rs: what the guard before a message action promises for the queue.
use mathlib.Core.Path.{subst}
use agent_first_mail.Prelude.{
  ℕ, suc, String, ◌≡◌, refl, ◌∙◌, ap, sym, true, false, Bool-cases, Option, none, some, List, [],
  ◌∷◌, All, Map, insert, lookup-insert, Result, ok, err, AppError, inl, inr, arith, str_eq,
}
use agent_first_mail.Push.Item.{
  ActionStep, is_nil, PushItem, PushLocation, MessagePushAction, stored,
}
use agent_first_mail.Push.Planning.{from_kind}
use agent_first_mail.Push.Build.{Disk}
use agent_first_mail.Push.Queue.Actions.{
  find_message_item, message_push_id, action_changed, ensure_unchanged, then_check, can_queue_all,
  can_queue_as, ensure_message_action_can_queue, ActionRequest, action_item, new_action_item,
  store_action, queue_message, queue_messages, queue_as, queue_action_steps, has_location,
  request_of, first_of,
}
use agent_first_mail.Push.Queue.Actions.Kept.{
  IsNamed, IsNamed-insert, find-lookup, action_item_id, action_item-Own,
}

-- The guard of one message lets the action pass.
abbrev Passes : Map PushItem → MessagePushAction → String → Type 0
Passes queue action id = ensure_unchanged action (find_message_item queue id) ≡ ok tt

then_both : (a b : Result (Unit {0})) → then_check a b ≡ ok tt → (a ≡ ok tt) × (b ≡ ok tt)
then_both (ok checked) b h = (refl, h)
then_both (err e) b h = absurd (cc)

each_checked :
    (queue : Map PushItem) (action : MessagePushAction) (ids : List String)
    → can_queue_all queue action ids ≡ ok tt
    → All (Passes queue action) ids
unfolding can_queue_all
each_checked queue action [] h = tt
each_checked queue action (id ∷ ids) h =
    let (a, b) = then_both (ensure_unchanged action (find_message_item queue id)) _ h in
    (a, each_checked queue action ids b)

module _ (now : String) (request : ActionRequest) (queue : Map PushItem) (id : String) where
  item_unchanged :
      (o : Option PushItem)
      → action_changed request.action (some (stored (action_item request now queue id o))) ≡ false
  unfolding action_item new_action_item
  item_unchanged none = ground arith
  item_unchanged (some existing) =
      elim (Bool-cases (action_changed request.action (some existing))) [
        | inl changed ↦ rw changed (ground arith)
        | inr same ↦ rw same (ground arith)
      ]

  item_passes :
      (o : Option PushItem)
      → ensure_unchanged request.action (some (stored (action_item request now queue id o))) ≡ ok tt
  unfolding ensure_unchanged
  item_passes o = rw (item_unchanged o) refl

  abbrev item : PushItem
  item = action_item request now queue id (find_message_item queue id)

  abbrev later : Map PushItem
  later = insert item.push_id (stored item) queue

  module _ (n : IsNamed queue) where
    later-IsNamed : IsNamed later
    later-IsNamed =
        let named = action_item_id request now queue id (find_message_item queue id) in
        subst (λ j. IsNamed (insert j (stored item) queue)) (sym named)
          (IsNamed-insert (message_push_id id) (stored item) queue
            (action_item-Own request now queue id (find_message_item queue id)) named n)

    later-Passes :
        (other : String) → Passes queue request.action other → Passes later request.action other
    later-Passes other h =
        let found = find-lookup later other later-IsNamed in
        elim (Bool-cases (str_eq item.push_id (message_push_id other))) [
          | inl same ↦
              ap (ensure_unchanged request.action) (found ∙ rw lookup-insert (rw same refl))
              ∙ item_passes (find_message_item queue id)
          | inr differs ↦
              ap (ensure_unchanged request.action)
                (found ∙ rw lookup-insert (rw differs (sym (find-lookup queue other n))))
              ∙ h
        ]

    later-All :
        (others : List String)
        → All (Passes queue request.action) others
        → All (Passes later request.action) others
    later-All [] h = tt
    later-All (other ∷ others) h = (later-Passes other h.0, later-All others h.1)

-- No write fails.
abbrev pub calm : ℕ → Option AppError
calm tick = none

pub record Succeeds {A : Type 0} (r : Result A) : Type 0 where
  pub value : A
  pub result : r ≡ ok value

first-Succeeds :
    (now : String) (request : ActionRequest) (first : Option PushItem)
    (r : Result (Option PushItem))
    → Succeeds r
    → Succeeds (first_of calm now request first r)
first-Succeeds now request none r h = h
first-Succeeds now request (some item) (ok later) h = record { value = some item; result = refl }
first-Succeeds now request (some item) (err e) h = absurd (let g = h.result in cc)

module _ (now : String) (request : ActionRequest) where
  placed_message :
      (id : String) (d : Disk)
      → has_location request.locations id ≡ true
      → Passes d.queue request.action id
      → queue_message calm now request id d ≡ (
        ok (some (item now request d.queue id)),
        record { queue = later now request d.queue id; tick = suc d.tick },
      )
  unfolding queue_message store_action
  placed_message id d placed h = rw (placed, h) refl

  absent_message :
      (id : String) (d : Disk)
      → has_location request.locations id ≡ false
      → queue_message calm now request id d ≡ (ok none, d)
  unfolding queue_message
  absent_message id d absent = rw absent refl

  messages_after :
      (ids : List String) (id : String) (d d' : Disk) (first : Option PushItem)
      → queue_message calm now request id d ≡ (ok first, d')
      → Succeeds (queue_messages calm now request ids d').0
      → Succeeds (queue_messages calm now request (id ∷ ids) d).0
  unfolding queue_messages
  messages_after ids id d d' first e h =
      subst
        (λ (x : Result (Option PushItem) × Disk).
          Succeeds
            (elim x.0 as (λ y. Result (Option PushItem) × Disk) [
              | ok found ↦ (
                first_of calm now request found (queue_messages calm now request ids x.1).0,
                (queue_messages calm now request ids x.1).1,
              )
              | err g ↦ (err g, x.1)
            ]).0)
        (sym e) (first-Succeeds now request first (queue_messages calm now request ids d').0 h)

  messages-Succeeds :
      (ids : List String) (d : Disk)
      → IsNamed d.queue
      → All (Passes d.queue request.action) ids
      → Succeeds (queue_messages calm now request ids d).0
  unfolding queue_messages
  messages-Succeeds [] d n h = record { value = none; result = refl }
  messages-Succeeds (id ∷ ids) d n h = elim (Bool-cases (has_location request.locations id)) [
    | inl placed ↦ messages_after ids id d _ _ (placed_message id d placed h.0) (
        messages-Succeeds ids (record { queue = later now request d.queue id; tick = suc d.tick })
          (later-IsNamed now request d.queue id n) (later-All now request d.queue id n ids h.1))
    | inr absent ↦
        messages_after ids id d d none (absent_message id d absent) (messages-Succeeds ids d n h.1)
  ]

queue_as-Succeeds :
    (now kind : String) (ids : List String) (locations : List PushLocation)
    (steps : List ActionStep) (reply_to : Option String) (o : Option MessagePushAction)
    (action : MessagePushAction) (d : Disk)
    → IsNamed d.queue
    → o ≡ some action
    → can_queue_as d.queue o ids ≡ ok tt
    → Succeeds
        (queue_as calm now kind ids (λ a. request_of a locations steps reply_to) locations o d).0
unfolding queue_as
queue_as-Succeeds now kind ids locations steps reply_to none action d n e h = absurd (cc)
queue_as-Succeeds now kind ids locations steps reply_to (some a) action d n e h =
    elim (Bool-cases (is_nil locations)) [
      | inl empty ↦ rw empty (record { value = none; result = refl })
      | inr full ↦ rw full (
          messages-Succeeds now (request_of a locations steps reply_to) ids d n
            (each_checked d.queue a ids h))
    ]

-- In a directory where the file of a message's push is named for the message, and no other is, when the
-- guard lets an action of a known kind pass, queueing it succeeds unless a write fails.
pub queue_action_steps-Succeeds :
    (now kind : String) (ids : List String) (locations : List PushLocation)
    (steps : List ActionStep) (reply_to : Option String) (action : MessagePushAction) (d : Disk)
    → IsNamed d.queue
    → from_kind kind ≡ some action
    → ensure_message_action_can_queue d.queue kind ids steps ≡ ok tt
    → Succeeds (queue_action_steps calm now kind ids locations steps reply_to d).0
unfolding queue_action_steps ensure_message_action_can_queue
queue_action_steps-Succeeds now kind ids locations steps reply_to action d n e h =
    elim (Bool-cases (is_nil steps)) [
      | inl empty ↦ elim (Bool-cases (is_nil ids)) [
        | inl no_ids ↦ rw (empty, no_ids) (record { value = none; result = refl })
        | inr some_ids ↦ rw (empty, some_ids) (record { value = none; result = refl })
      ]
      | inr full ↦ elim (Bool-cases (is_nil ids)) [
        | inl no_ids ↦ rw (full, no_ids) (record { value = none; result = refl })
        | inr some_ids ↦
            rw (full, some_ids)
              (queue_as-Succeeds now kind ids locations steps reply_to (from_kind kind) action d n e
                (rw full at h))
      ]
    ]
