-- ===== src/Push/Queue/Actions/Tests.antt =====
-- src/push_queue/mod.rs: a message whose move to the junk folder was tried, and one that is new.
use agent_first_mail.Prelude.{
  String, ◌≡◌, refl, true, none, some, [], ◌∷◌, List, lookup, insert, ok,
}
use agent_first_mail.Push.Item.{spam, PushItem, PushLocation, has_started_effects, message}
use agent_first_mail.Push.Build.{Disk}
use agent_first_mail.Push.Build.Samples.{junk, tried, move_step}
use agent_first_mail.Push.Planning.{from_kind}
use agent_first_mail.Push.Queue.Actions.{
  message_push_id, ensure_message_action_can_queue, queue_action_steps, find_message_item,
}
use agent_first_mail.Push.Queue.Actions.Kept.{Own, IsNamed, Kept}
use agent_first_mail.Push.Queue.Actions.Loop.{queue_action_steps-Kept}
use agent_first_mail.Push.Queue.Actions.Guard.{calm, Succeeds, queue_action_steps-Succeeds}

abbrev moved : PushItem
moved = record junk { step_states = tried ∷ [] }

abbrev disk : Disk
disk = record { queue = ("push_message_m1", moved) ∷ []; tick = 0 }

abbrev place_of : String → PushLocation
place_of id = record { message_id = id; mailbox_name = "INBOX"; uid_validity = 7; uid = 3 }

abbrev places : List PushLocation
places = place_of "m1" ∷ place_of "m2" ∷ []

disk-IsNamed : IsNamed disk.queue
unfolding IsNamed Own message_push_id
disk-IsNamed = (refl, refl, tt)

there : lookup "push_message_m1" disk.queue ≡ some moved
unfolding lookup
there = refl

moved_started : has_started_effects moved ≡ true
unfolding has_started_effects
moved_started = refl

-- The new message gets an item of its own, with the next number.
second_queued :
    lookup "push_message_m2"
      (queue_action_steps calm "now" "message.spam"
        ("m1" ∷ "m2" ∷ [])
        places
        (move_step ∷ [])
        none
        disk).1.queue
    ≡ some (record moved {
      push_id = "push_message_m2";
      enqueue_seq = 2;
      payload =
          message (record { message_id = "m2"; action = spam; message_action_snapshot = none });
      created_rfc3339 = "now";
      updated_rfc3339 = "now";
      step_states = [];
    })
unfolding queue_action_steps message_push_id lookup insert find_message_item
second_queued = refl

-- Another action is refused.
trash_refused :
    (queue_action_steps calm "now" "trash" ("m1" ∷ []) places (move_step ∷ []) none disk).1 ≡ disk
unfolding queue_action_steps find_message_item
trash_refused = refl

queue_action_steps-Kept_example :
    (after : PushItem) × (lookup "push_message_m1"
        (queue_action_steps calm "now" "spam"
          ("m1" ∷ "m2" ∷ [])
          places
          (move_step ∷ [])
          none
          disk).1.queue
      ≡ some after)
    × Kept moved after
queue_action_steps-Kept_example =
    queue_action_steps-Kept calm "now" "spam" ("m1" ∷ "m2" ∷ []) places (move_step ∷ []) none disk
      "push_message_m1" moved disk-IsNamed there moved_started

spam_known : from_kind "spam" ≡ some spam
unfolding from_kind
spam_known = refl

spam_passes :
    ensure_message_action_can_queue disk.queue "spam" ("m1" ∷ "m2" ∷ []) (move_step ∷ []) ≡ ok tt
unfolding ensure_message_action_can_queue
spam_passes = refl

queue_action_steps-Succeeds_example :
    Succeeds
      (queue_action_steps calm "now" "spam" ("m1" ∷ "m2" ∷ []) places (move_step ∷ []) none disk).0
queue_action_steps-Succeeds_example =
    queue_action_steps-Succeeds "now" "spam" ("m1" ∷ "m2" ∷ []) places (move_step ∷ []) none spam
      disk disk-IsNamed spam_known spam_passes
