-- ===== src/Push/Build.antt =====
-- src/push_queue/plan.rs: the plan of a run over the queue, and what a confirmation of it does before
-- the first item. `sorted_items` is of src/push_queue/io.rs.
pub mod Faithful
mod Tests
pub mod Samples
use agent_first_mail.Prelude.{
  ℕ, suc, String, Bool, true, false, not, ◌&&◌, ◌||◌, Option, none, some, List, [], ◌∷◌, ltb, ◌==◌,
  str_eq, str_lt, if◌then◌else◌, Map, insert, remove, values, Result, ok, err, ◌>>=◌, AppError,
  app_error, with_calls, map,
}
use agent_first_mail.Push.Item.{PushItem, stored}
use agent_first_mail.Push.Plan.{order_items_for_dependencies}
use agent_first_mail.Push.Labels.{Planner}
use agent_first_mail.Push.Planning.{plan_item}

-- By the sequence number, and the push id within it. The sort is stable.
abbrev pub item_le : PushItem → PushItem → Bool
item_le a b =
    ltb a.enqueue_seq b.enqueue_seq
    || (a.enqueue_seq == b.enqueue_seq && not (str_lt b.push_id a.push_id))

insert_item : PushItem → List PushItem → List PushItem
insert_item item [] = item ∷ []
insert_item item (other ∷ items) =
    let rest = insert_item item items in
    if item_le item other then item ∷ other ∷ items else other ∷ rest

sort_items : List PushItem → List PushItem
unfolding insert_item
sort_items [] = []
sort_items (item ∷ items) = insert_item item (sort_items items)

unfoldable pub sorted_items : Map PushItem → List PushItem
unfolding sort_items
sorted_items queue = sort_items (values queue)

-- The items that the run works on, and those that are removed from the queue first.
pub record ResolvedPushPlan : Type 0 where
  pub plan_id : String
  pub items : List PushItem
  pub skipped_items : List PushItem

pub record Resolved : Type 0 where
  pub planned : List PushItem
  pub skipped : List PushItem

abbrev with_item : Bool × PushItem → Resolved → Resolved
with_item (true, item) rest = record rest { planned = item ∷ rest.planned }
with_item (false, item) rest = record rest { skipped = item ∷ rest.skipped }

module _ (planner : Planner) where
  unfoldable pub plan_items : List PushItem → Result Resolved
  unfolding plan_item
  plan_items [] = ok (record { planned = []; skipped = [] })
  plan_items (item ∷ items) = do
    planned ← plan_item planner item
    rest ← plan_items items
    ok (with_item planned rest)

  -- `plan_id` is the digest of the queue, of the resolved items and of the configuration.
  unfoldable pub build_push_plan :
      (Map PushItem → List PushItem → List PushItem → Result String)
      → Map PushItem
      → Result ResolvedPushPlan
  unfolding plan_items sorted_items order_items_for_dependencies
  build_push_plan plan_id queue = do
    resolved ← plan_items (sorted_items queue)
    let items = order_items_for_dependencies resolved.planned
    id ← plan_id queue items resolved.skipped
    ok (record { plan_id = id; items = items; skipped_items = resolved.skipped })

unfoldable pub require_matching_push_plan : ResolvedPushPlan → String → Result (Unit {0})
require_matching_push_plan plan confirmed_plan_id =
    if str_eq confirmed_plan_id plan.plan_id
    then ok tt
    else err (
        with_calls false (
          app_error "push_plan_changed"
            "the confirmed push plan does not match the current resolved queue"))

-- The queue directory, with the count of its events and their failures.
pub record Disk : Type 0 where
  pub queue : Map PushItem
  pub tick : ℕ

module _ (failure : ℕ → Option AppError) where
  abbrev pub or_failed : Option AppError → Map PushItem → Disk → Result (Unit {0}) × Disk
  or_failed none queue d = (ok tt, record { queue = queue; tick = suc d.tick })
  or_failed (some e) queue d = (err e, record d { tick = suc d.tick })

  abbrev pub write_to : PushItem → Disk → Result (Unit {0}) × Disk
  write_to item d = or_failed (failure d.tick) (insert item.push_id (stored item) d.queue) d

  abbrev delete_from : PushItem → Disk → Result (Unit {0}) × Disk
  delete_from item d = or_failed (failure d.tick) (remove item.push_id d.queue) d

  abbrev then_go :
      Result (Unit {0}) → (Disk → Result (Unit {0}) × Disk) → Disk → Result (Unit {0}) × Disk
  then_go (ok done) next d = next d
  then_go (err e) next d = (err e, d)

  for_each :
      (PushItem → Disk → Result (Unit {0}) × Disk) → List PushItem → Disk → Result (Unit {0}) × Disk
  for_each act [] d = (ok tt, d)
  for_each act (item ∷ items) d = let (r, d') = act item d in then_go r (for_each act items) d'

  -- The planned items are written, and then the skipped ones are deleted.
  -- The ids of those are the answer.
  abbrev removed_ids : List PushItem → Result (Unit {0}) → Result (List String)
  removed_ids items (ok done) = ok (map (λ item. item.push_id) items)
  removed_ids items (err e) = err e

  unfoldable pub reconcile_push_plan : ResolvedPushPlan → Disk → Result (List String) × Disk
  unfolding for_each insert remove
  reconcile_push_plan plan d =
      let (r, d') = for_each write_to plan.items d in
      let (removed, left) = then_go r (for_each delete_from plan.skipped_items) d' in
      (removed_ids plan.skipped_items removed, left)
