-- ===== src/Push/Build/Tests.antt =====
-- src/push_queue/plan.rs: the plan of a queue with a reply to a message that is moved away.
use mathlib.Core.List.{Perm}
use agent_first_mail.Prelude.{
  ℕ, String, ◌≡◌, refl, none, some, List, [], ◌∷◌, map, values, All, inl, inr, OnOk, Result, ok,
  err, retain,
}
use agent_first_mail.Push.Item.{step_label, send, PushPayload, PushItem, PushStepState}
use agent_first_mail.Push.Plan.{is_free, item_must_run_before, order_items_for_dependencies}
use agent_first_mail.Push.Plan.Order.{Respects, order_items_lem}
use agent_first_mail.Push.Planning.{plan_item}
use agent_first_mail.Push.Planning.Derived.{Unplanned, Derived}
use agent_first_mail.Push.Planning.Progress.{plan_item-Derived}
use agent_first_mail.Push.Build.{ResolvedPushPlan, build_push_plan}
use agent_first_mail.Push.Build.Faithful.{Faithful, build_push_plan-Faithful}
use agent_first_mail.Push.Build.Samples.{
  file_of, smtp_step, junk, reply, files, junk_plan, planner, digest,
}

abbrev planned_ids : Result ResolvedPushPlan → Result (List String × List String)
planned_ids (ok plan) =
    ok (map (λ item. item.push_id) plan.items, map (λ item. item.push_id) plan.skipped_items)
planned_ids (err e) = err e

reply_first :
    planned_ids (build_push_plan planner digest files)
    ≡ ok ("push_draft_a" ∷ "push_message_m1" ∷ [], "push_message_m2" ∷ [])
unfolding build_push_plan step_label
reply_first = refl

-- A file has no plan.
file-Unplanned :
    (id : String) (seq : ℕ) (payload : PushPayload) (states : List PushStepState)
    → Unplanned (file_of id seq payload states)
file-Unplanned id seq payload states = record { no_outbound = refl; no_action = refl }

files-Unplanned : All Unplanned (values files)
files-Unplanned = (file-Unplanned _ _ _ _, (file-Unplanned _ _ _ _, (file-Unplanned _ _ _ _, tt)))

build_push_plan-Faithful_example : OnOk (Faithful files) (build_push_plan planner digest files)
build_push_plan-Faithful_example = build_push_plan-Faithful planner digest files files-Unplanned

plan_item-Derived_example : OnOk (Derived reply) (plan_item planner reply)
plan_item-Derived_example = plan_item-Derived planner reply

abbrev planned_junk : PushItem
planned_junk = record junk { planned_message_action = some junk_plan }

abbrev planned_reply : PushItem
planned_reply = record reply {
  planned_outbound = some (record {
    action = send;
    case_uid = "c1";
    draft_name = "reply.md";
    draft_uid_validity = none;
    draft_uid = none;
    steps = smtp_step ∷ [];
    reply_to_message_id = some "m1";
  });
}

order_items_lem_example :
    Perm
      (order_items_for_dependencies (planned_junk ∷ planned_reply ∷ []))
      (planned_junk ∷ planned_reply ∷ [])
    × Respects item_must_run_before
        (order_items_for_dependencies (planned_junk ∷ planned_reply ∷ []))
    × (retain
          (is_free item_must_run_before (planned_junk ∷ planned_reply ∷ []))
          (order_items_for_dependencies (planned_junk ∷ planned_reply ∷ []))
        ≡ retain
            (is_free item_must_run_before (planned_junk ∷ planned_reply ∷ []))
            (planned_junk ∷ planned_reply ∷ []))
order_items_lem_example =
    order_items_lem (planned_junk ∷ planned_reply ∷ []) (inl refl, (inr refl, tt))
