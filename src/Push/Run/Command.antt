-- ===== src/Push/Run/Command.antt =====
-- src/push_queue/mod.rs: push_with_progress, the command that offers the plan of the queue or, given
-- the id of the plan, runs it. What the command tells of its progress is left out.
use agent_first_mail.Prelude.{
  String, ◌≡◌, refl, Bool-cases, Option, none, some, List, [], ◌∷◌, Map, Result, ok, err, inl, inr,
  ◌⊎◌, str_eq, eq_iff, arith,
}
use agent_first_mail.Push.Item.{PushItem, OutboundPush}
use agent_first_mail.Push.Session.{Session, Exec, continue, ◌>>=◌, ◌>>◌}
use agent_first_mail.Push.Perform.{lift}
use agent_first_mail.Push.Build.{
  ResolvedPushPlan, build_push_plan, require_matching_push_plan, reconcile_push_plan,
}
use agent_first_mail.Push.Run.{Parts, require_compiled_send_features}
use agent_first_mail.Push.Run.Loop.{Tally, push_items}

pub data CommandResult : Type 0 where
  preview : ResolvedPushPlan → CommandResult
  confirmed : String → List String → Tally → CommandResult

module _ {R : Type 0} (p : Parts R) where
  abbrev compiled_outbound : Option OutboundPush → Result (Unit {0}) → Result (Unit {0})
  compiled_outbound none rest = rest
  compiled_outbound (some outbound) rest =
      elim (require_compiled_send_features p.around.compiled outbound.steps) [
        | ok finished ↦ rest
        | err e ↦ err e
      ]

  pub compiled_items : List PushItem → Result (Unit {0})
  unfolding require_compiled_send_features
  compiled_items [] = ok tt
  compiled_items (item ∷ items) = compiled_outbound item.planned_outbound (compiled_items items)

  reconcile : ResolvedPushPlan → Exec R (List String)
  unfolding reconcile_push_plan
  reconcile plan s =
      let (r, disk) =
        reconcile_push_plan p.host.write_error plan (record { queue = s.queue; tick = s.tick }) in
      (r, record s { queue = disk.queue; tick = disk.tick })

  run_plan : ResolvedPushPlan → List String → Exec R CommandResult
  unfolding push_items
  run_plan plan removed s =
      let (t, s') = push_items p plan.items s in (ok (confirmed plan.plan_id removed t), s')

  offer_or_run : Option String → ResolvedPushPlan → Exec R CommandResult
  unfolding require_matching_push_plan reconcile run_plan
  offer_or_run none plan s = (ok (preview plan), s)
  offer_or_run (some confirmed_plan_id) plan s =
      (do
        lift (require_matching_push_plan plan confirmed_plan_id)
        removed ← reconcile plan
        run_plan plan removed)
        s

  -- `plan_id` is the digest, as it is in `build_push_plan`.
  unfoldable pub push_with_progress :
      (Map PushItem → List PushItem → List PushItem → Result String)
      → Option String
      → Exec R CommandResult
  unfolding build_push_plan compiled_items offer_or_run
  push_with_progress plan_id confirm_plan_id = do
    plan ← λ s. (build_push_plan (p.around.planner s.remote) plan_id s.queue, s)
    lift (compiled_items plan.items)
    offer_or_run confirm_plan_id plan

  -- The id that was confirmed is that of the plan, and the build has the features that it needs.
  pub record Agreed (plan_id : Map PushItem → List PushItem → List PushItem → Result String)
      (confirm_plan_id : Option String) (s : Session R) : Type 0 where
    pub plan : ResolvedPushPlan
    pub built : build_push_plan (p.around.planner s.remote) plan_id s.queue ≡ ok plan
    pub compiled : compiled_items plan.items ≡ ok tt
    pub confirm : confirm_plan_id ≡ some plan.plan_id

  offered :
      (confirm : Option String) (plan : ResolvedPushPlan) (s : Session R)
      → ((offer_or_run confirm plan s).1 ≡ s) ⊎ (confirm ≡ some plan.plan_id)
  unfolding offer_or_run require_matching_push_plan
  offered none plan s = inl refl
  offered (some id) plan s = elim (Bool-cases (str_eq id plan.plan_id)) [
    | inl same ↦ inr (ground (arith, eq_iff id plan.plan_id, same))
    | inr differs ↦ rw differs (inl refl)
  ]

  module _ (plan_id : Map PushItem → List PushItem → List PushItem → Result String)
      (confirm_plan_id : Option String) (s : Session R) where
    features_checked :
        (plan : ResolvedPushPlan) (r : Result (Unit {0}))
        → build_push_plan (p.around.planner s.remote) plan_id s.queue ≡ ok plan
        → compiled_items plan.items ≡ r
        → ((continue r (λ u. offer_or_run confirm_plan_id plan) s).1 ≡ s)
          ⊎ Agreed plan_id confirm_plan_id s
    features_checked plan (err e) b c = inl refl
    features_checked plan (ok u) b c = elim (offered confirm_plan_id plan s) [
      | inl same ↦ inl same
      | inr id ↦ inr (record { plan = plan; built = b; compiled = c; confirm = id })
    ]

    plan_checked :
        (r : Result ResolvedPushPlan)
        → build_push_plan (p.around.planner s.remote) plan_id s.queue ≡ r
        → ((continue r
              (λ plan. lift (compiled_items plan.items) >>= λ u. offer_or_run confirm_plan_id plan)
              s).1
            ≡ s)
          ⊎ Agreed plan_id confirm_plan_id s
    plan_checked (err e) b = inl refl
    plan_checked (ok plan) b = features_checked plan (compiled_items plan.items) b refl

  -- The command leaves the session as it is, unless the id of the plan of the queue is confirmed and
  -- the build has the features of its steps.
  pub push_with_progress-Agreed :
      (plan_id : Map PushItem → List PushItem → List PushItem → Result String)
      (confirm_plan_id : Option String) (s : Session R)
      → ((push_with_progress plan_id confirm_plan_id s).1 ≡ s) ⊎ Agreed plan_id confirm_plan_id s
  unfolding push_with_progress
  push_with_progress-Agreed plan_id confirm_plan_id s =
      plan_checked plan_id confirm_plan_id s
        (build_push_plan (p.around.planner s.remote) plan_id s.queue) refl
