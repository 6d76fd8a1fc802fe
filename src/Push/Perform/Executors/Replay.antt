-- ===== src/Push/Perform/Executors/Replay.antt =====
-- src/push_queue/execute.rs: the loop never runs the executors on a closed step.
use agent_first_mail.Prelude.{ℕ, String, ◌≡◌, refl, none, some, List, AppError, if◌then◌else◌}
use agent_first_mail.Push.Item.{ActionStep, PushItem, SendReceipt}
use agent_first_mail.Push.Steps.{ensure_step_states}
use agent_first_mail.Push.Steps.Marks.{tests_at-update}
use agent_first_mail.Push.Session.{Session, Exec, Host, raise}
use agent_first_mail.Push.Execute.{Collaborators, execute_tracked_steps}
use agent_first_mail.Push.Execute.Frame.{Keeps}
use agent_first_mail.Push.Execute.Blocked.{
  is_closed, SameElsewhere, SameElsewhere-IsFrame, SameElsewhere-Marks, execute_skips_closed,
}
use agent_first_mail.Push.Perform.{Services, Effects}
use agent_first_mail.Push.Perform.Executors.{execute_message_step, execute_outbound_step}
use agent_first_mail.Push.Perform.Executors.Own.{
  received, Own-execute_message_step, Own-execute_outbound_step,
}

-- The executor that fails with `e` on a step that is closed in `item`.
abbrev pub only_open :
    {R : Type 0}
    → AppError
    → PushItem
    → (ℕ → ActionStep → Exec R (Unit {0}))
    → ℕ
    → ActionStep
    → Exec R (Unit {0})
only_open e item execute index step =
    if is_closed step index item then raise e else execute index step

module _ {R : Type 0} (host : Host) (c : Collaborators R) (services : Services R)
    (effects : Effects R) where
  pub executors_own :
      (index : ℕ) (step : ActionStep)
      → Keeps (SameElsewhere index) (execute_message_step host services effects index step)
        × Keeps (SameElsewhere index) (execute_outbound_step host services effects index step)
  executors_own index step =
      let frame = SameElsewhere-IsFrame index in
      let lost = λ (x : PushItem) (t : String). (SameElsewhere-Marks index step).lost x none t in
      let got : (x : PushItem) (receipt : SendReceipt)
          → SameElsewhere index x (received index receipt x) =
        λ x receipt other j n.
          tests_at-update other index j (λ found. record found { send_receipt = some receipt }) x n
            (λ st. refl) in
      (
        Own-execute_message_step (SameElsewhere index) frame host services effects index step lost
            got,
        Own-execute_outbound_step (SameElsewhere index) frame host services effects index step lost
            got,
      )

  only_open_same :
      (ex : ℕ → ActionStep → Exec R (Unit {0}))
      → ((index : ℕ) (step : ActionStep) → Keeps (SameElsewhere index) (ex index step))
      → (e : AppError) (steps : List ActionStep) (s : Session R)
      → execute_tracked_steps host c ex steps s
        ≡ execute_tracked_steps host c (only_open e (ensure_step_states s.item steps) ex) steps s
  only_open_same ex own e steps s =
      execute_skips_closed host c ex (only_open e (ensure_step_states s.item steps) ex) steps s
        (λ index step t opened. rw opened) own

  -- The run of a message item, and that of an outbound item, never execute a step that is closed in
  -- the item as the run finds it, with the missing states added: with an executor that fails on those
  -- steps, whatever the error, the run is the same.
  pub executors_skip_closed :
      (e : AppError) (steps : List ActionStep) (s : Session R)
      → (execute_tracked_steps host c (execute_message_step host services effects) steps s
          ≡ execute_tracked_steps host c
              (only_open e
                (ensure_step_states s.item steps)
                (execute_message_step host services effects))
              steps
              s)
        × (execute_tracked_steps host c (execute_outbound_step host services effects) steps s
            ≡ execute_tracked_steps host c
                (only_open e
                  (ensure_step_states s.item steps)
                  (execute_outbound_step host services effects))
                steps
                s)
  executors_skip_closed e steps s = (
    only_open_same (execute_message_step host services effects)
        (λ index step. (executors_own index step).0) e steps s,
    only_open_same (execute_outbound_step host services effects)
        (λ index step. (executors_own index step).1) e steps s,
  )
