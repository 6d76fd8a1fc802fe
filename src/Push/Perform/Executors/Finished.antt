-- ===== src/Push/Perform/Executors/Finished.antt =====
-- src/push_queue/execute.rs: what the success of a run with the executors says of the steps.
use agent_first_mail.Prelude.{ℕ, ◌<◌, ◌≡◌, true, List, length, ok}
use agent_first_mail.Push.Item.{ActionStep}
use agent_first_mail.Push.Steps.{step_succeeded}
use agent_first_mail.Push.Session.{Session, Host}
use agent_first_mail.Push.Execute.{Collaborators, execute_tracked_steps}
use agent_first_mail.Push.Execute.Frame.{Keeps}
use agent_first_mail.Push.Execute.Present.{SamePresence, SamePresence-IsFrame}
use agent_first_mail.Push.Execute.Complete.{execute_complete}
use agent_first_mail.Push.Perform.{Services, Effects}
use agent_first_mail.Push.Perform.Executors.{execute_message_step, execute_outbound_step}
use agent_first_mail.Push.Perform.Executors.Own.{
  lost-SamePresence, got-SamePresence, Own-execute_message_step, Own-execute_outbound_step,
}
use agent_first_mail.Push.Perform.Executors.Replay.{executors_own}

module _ {R : Type 0} (host : Host) (c : Collaborators R) (services : Services R)
    (effects : Effects R) where
  executors_present :
      (j index : ℕ) (step : ActionStep)
      → Keeps (SamePresence j) (execute_message_step host services effects index step)
        × Keeps (SamePresence j) (execute_outbound_step host services effects index step)
  executors_present j index step =
      let frame = SamePresence-IsFrame j in
      let lost = lost-SamePresence j index step in
      let got = got-SamePresence j index in
      (
        Own-execute_message_step (SamePresence j) frame host services effects index step lost got,
        Own-execute_outbound_step (SamePresence j) frame host services effects index step lost got,
      )

  -- When the run of a message item succeeds, each of its steps has succeeded, whatever the item
  -- recorded before.
  pub message_complete :
      (steps : List ActionStep) (s : Session R)
      → (execute_tracked_steps host c (execute_message_step host services effects) steps s).0
        ≡ ok tt
      → (j : ℕ) → j < length steps
      → step_succeeded
          (execute_tracked_steps host c (execute_message_step host services effects) steps s).1.item
          j
        ≡ true
  message_complete =
      execute_complete host c (execute_message_step host services effects)
        (λ i step. (executors_own host c services effects i step).0)
        (λ j i step. (executors_present j i step).0)

  -- When the run of an outbound item succeeds, each of its steps has succeeded, whatever the item
  -- recorded before.
  pub outbound_complete :
      (steps : List ActionStep) (s : Session R)
      → (execute_tracked_steps host c (execute_outbound_step host services effects) steps s).0
        ≡ ok tt
      → (j : ℕ) → j < length steps
      → step_succeeded
          (execute_tracked_steps host c
            (execute_outbound_step host services effects)
            steps
            s).1.item
          j
        ≡ true
  outbound_complete =
      execute_complete host c (execute_outbound_step host services effects)
        (λ i step. (executors_own host c services effects i step).1)
        (λ j i step. (executors_present j i step).1)
