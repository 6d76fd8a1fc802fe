-- ===== src/Push/Execute/Complete.antt =====
-- src/push_queue/execute.rs: a run of the loop that succeeds leaves every step succeeded.
use agent_first_mail.Prelude.{
  ℕ, ◌+◌, ◌≤◌, ◌<◌, ◌==◌, ◌≡◌, ◌≢◌, refl, ◌∙◌, ap, true, List, [], ◌∷◌, arith, length, Result, ok,
  err, Bool-cases, inl, inr,
}
use agent_first_mail.Push.Item.{ActionStep, PushItem}
use agent_first_mail.Push.Steps.{step_succeeded}
use agent_first_mail.Push.Steps.Ensure.{ensure_step_states_complete}
use agent_first_mail.Push.Steps.Marks.{Tests, tests_at}
use agent_first_mail.Push.Session.{Session, Exec, Host, continue}
use agent_first_mail.Push.Execute.{Collaborators, run_step, run_steps, execute_tracked_steps}
use agent_first_mail.Push.Execute.Frame.{Keeps, IsFrame, Keeps-run_step, Keeps-done, Keeps-bind}
use agent_first_mail.Push.Execute.Blocked.{
  SameElsewhere, SameElsewhere-IsFrame, SameElsewhere-Marks,
}
use agent_first_mail.Push.Execute.Present.{SamePresence, Present, run_step-Present}
use agent_first_mail.Push.Execute.Achieve.{run_step-Achieves}

abbrev SameDone : ℕ → PushItem → PushItem → Type 0
SameDone j x y = step_succeeded y j ≡ step_succeeded x j

SameDone-IsFrame : (j : ℕ) → IsFrame (SameDone j)
unfolding step_succeeded
SameDone-IsFrame j = record {
  same = λ x. refl;
  trans = λ x y z p q. q ∙ p;
  touch = λ x time e. refl;
}

SameElsewhere-SameDone :
    (step : ActionStep) (index j : ℕ) (x y : PushItem)
    → index ≢ j
    → SameElsewhere index x y
    → SameDone j x y
unfolding tests_at
SameElsewhere-SameDone step index j x y n h = ap (λ (t : Tests). t.done) (h step j n)

abbrev AllDone : ℕ → List ActionStep → PushItem → Type 0
AllDone index steps x = (j : ℕ) → index ≤ j → j < index + length steps → step_succeeded x j ≡ true

module _ {R : Type 0} (host : Host) (c : Collaborators R) (ex : ℕ → ActionStep → Exec R (Unit {0}))
    (own : (i : ℕ) (step : ActionStep) → Keeps (SameElsewhere i) (ex i step))
    (present : (j i : ℕ) (step : ActionStep) → Keeps (SamePresence j) (ex i step)) where
  run_step-SameDone :
      (j index : ℕ) (step : ActionStep)
      → index ≢ j
      → Keeps (SameDone j) (run_step host c ex index step)
  run_step-SameDone j index step n = record {
    at = λ s. SameElsewhere-SameDone step index j s.item _ n (
        (Keeps-run_step (SameElsewhere index) (SameElsewhere-IsFrame index) host c index step
            (SameElsewhere-Marks index step) ex (own index step)).at
          s);
  }

  run_steps-SameDone :
      (j index : ℕ) (steps : List ActionStep)
      → j < index
      → Keeps (SameDone j) (run_steps host c ex index steps)
  unfolding run_steps
  run_steps-SameDone j index [] lt = Keeps-done (SameDone j) (SameDone-IsFrame j)
  run_steps-SameDone j index (step ∷ steps) lt =
      Keeps-bind (SameDone j) (SameDone-IsFrame j) (run_step host c ex index step) _
        (run_step-SameDone j index step (omega arith))
        λ a. run_steps-SameDone j (index + 1) steps (omega arith)

  -- The rest of the loop after a step with the result `r`.
  rest_complete :
      (index : ℕ) (step : ActionStep) (steps : List ActionStep) (r : Result (Unit {0}))
      (t : Session R)
      → (r ≡ ok tt → step_succeeded t.item index ≡ true)
      → ((run_steps host c ex (index + 1) steps t).0 ≡ ok tt
          → AllDone (index + 1) steps (run_steps host c ex (index + 1) steps t).1.item)
      → (continue r (λ _. run_steps host c ex (index + 1) steps) t).0 ≡ ok tt
      → AllDone index
          (step ∷ steps)
          (continue r (λ _. run_steps host c ex (index + 1) steps) t).1.item
  rest_complete index step steps (err x) t first later e j le lt = absurd (cc)
  rest_complete index step steps (ok a) t first later e j le lt = elim (Bool-cases (index == j)) [
    | inl here ↦
        (run_steps-SameDone j (index + 1) steps (ground (arith, here))).at t
        ∙ ap (step_succeeded t.item) (ground (arith, here))
        ∙ first refl
    | inr other ↦ later e j (ground (arith, other, le)) (ground (arith, lt))
  ]

  run_steps_complete :
      (index : ℕ) (steps : List ActionStep) (s : Session R)
      → Present index steps s.item
      → (run_steps host c ex index steps s).0 ≡ ok tt
      → AllDone index steps (run_steps host c ex index steps s).1.item
  unfolding run_steps
  run_steps_complete index [] s h e j le lt = absurd (omega (arith, le, lt))
  run_steps_complete index (step ∷ steps) s h e i low high =
      let (r, t) = run_step host c ex index step s in
      rest_complete index step steps r t
        (λ g.
          (run_step-Achieves index host c step ex (present index index step)).at s
            (h index (omega arith) (ground arith)) g)
        (λ g.
          run_steps_complete (index + 1) steps t
            (λ j le lt.
              (run_step-Present host c ex present index step j).at s
              ∙ h j (omega (arith, le)) (ground (arith, lt)))
            g)
        e i low high

  pub execute_complete :
      (steps : List ActionStep) (s : Session R)
      → (execute_tracked_steps host c ex steps s).0 ≡ ok tt
      → (j : ℕ) → j < length steps
      → step_succeeded (execute_tracked_steps host c ex steps s).1.item j ≡ true
  unfolding execute_tracked_steps
  execute_complete steps s e j lt =
      run_steps_complete 0 steps _
        (λ i le l. ensure_step_states_complete s.item steps i (omega (arith, l))) e j (omega arith)
        (omega (arith, lt))
