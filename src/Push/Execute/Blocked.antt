-- ===== src/Push/Execute/Blocked.antt =====
-- src/push_queue/execute.rs: a step that has succeeded, or whose outcome is unknown, is never
-- executed again.
use agent_first_mail.Prelude.{
  ℕ, ◌+◌, ◌≤◌, ◌≡◌, ◌≢◌, refl, ◌∙◌, sym, ap, Bool, true, false, ◌&&◌, ◌||◌, not, List, [], ◌∷◌,
  arith, Result, ok, err, Bool-cases, inl, inr, fun_ext,
}
use agent_first_mail.Push.Item.{ActionStep, PushItem}
use agent_first_mail.Push.Steps.{
  ensure_step_states, step_succeeded, step_remote_outcome_unknown,
  legacy_move_message_id_preflight_failed,
}
use agent_first_mail.Push.Steps.Marks.{
  Tests, tests_at, tests_at-mark_step_pending, tests_at-mark_step_succeeded,
  tests_at-mark_step_failed, tests_at-mark_step_unknown,
}
use agent_first_mail.Push.Session.{Session, Exec, Host, continue}
use agent_first_mail.Push.Execute.{
  Collaborators, resume_legacy, attempt_step, recover_or_attempt, run_step, run_steps,
  execute_tracked_steps,
}
use agent_first_mail.Push.Execute.Frame.{Keeps, IsFrame, Marks, Keeps-run_step}
use agent_first_mail.Push.Execute.Durable.{Executor}

-- The step is done, or its outcome is unknown and not of the one legacy error that proves that
-- nothing was moved.
unfoldable pub is_closed : ActionStep → ℕ → PushItem → Bool
is_closed step index item =
    step_succeeded item index
    || (step_remote_outcome_unknown item index
        && not (legacy_move_message_id_preflight_failed item index step))

-- What the loop can see of every step but one is the same in two items.
abbrev pub SameElsewhere : ℕ → PushItem → PushItem → Type 0
SameElsewhere index x y =
    (other : ActionStep) (j : ℕ) → index ≢ j → tests_at other j y ≡ tests_at other j x

pub SameElsewhere-IsFrame : (index : ℕ) → IsFrame (SameElsewhere index)
unfolding tests_at
SameElsewhere-IsFrame index = record {
  same = λ x other j n. refl;
  trans = λ x y z p q other j n. q other j n ∙ p other j n;
  touch = λ x time e other j n. refl;
}

pub SameElsewhere-Marks : (index : ℕ) (step : ActionStep) → Marks (SameElsewhere index) index step
SameElsewhere-Marks index step = record {
  pended = λ x t u other j n. tests_at-mark_step_pending other index j n step x t u;
  succeeded = λ x t other j n. tests_at-mark_step_succeeded other index j n step x t;
  failed = λ x e t other j n. tests_at-mark_step_failed other index j n step x e t;
  lost = λ x e t other j n. tests_at-mark_step_unknown other index j n step x e t;
}

is_closed-tests :
    (step : ActionStep) (j : ℕ) (x y : PushItem)
    → tests_at step j y ≡ tests_at step j x
    → is_closed step j y ≡ is_closed step j x
unfolding is_closed tests_at
is_closed-tests step j x y e = ap (λ (t : Tests). t.done || (t.unknown && not t.legacy)) e

module _ {R : Type 0} (host : Host) (c : Collaborators R) (ex ex' : Executor host c) where
  run_step-same :
      (index : ℕ) (step : ActionStep) (s : Session R)
      → ((t : Session R) → ex index step t ≡ ex' index step t)
      → run_step host c ex index step s ≡ run_step host c ex' index step s
  unfolding run_step recover_or_attempt attempt_step
  run_step-same index step s h =
      ap (λ (m : Exec R (Unit {0})). run_step host c (λ i other. m) index step s) (fun_ext h)

  run_step-closed :
      (index : ℕ) (step : ActionStep) (s : Session R)
      → is_closed step index s.item ≡ true
      → run_step host c ex index step s ≡ run_step host c ex' index step s
  unfolding run_step recover_or_attempt resume_legacy is_closed
  run_step-closed index step s e = elim (Bool-cases (step_succeeded s.item index)) [
    | inl finished ↦ rw finished
    | inr pending ↦
        let unknown : step_remote_outcome_unknown s.item index ≡ true = ground arith in
        let legacy : legacy_move_message_id_preflight_failed s.item index step ≡ false =
          ground arith in
        rw (pending, unknown, legacy) (rw unknown)
  ]

  -- From `index` on, the loop sees in an item what it saw in the first one.
  abbrev AsBefore : PushItem → ℕ → PushItem → Type 0
  AsBefore first index item =
      (other : ActionStep) (j : ℕ) → index ≤ j → tests_at other j item ≡ tests_at other j first

  module _ (first : PushItem)
      (agree : (index : ℕ) (step : ActionStep) (t : Session R)
        → is_closed step index first ≡ false
        → ex index step t ≡ ex' index step t)
      (frame : (index : ℕ) (step : ActionStep) → Keeps (SameElsewhere index) (ex index step)) where
    run_step-skips :
        (index : ℕ) (step : ActionStep) (s : Session R)
        → tests_at step index s.item ≡ tests_at step index first
        → run_step host c ex index step s ≡ run_step host c ex' index step s
    run_step-skips index step s e = elim (Bool-cases (is_closed step index first)) [
      | inl closed ↦
          run_step-closed index step s (is_closed-tests step index first s.item e ∙ closed)
      | inr still ↦ run_step-same index step s (λ t. agree index step t still)
    ]

    AsBefore-run_step :
        (index : ℕ) (step : ActionStep) (s : Session R)
        → AsBefore first index s.item
        → AsBefore first (index + 1) (run_step host c ex index step s).1.item
    AsBefore-run_step index step s h other j le =
        (Keeps-run_step (SameElsewhere index) (SameElsewhere-IsFrame index) host c index step
            (SameElsewhere-Marks index step) ex (frame index step)).at
          s other j (omega arith)
        ∙ h other j (omega arith)

    next-skips :
        (index : ℕ) (steps : List ActionStep) (r : Result (Unit {0})) (s : Session R)
        → (run_steps host c ex index steps s ≡ run_steps host c ex' index steps s)
        → continue r (λ _. run_steps host c ex index steps) s
          ≡ continue r (λ _. run_steps host c ex' index steps) s
    next-skips index steps (ok done) s h = h
    next-skips index steps (err e) s h = refl

    run_steps-skips :
        (index : ℕ) (steps : List ActionStep) (s : Session R)
        → AsBefore first index s.item
        → run_steps host c ex index steps s ≡ run_steps host c ex' index steps s
    unfolding run_steps
    run_steps-skips index [] s h = refl
    run_steps-skips index (step ∷ steps) s h =
        rw (sym (run_step-skips index step s (h step index (omega arith)))) (
          let after = AsBefore-run_step index step s h in
          let (r, s') = run_step host c ex index step s in
          next-skips (index + 1) steps r s' (run_steps-skips (index + 1) steps s' after))

  -- Let two executors agree on every step that is open in the item as the run finds it, with the
  -- missing states added: a step that has not succeeded, and whose outcome is not unknown, or
  -- unknown only by the one legacy error. Let the first of them leave the states of other steps
  -- alone. Then the run is the same with either, whatever they do to the closed steps: those are
  -- never executed.
  pub execute_skips_closed :
      (steps : List ActionStep) (s : Session R)
      → ((index : ℕ) (step : ActionStep) (t : Session R)
          → is_closed step index (ensure_step_states s.item steps) ≡ false
          → ex index step t ≡ ex' index step t)
      → ((index : ℕ) (step : ActionStep) → Keeps (SameElsewhere index) (ex index step))
      → execute_tracked_steps host c ex steps s ≡ execute_tracked_steps host c ex' steps s
  unfolding execute_tracked_steps
  execute_skips_closed steps s agree frame =
      run_steps-skips (ensure_step_states s.item steps) agree frame 0 steps _ λ other j le. refl
