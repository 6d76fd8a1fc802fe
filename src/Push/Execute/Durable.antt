-- ===== src/Push/Execute/Durable.antt =====
-- src/push_queue/execute.rs: a step is executed only once it is on disk as started.
use agent_first_mail.Prelude.{
  ℕ, suc, ◌+◌, arith, any, ◌∙◌, String, ◌≡◌, ◌⊎◌, refl, true, Option, none, some, List, [], ◌∷◌,
  is_some, find, lookup, insert, lookup-insert, Result, ok, err, AppError, eq_refl,
}
use agent_first_mail.Push.Item.{
  ActionStep, pending, PushStepState, MessagePush, message, PushItem, stored,
}
use agent_first_mail.Push.Steps.{has_index, pend, mark_step_pending}
use agent_first_mail.Push.Steps.Marks.{frozen-mark_step_pending}
use agent_first_mail.Push.Steps.Ensure.{ensure_step_states_complete}
use agent_first_mail.Push.Execute.Frame.{Keeps}
use agent_first_mail.Push.Execute.Present.{
  SamePresence, find-changed, Present, run_step-Present, resume_legacy-Present,
}
use agent_first_mail.Push.Session.{Session, Exec, Host, continue, written, write_item}
use agent_first_mail.Push.Execute.{
  Collaborators, resume_legacy, settle_outcome, attempt_step, recover_or_attempt, run_step,
  run_steps, execute_tracked_steps,
}

-- What holds of a session in which step `index` is executed: the queue directory has the item as it
-- is, which has a state of the step, pending with a start time and no old diagnostic, and a message
-- item with a plan has its plan frozen.
pub record IsRecorded {R : Type 0} (index : ℕ) (t : Session R) : Type 0 where
  pub on_disk : lookup t.item.push_id t.queue ≡ some (stored t.item)
  pub started :
      (state : PushStepState) × (find (has_index index) t.item.step_states ≡ some state)
      × (state.status ≡ pending)
      × (is_some state.started_rfc3339 ≡ true)
      × (state.error_code ≡ none)
  pub frozen :
      (m : MessagePush)
      → t.item.payload ≡ message m
      → (is_some m.message_action_snapshot ≡ true) ⊎ (t.item.planned_message_action ≡ none)

IsRecorded-written :
    {R : Type 0} (index : ℕ) (step : ActionStep) (time later : String) (s : Session R) (tick : ℕ)
    → any (has_index index) s.item.step_states ≡ true
    → let item = mark_step_pending index step time later s.item in
      IsRecorded index
        (record s { item = item; queue = insert item.push_id (stored item) s.queue; tick = tick })
unfolding mark_step_pending
IsRecorded-written index step time later s tick there = record {
  on_disk = rw lookup-insert (rw eq_refl);
  started =
      let (old, e) = find-changed index (pend step time) (λ st. refl) s.item.step_states there in
      (pend step time old, e, refl, refl, refl);
  frozen = λ m e. frozen-mark_step_pending index step time later s.item m e;
}

module _ {R : Type 0} (host : Host) (c : Collaborators R) where
  abbrev pub Executor : Type 0
  Executor = ℕ → ActionStep → Exec R (Unit {0})

  module _ (ex ex' : Executor) where
    -- The part of an attempt after the write of the item.
    abbrev after : Executor → ℕ → ActionStep → Exec R (Unit {0})
    after e index step s = let (r, s') = e index step s in settle_outcome host c index step r s'

    attempt_written :
        (o : Option AppError) (index : ℕ) (step : ActionStep) (s : Session R)
        → (o ≡ none → ex index step (written o s).1 ≡ ex' index step (written o s).1)
        → continue (written o s).0 (λ _. after ex index step) (written o s).1
          ≡ continue (written o s).0 (λ _. after ex' index step) (written o s).1
    attempt_written none index step s h = rw (h refl)
    attempt_written (some e) index step s h = refl

    module _
        (agree : (index : ℕ) (step : ActionStep) (t : Session R)
          → IsRecorded index t
          → ex index step t ≡ ex' index step t)
        (present : (j index : ℕ) (step : ActionStep)
          → Keeps (SamePresence j) (ex' index step)) where
      abbrev Has : ℕ → PushItem → Type 0
      Has index item = any (has_index index) item.step_states ≡ true

      attempt_agrees :
          (index : ℕ) (step : ActionStep) (s : Session R)
          → Has index s.item
          → attempt_step host c ex index step s ≡ attempt_step host c ex' index step s
      unfolding attempt_step write_item
      attempt_agrees index step s there =
          attempt_written (host.write_error (suc (suc s.tick))) index step _ λ e. rw e (
            agree index step _ (
              IsRecorded-written index step (host.time s.tick) (host.time (suc s.tick)) s
                (suc (suc (suc s.tick))) there))

      recover_or_attempt_agrees :
          (index : ℕ) (step : ActionStep) (s : Session R)
          → Has index s.item
          → recover_or_attempt host c ex index step s ≡ recover_or_attempt host c ex' index step s
      unfolding recover_or_attempt
      recover_or_attempt_agrees index step s there = rw (attempt_agrees index step s there)

      resume_agrees :
          (index : ℕ) (step : ActionStep) (r : Result (Unit {0})) (s : Session R)
          → Has index s.item
          → continue r (λ _. recover_or_attempt host c ex index step) s
            ≡ continue r (λ _. recover_or_attempt host c ex' index step) s
      resume_agrees index step (ok done) s there = recover_or_attempt_agrees index step s there
      resume_agrees index step (err e) s there = refl

      run_step_agrees :
          (index : ℕ) (step : ActionStep) (s : Session R)
          → Has index s.item
          → run_step host c ex index step s ≡ run_step host c ex' index step s
      unfolding run_step
      run_step_agrees index step s there =
          let (r, s') = resume_legacy host c index step s in
          rw (
            resume_agrees index step r s'
              ((resume_legacy-Present host c ex' present index step index).at s ∙ there))

      next_agrees :
          (index : ℕ) (steps : List ActionStep) (r : Result (Unit {0})) (s : Session R)
          → (run_steps host c ex index steps s ≡ run_steps host c ex' index steps s)
          → continue r (λ _. run_steps host c ex index steps) s
            ≡ continue r (λ _. run_steps host c ex' index steps) s
      next_agrees index steps (ok done) s h = h
      next_agrees index steps (err e) s h = refl

      run_steps_agrees :
          (index : ℕ) (steps : List ActionStep) (s : Session R)
          → Present index steps s.item
          → run_steps host c ex index steps s ≡ run_steps host c ex' index steps s
      unfolding run_steps
      run_steps_agrees index [] s h = refl
      run_steps_agrees index (step ∷ steps) s h =
          rw (run_step_agrees index step s (h index (omega arith) (ground arith))) (
            let (r, s') = run_step host c ex' index step s in
            next_agrees (index + 1) steps r s' (
              run_steps_agrees (index + 1) steps s' (λ j le lt.
                (run_step-Present host c ex' present index step j).at s
                ∙ h j (omega (arith, le)) (ground (arith, lt)))))

      -- A step is executed only in a session where the queue directory already has the item with a
      -- state of that step, pending, started and without an old diagnostic, and with the plan of a
      -- message frozen: two executors that agree on those sessions give the same run, whatever the
      -- host, the evidence and the state of the item are, if the second one adds and removes no state
      -- of a step.
      pub execute_only_recorded :
          (steps : List ActionStep) (s : Session R)
          → execute_tracked_steps host c ex steps s ≡ execute_tracked_steps host c ex' steps s
      unfolding execute_tracked_steps
      execute_only_recorded steps s =
          run_steps_agrees 0 steps _
            (λ i le l. ensure_step_states_complete s.item steps i (omega (arith, l)))
