-- ===== src/Push/Execute/Achieve.antt =====
-- src/push_queue/execute.rs: a run of one step that succeeds leaves the step succeeded.
use agent_first_mail.Prelude.{
  ℕ, suc, String, ◌≡◌, ◌≢◌, refl, ◌∙◌, ap, Bool, true, false, ◌&&◌, not, Option, none, some, arith,
  any, is_some, Result, ok, err, AppError, Bool-cases, inl, inr, if◌then◌else◌,
}
use agent_first_mail.Push.Item.{ActionStep, PushItem}
use agent_first_mail.Push.Steps.{
  has_index, done_at, succeed, step_succeeded, step_remote_outcome_unknown, mark_step_succeeded,
}
use agent_first_mail.Push.Steps.Marks.{any-update_first_self}
use agent_first_mail.Push.Session.{
  Session, Exec, Host, continue, ◌>>=◌, ◌>>◌, raise, written, write_item, ask,
}
use agent_first_mail.Push.Execute.{
  Collaborators, settle_succeeded, settle_failed, settle_unknown, start_step, succeed_if,
  outcome_proved, recover_remote_outcome_unknown_step, refresh_step, skip_step, resume_legacy,
  remote_effect_not_applied, remote_outcome_unknown_error, recovered, recover_or_refuse,
  settle_error, settle_outcome, attempt_step, recover_or_attempt, run_step,
}
use agent_first_mail.Push.Execute.Frame.{
  Keeps, Keeps-outcome_proved, Keeps-start_step, Keeps-resume_legacy, Keeps-write_item,
}
use agent_first_mail.Push.Execute.Present.{SamePresence, SamePresence-IsFrame, SamePresence-Marks}

-- If the step has a state and the action succeeds, the step has succeeded after it.
pub record Achieves {R : Type 0} (index : ℕ) (m : Exec R (Unit {0})) : Type 0 where
  pub at :
      (s : Session R)
      → any (has_index index) s.item.step_states ≡ true
      → (m s).0 ≡ ok tt
      → step_succeeded (m s).1.item index ≡ true

succeeded_marked :
    (index : ℕ) (step : ActionStep) (time later : String) (e : Option String) (x : PushItem)
    → any (has_index index) x.step_states ≡ true
    → step_succeeded
        (record (mark_step_succeeded index step time x) { updated_rfc3339 = later; last_error = e })
        index
      ≡ true
unfolding mark_step_succeeded step_succeeded
succeeded_marked index step time later e x h =
    any-update_first_self index (succeed step time) (done_at index) (λ st i. ground arith)
      x.step_states h

module _ {R : Type 0} (index : ℕ) where
  continue-Achieves :
      {A : Type 0} (r : Result A) (f : A → Exec R (Unit {0})) (t : Session R)
      → any (has_index index) t.item.step_states ≡ true
      → ((a : A) → Achieves index (f a))
      → (continue r f t).0 ≡ ok tt
      → step_succeeded (continue r f t).1.item index ≡ true
  continue-Achieves (ok a) f t h q e = (q a).at t h e
  continue-Achieves (err x) f t h q e = absurd (cc)

  Achieves-bind :
      {A : Type 0} (m : Exec R A) (f : A → Exec R (Unit {0}))
      → Keeps (SamePresence index) m
      → ((a : A) → Achieves index (f a))
      → Achieves index (m >>= f)
  Achieves-bind m f k q = record {
    at = λ s h e. let (r, t) = m s in continue-Achieves r f t (k.at s ∙ h) q e;
  }

  continue_twice-Achieves :
      {A B : Type 0} (r : Result A) (f : A → Exec R B) (g : B → Exec R (Unit {0})) (t : Session R)
      → any (has_index index) t.item.step_states ≡ true
      → ((a : A) → Achieves index (f a >>= g))
      → (continue (continue r f t).0 g (continue r f t).1).0 ≡ ok tt
      → step_succeeded (continue (continue r f t).0 g (continue r f t).1).1.item index ≡ true
  continue_twice-Achieves (ok a) f g t h q e = (q a).at t h e
  continue_twice-Achieves (err x) f g t h q e = absurd (cc)

  Achieves-bind_twice :
      {A B : Type 0} (m : Exec R A) (f : A → Exec R B) (g : B → Exec R (Unit {0}))
      → Keeps (SamePresence index) m
      → ((a : A) → Achieves index (f a >>= g))
      → Achieves index (m >>= f >>= g)
  Achieves-bind_twice m f g k q = record {
    at = λ s h e. let (r, t) = m s in continue_twice-Achieves r f g t (k.at s ∙ h) q e;
  }

  Achieves-if_at :
      (b : Session R → Bool) (m n : Exec R (Unit {0}))
      → ((s : Session R)
          → b s ≡ true
          → any (has_index index) s.item.step_states ≡ true
          → (m s).0 ≡ ok tt
          → step_succeeded (m s).1.item index ≡ true)
      → Achieves index n
      → Achieves index (λ s. if b s then m s else n s)
  Achieves-if_at b m n p q = record {
    at = λ s h e. elim (Bool-cases (b s)) [
      | inl test ↦ rw test (p s test h (rw test at e))
      | inr test ↦ rw test (q.at s h (rw test at e))
    ];
  }

  -- A write, and then a call that leaves the item alone.
  written_item :
      {A : Type 0} (o : Option AppError) (call : Session R → Result A × R) (s : Session R)
      → (continue (written o s).0 (λ _. ask call) (written o s).1).1.item ≡ s.item
  written_item none call s = refl
  written_item (some e) call s = refl

  raised :
      {A : Type 0} (x : AppError) (r : Result A) (t : Session R)
      → (continue r (λ _. raise x) t).0 ≢ ok tt
  raised x (ok a) t g = absurd (cc)
  raised x (err y) t g = absurd (cc)

  never_ok :
      {A : Type 0} (m : Exec R A) (x : AppError) (s : Session R) → ((m >> raise x) s).0 ≢ ok tt
  never_ok m x s e = let (r, t) = m s in raised x r t e

  module _ (host : Host) (c : Collaborators R) (step : ActionStep) where
    settled : Achieves index (settle_succeeded host index step >> refresh_step host c step)
    unfolding settle_succeeded refresh_step write_item
    settled = record {
      at = λ s h e.
          let t = host.time s.tick in
          let u = host.time (suc s.tick) in
          let x = record (mark_step_succeeded index step t s.item) {
            updated_rfc3339 = u;
            last_error = none;
          } in
          ap (λ y. step_succeeded y index)
            (written_item (host.write_error (suc (suc s.tick))) (λ v. c.refresh v step)
              (record s { item = x; tick = suc (suc s.tick) }))
          ∙ succeeded_marked index step t u none s.item h;
    }

    settle_error_fails :
        (x : AppError) (s : Session R) → (settle_error host c index step x s).0 ≢ ok tt
    unfolding settle_error
    settle_error_fails x s e =
        elim (Bool-cases
          (step_remote_outcome_unknown s.item index && not (remote_effect_not_applied x))) [
            | inl lost ↦
                never_ok (settle_unknown host index step x) (remote_outcome_unknown_error step) s
                  (rw lost at e)
            | inr known ↦ never_ok (settle_failed host index step x) x s (rw known at e)
          ]

    settle_outcome-Achieves :
        (r : Result (Unit {0})) → Achieves index (settle_outcome host c index step r)
    unfolding settle_outcome
    settle_outcome-Achieves (ok executed) = settled
    settle_outcome-Achieves (err x) = record { at = λ s h e. absurd (settle_error_fails x s e) }

    skip_step-item : (s : Session R) → (skip_step host c step s).1.item ≡ s.item
    unfolding skip_step refresh_step
    skip_step-item s = elim (Bool-cases (is_some s.item.local_stage)) [
      | inl staged ↦ rw staged
      | inr unstaged ↦ rw unstaged
    ]

    -- The last part of a recovery.
    proved_item :
        (o : Option AppError) (s : Session R)
        → (continue
            (continue (written o s).0 (λ _ u. (ok true, u)) (written o s).1).0
            (recovered host c step)
            (continue (written o s).0 (λ _ u. (ok true, u)) (written o s).1).1).1.item
          ≡ s.item
    unfolding recovered refresh_step
    proved_item none s = refl
    proved_item (some x) s = refl

    proved-Achieves :
        (b : Bool) → Achieves index (succeed_if host c index step b >>= recovered host c step)
    unfolding succeed_if settle_succeeded write_item recovered
    proved-Achieves true = record {
      at = λ s h e.
          let t = host.time s.tick in
          let u = host.time (suc s.tick) in
          let x = record (mark_step_succeeded index step t s.item) {
            updated_rfc3339 = u;
            last_error = none;
          } in
          ap (λ y. step_succeeded y index)
            (proved_item (host.write_error (suc (suc s.tick)))
              (record s { item = x; tick = suc (suc s.tick) }))
          ∙ succeeded_marked index step t u none s.item h;
    }
    proved-Achieves false = record { at = λ s h e. absurd (cc) }

    recover_or_refuse-Achieves : Achieves index (recover_or_refuse host c index step)
    unfolding recover_or_refuse recover_remote_outcome_unknown_step
    recover_or_refuse-Achieves =
        Achieves-bind_twice (outcome_proved host c index step) _ (recovered host c step)
          (Keeps-outcome_proved (SamePresence index) (SamePresence-IsFrame index) host c index step)
          proved-Achieves

    module _ (ex : ℕ → ActionStep → Exec R (Unit {0}))
        (executed : Keeps (SamePresence index) (ex index step)) where
      execute_and_settle-Achieves :
          Achieves index
            (λ s. let (r, s') = ex index step s in settle_outcome host c index step r s')
      execute_and_settle-Achieves = record {
        at = λ s h e.
            let (r, s') = ex index step s in
            (settle_outcome-Achieves r).at s' (executed.at s ∙ h) e;
      }

      attempt_step-Achieves : Achieves index (attempt_step host c ex index step)
      unfolding attempt_step
      attempt_step-Achieves =
          let frame = SamePresence-IsFrame index in
          Achieves-bind (start_step host index step) _
            (Keeps-start_step (SamePresence index) frame host c index step
              (SamePresence-Marks index index step))
            λ a.
              Achieves-bind (write_item host) _ (Keeps-write_item (SamePresence index) frame host)
                λ b. execute_and_settle-Achieves

      recover_or_attempt-Achieves : Achieves index (recover_or_attempt host c ex index step)
      unfolding recover_or_attempt
      recover_or_attempt-Achieves =
          Achieves-if_at (λ s. step_remote_outcome_unknown s.item index) _ _
            (λ s test h e. recover_or_refuse-Achieves.at s h e) attempt_step-Achieves

      pub run_step-Achieves : Achieves index (run_step host c ex index step)
      unfolding run_step
      run_step-Achieves =
          Achieves-if_at (λ s. step_succeeded s.item index) (skip_step host c step) _
            (λ s test h e. ap (λ y. step_succeeded y index) (skip_step-item s) ∙ test)
            (Achieves-bind (resume_legacy host c index step) _
              (Keeps-resume_legacy (SamePresence index) (SamePresence-IsFrame index) host c index
                step (SamePresence-Marks index index step) ex executed)
              λ a. recover_or_attempt-Achieves)
