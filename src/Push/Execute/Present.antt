-- ===== src/Push/Execute/Present.antt =====
-- src/push_queue/execute.rs: no action removes or adds the state of a step.
use agent_first_mail.Prelude.{
  ℕ, ◌+◌, ◌≤◌, ◌<◌, ◌≡◌, refl, ◌∙◌, ap, Bool, true, some, List, [], ◌∷◌, arith, any, find,
  update_first, length, Bool-cases, inl, inr,
}
use agent_first_mail.Push.Item.{ActionStep, PushItem, PushStepState}
use agent_first_mail.Push.Steps.{
  has_index, pend, succeed, fail, lose, mark_step_pending, mark_step_succeeded, mark_step_failed,
  mark_step_remote_outcome_unknown,
}
use agent_first_mail.Push.Steps.Marks.{KeepsIndex, any-index-update_first, find-update_first}
use agent_first_mail.Push.Session.{Exec, Host}
use agent_first_mail.Push.Execute.{Collaborators, resume_legacy, run_step}
use agent_first_mail.Push.Execute.Frame.{Keeps, IsFrame, Marks, Keeps-run_step, Keeps-resume_legacy}

-- Whether there is a state with the index is the same.
abbrev pub SamePresence : ℕ → PushItem → PushItem → Type 0
SamePresence j x y = any (has_index j) y.step_states ≡ any (has_index j) x.step_states

pub SamePresence-IsFrame : (j : ℕ) → IsFrame (SamePresence j)
SamePresence-IsFrame j = record {
  same = λ x. refl;
  trans = λ x y z p q. q ∙ p;
  touch = λ x time e. refl;
}

pub SamePresence-Marks : (j index : ℕ) (step : ActionStep) → Marks (SamePresence j) index step
unfolding mark_step_pending mark_step_succeeded mark_step_failed mark_step_remote_outcome_unknown
SamePresence-Marks j index step = record {
  pended = λ x t u. any-index-update_first index j (pend step t) (λ st. refl) x.step_states;
  succeeded = λ x t. any-index-update_first index j (succeed step t) (λ st. refl) x.step_states;
  failed = λ x e t. any-index-update_first index j (fail step e t) (λ st. refl) x.step_states;
  lost = λ x e t. any-index-update_first index j (lose step e t) (λ st. refl) x.step_states;
}

any-find :
    (p : PushStepState → Bool) (states : List PushStepState)
    → any p states ≡ true
    → (state : PushStepState) × (find p states ≡ some state)
unfolding any find
any-find p [] h = absurd (cc)
any-find p (state ∷ states) h = elim (Bool-cases (p state)) [
  | inl here ↦ (state, rw here refl)
  | inr there ↦ let (found, e) = any-find p states (ground (arith, h, there)) in (found, rw there e)
]

-- A state that is there is found after a change of the first one with its index, and was changed.
pub find-changed :
    (index : ℕ) (f : PushStepState → PushStepState)
    → KeepsIndex f
    → (states : List PushStepState) → any (has_index index) states ≡ true
    → (old : PushStepState) × (find (has_index index) (update_first (has_index index) f states)
        ≡ some (f old))
find-changed index f k states h =
    let (found, e) =
      any-find (has_index index) (update_first (has_index index) f states)
        (any-index-update_first index index f k states ∙ h) in
    let (old, same) = find-update_first index f k states found e in (old, e ∙ ap some same)

-- Each step from the index on has a state.
abbrev pub Present : ℕ → List ActionStep → PushItem → Type 0
Present index steps x =
    (j : ℕ) → index ≤ j → j < index + length steps → any (has_index j) x.step_states ≡ true

module _ {R : Type 0} (host : Host) (c : Collaborators R) (ex : ℕ → ActionStep → Exec R (Unit {0}))
    (present : (j i : ℕ) (step : ActionStep) → Keeps (SamePresence j) (ex i step)) where
  pub run_step-Present :
      (index : ℕ) (step : ActionStep) (j : ℕ)
      → Keeps (SamePresence j) (run_step host c ex index step)
  run_step-Present index step j =
      Keeps-run_step (SamePresence j) (SamePresence-IsFrame j) host c index step
        (SamePresence-Marks j index step) ex (present j index step)

  pub resume_legacy-Present :
      (index : ℕ) (step : ActionStep) (j : ℕ)
      → Keeps (SamePresence j) (resume_legacy host c index step)
  resume_legacy-Present index step j =
      Keeps-resume_legacy (SamePresence j) (SamePresence-IsFrame j) host c index step
        (SamePresence-Marks j index step) ex (present j index step)
