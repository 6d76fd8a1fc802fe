-- ===== src/Push/Steps/Marks.antt =====
-- src/push_queue/execute/step_state.rs: a mark changes the state of its own step, and of no other.
use agent_first_mail.Prelude.{
  ℕ, String, ◌≡◌, ◌⊎◌, ◌≢◌, refl, ◌∙◌, Bool, true, false, Option, none, some, List, [], ◌∷◌, arith,
  is_some, any, find, update_first, AppError, Bool-cases, inl, inr,
}
use agent_first_mail.Push.Item.{
  ActionStep, PushStepState, PushItem, message_ids, PushPayload, draft, message, MessageActionPush,
  MessagePush,
}
use agent_first_mail.Push.Steps.{
  has_index, done_at, unknown_at, legacy_at, step_succeeded, step_remote_outcome_unknown,
  legacy_move_message_id_preflight_failed, pend, succeed, fail, lose, freeze_payload,
  freeze_message_action_snapshot, mark_step_pending, mark_step_succeeded, mark_step_failed,
  mark_step_remote_outcome_unknown,
}

-- A change of states that leaves their indices alone.
abbrev pub KeepsIndex : (PushStepState → PushStepState) → Type 0
KeepsIndex f = (state : PushStepState) → (f state).index ≡ state.index

-- A test that holds of no state with another index.
abbrev pub Concerns : ℕ → (PushStepState → Bool) → Type 0
Concerns j p = (state : PushStepState) → has_index j state ≡ false → p state ≡ false

any-update_first_other :
    (i j : ℕ) (f : PushStepState → PushStepState) (p : PushStepState → Bool)
    → i ≢ j
    → KeepsIndex f
    → Concerns j p
    → (states : List PushStepState) → any p (update_first (has_index i) f states) ≡ any p states
unfolding any update_first
any-update_first_other i j f p n k c [] = refl
any-update_first_other i j f p n k c (state ∷ states) =
    ground (arith, k state, c state, c (f state), any-update_first_other i j f p n k c states)

pub any-update_first_self :
    (i : ℕ) (f : PushStepState → PushStepState) (p : PushStepState → Bool)
    → ((state : PushStepState) → has_index i state ≡ true → p (f state) ≡ true)
    → (states : List PushStepState) → any (has_index i) states ≡ true
    → any p (update_first (has_index i) f states) ≡ true
unfolding any update_first
any-update_first_self i f p h [] e = cc
any-update_first_self i f p h (state ∷ states) e =
    ground (arith, h state, any-update_first_self i f p h states)

pub any-index-update_first :
    (i j : ℕ) (f : PushStepState → PushStepState)
    → KeepsIndex f
    → (states : List PushStepState)
    → any (has_index j) (update_first (has_index i) f states) ≡ any (has_index j) states
unfolding any update_first
any-index-update_first i j f k [] = refl
any-index-update_first i j f k (state ∷ states) =
    ground (arith, k state, any-index-update_first i j f k states)

pub find-update_first :
    (i : ℕ) (f : PushStepState → PushStepState)
    → KeepsIndex f
    → (states : List PushStepState) (found : PushStepState)
    → find (has_index i) (update_first (has_index i) f states) ≡ some found
    → (old : PushStepState) × (found ≡ f old)
unfolding find update_first
find-update_first i f k [] found e = absurd (cc)
find-update_first i f k (state ∷ states) found e = elim (Bool-cases (has_index i state)) [
  | inl here ↦ (state, ground (arith, k state))
  | inr there ↦ find-update_first i f k states found (ground arith)
]

-- The tests of the loop at one index, as one value.
pub record Tests : Type 0 where
  pub done : Bool
  pub unknown : Bool
  pub legacy : Bool
  pub present : Bool

unfoldable pub tests_at : ActionStep → ℕ → PushItem → Tests
unfolding step_succeeded step_remote_outcome_unknown legacy_move_message_id_preflight_failed
tests_at step j item = record {
  done = step_succeeded item j;
  unknown = step_remote_outcome_unknown item j;
  legacy = legacy_move_message_id_preflight_failed item j step;
  present = any (has_index j) item.step_states;
}

-- Changing the first state of another index, and what is no part of the tests, keeps them.
pub tests_at-update :
    (step : ActionStep) (i j : ℕ) (f : PushStepState → PushStepState) (item : PushItem)
    → i ≢ j
    → KeepsIndex f
    → tests_at step j (record item { step_states = update_first (has_index i) f item.step_states })
      ≡ tests_at step j item
unfolding tests_at
tests_at-update step i j f item n k =
    let states = item.step_states in
    rw (
      any-update_first_other i j f (done_at j) n k (λ state h. ground arith) states,
      any-update_first_other i j f (unknown_at j) n k (λ state h. ground arith) states,
      any-update_first_other i j f (legacy_at j (message_ids item)) n k
          (λ state h. unfold legacy_at in ground arith) states,
      any-index-update_first i j f k states,
    )

ids-freeze :
    (planned : Option MessageActionPush) (payload : PushPayload) (item : PushItem)
    → item.planned_message_action ≡ planned
    → message_ids (record item { payload = freeze_payload planned payload })
      ≡ message_ids (record item { payload = payload })
unfolding message_ids freeze_payload
ids-freeze planned (draft d) item e = refl
ids-freeze planned (message m) item e = ground arith

tests_at-freeze :
    (step : ActionStep) (j : ℕ) (item : PushItem)
    → tests_at step j (freeze_message_action_snapshot item) ≡ tests_at step j item
unfolding tests_at freeze_message_action_snapshot
tests_at-freeze step j item = rw (ids-freeze item.planned_message_action item.payload item refl)

module _ (other : ActionStep) (i j : ℕ) (n : i ≢ j) (step : ActionStep) (item : PushItem) where
  pub tests_at-mark_step_pending :
      (time later : String)
      → tests_at other j (mark_step_pending i step time later item) ≡ tests_at other j item
  unfolding mark_step_pending tests_at
  tests_at-mark_step_pending time later =
      tests_at-update other i j (pend step time) (freeze_message_action_snapshot item) n
        (λ state. refl)
      ∙ tests_at-freeze other j item

  pub tests_at-mark_step_succeeded :
      (time : String)
      → tests_at other j (mark_step_succeeded i step time item) ≡ tests_at other j item
  unfolding mark_step_succeeded
  tests_at-mark_step_succeeded time =
      tests_at-update other i j (succeed step time) item n (λ state. refl)

  pub tests_at-mark_step_failed :
      (e : AppError) (time : String)
      → tests_at other j (mark_step_failed i step e time item) ≡ tests_at other j item
  unfolding mark_step_failed
  tests_at-mark_step_failed e time =
      tests_at-update other i j (fail step e time) item n (λ state. refl)

  pub tests_at-mark_step_unknown :
      (e : Option AppError) (time : String)
      → tests_at other j (mark_step_remote_outcome_unknown i step e time item)
        ≡ tests_at other j item
  unfolding mark_step_remote_outcome_unknown
  tests_at-mark_step_unknown e time =
      tests_at-update other i j (lose step e time) item n (λ state. refl)

frozen-freeze :
    (plan : Option MessageActionPush) (payload : PushPayload) (m : MessagePush)
    → freeze_payload plan payload ≡ message m
    → (is_some m.message_action_snapshot ≡ true) ⊎ (plan ≡ none)
unfolding freeze_payload
frozen-freeze plan (draft d) m e = absurd (cc)
frozen-freeze none (message n) m e = inr refl
frozen-freeze (some plan) (message n) m e = inl (ground arith)

-- A started step has the plan of its message item frozen.
pub frozen-mark_step_pending :
    (index : ℕ) (step : ActionStep) (time later : String) (item : PushItem) (m : MessagePush)
    → (mark_step_pending index step time later item).payload ≡ message m
    → (is_some m.message_action_snapshot ≡ true) ⊎ (item.planned_message_action ≡ none)
unfolding mark_step_pending
frozen-mark_step_pending index step time later item m e =
    frozen-freeze item.planned_message_action item.payload m e
