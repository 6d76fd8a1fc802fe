-- ===== src/Push/Steps/Ensure.antt =====
-- src/push_queue/execute/step_state.rs: `ensure_step_states` leaves a state for every step.
use agent_first_mail.Prelude.{
  ℕ, ◌+◌, ◌≤◌, ◌<◌, ◌≡◌, refl, Bool, true, ◌||◌, List, [], ◌∷◌, ◌++◌, arith, ltb, ◌==◌, any, retain,
  length, Bool-cases, inl, inr, if◌then◌else◌,
}
use agent_first_mail.Push.Item.{ActionStep, PushStepState, PushItem}
use agent_first_mail.Push.Steps.{
  has_index, new_state, add_states, insert_state, sort_states, ensure_step_states,
}

any-append :
    (p : PushStepState → Bool) (xs ys : List PushStepState)
    → any p (xs ++ ys) ≡ (any p xs || any p ys)
unfolding any
any-append p [] ys = refl
any-append p (x ∷ xs) ys = ground (arith, any-append p xs ys)

any-insert_state :
    (p : PushStepState → Bool) (x : PushStepState) (xs : List PushStepState)
    → any p (insert_state x xs) ≡ (p x || any p xs)
unfolding any insert_state
any-insert_state p x [] = refl
any-insert_state p x (y ∷ ys) = ground (arith, any-insert_state p x ys)

any-sort_states :
    (p : PushStepState → Bool) (xs : List PushStepState) → any p (sort_states xs) ≡ any p xs
unfolding any sort_states
any-sort_states p [] = refl
any-sort_states p (x ∷ xs) =
    ground (arith, any-insert_state p x (sort_states xs), any-sort_states p xs)

any-retain :
    (j n : ℕ) (xs : List PushStepState)
    → j < n
    → any (has_index j) xs ≡ true
    → any (has_index j) (retain (λ state. ltb state.index n) xs) ≡ true
unfolding any retain
any-retain j n [] lt h = cc
any-retain j n (x ∷ xs) lt h = ground (arith, any-retain j n xs lt)

any-add_states :
    (j i : ℕ) (steps : List ActionStep) (states : List PushStepState)
    → any (has_index j) states ≡ true
    → any (has_index j) (add_states i steps states) ≡ true
unfolding any add_states
any-add_states j i [] states h = h
any-add_states j i (step ∷ steps) states h = elim (Bool-cases (any (has_index i) states)) [
  | inl there ↦ rw there (any-add_states j (i + 1) steps states h)
  | inr missing ↦ rw missing (
      any-add_states j (i + 1) steps (states ++ new_state i step ∷ [])
        (rw any-append (ground (arith, h))))
]

add_states_complete :
    (j i : ℕ) (steps : List ActionStep) (states : List PushStepState)
    → i ≤ j
    → j < i + length steps
    → any (has_index j) (add_states i steps states) ≡ true
unfolding any add_states
add_states_complete j i [] states le lt = absurd (omega (arith, le, lt))
add_states_complete j i (step ∷ steps) states le lt =
    let next = if any (has_index i) states then states else states ++ new_state i step ∷ [] in
    elim (Bool-cases (i == j)) [
      | inl here ↦
          any-add_states j (i + 1) steps next (elim (Bool-cases (any (has_index i) states)) [
            | inl there ↦ ground (arith, here, there)
            | inr missing ↦ rw missing (rw any-append (ground (arith, here)))
          ])
      | inr later ↦ add_states_complete j (i + 1) steps next (ground arith) (ground arith)
    ]

-- Every step has a state.
pub ensure_step_states_complete :
    (item : PushItem) (steps : List ActionStep) (j : ℕ)
    → j < length steps
    → any (has_index j) (ensure_step_states item steps).step_states ≡ true
unfolding ensure_step_states
ensure_step_states_complete item steps j lt = rw any-sort_states (
    any-retain j (length steps) (add_states 0 steps item.step_states) lt
      (add_states_complete j 0 steps item.step_states (omega arith) (omega (arith, lt))))
