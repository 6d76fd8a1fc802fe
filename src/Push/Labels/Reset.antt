-- ===== src/Push/Labels/Reset.antt =====
-- src/push_queue/mod.rs: the recorded progress of an item is kept, or reset before its effects start.
use agent_first_mail.Prelude.{
  ◌≡◌, refl, ◌⊎◌, inl, inr, false, none, [], map, OnOk, bind-OnOk, ok-OnOk, err-OnOk, Bool-cases,
}
use agent_first_mail.Push.Item.{is_nil, PushItem, has_started_effects}
use agent_first_mail.Push.Labels.{
  Planner, labels_continue, reset_unless_started, actions_for, reset_progress_if_plan_changed,
}

abbrev pub cleared : PushItem → PushItem
cleared item = record item { step_states = []; local_stage = none; last_error = none }

abbrev pub KeptOrCleared : PushItem → PushItem → Type 0
KeptOrCleared item kept =
    (kept ≡ item) ⊎ ((has_started_effects item ≡ false) × (kept ≡ cleared item))

module _ (planner : Planner) where
  pub reset_progress-KeptOrCleared :
      (item : PushItem) → OnOk (KeptOrCleared item) (reset_progress_if_plan_changed planner item)
  unfolding reset_progress_if_plan_changed reset_unless_started
  reset_progress-KeptOrCleared item =
      let same = ok-OnOk (KeptOrCleared item) item (inl refl) in
      elim (Bool-cases (is_nil item.step_states)) [
        | inl empty ↦ rw empty same
        | inr some_states ↦ rw some_states (
            bind-OnOk (KeptOrCleared item) (actions_for planner item) _ λ labels e.
              elim (Bool-cases
                (labels_continue (map (λ state. state.label) item.step_states) labels)) [
                  | inl going_on ↦ rw going_on same
                  | inr changed ↦ rw changed (elim (Bool-cases (has_started_effects item)) [
                    | inl started ↦ rw started (err-OnOk (KeptOrCleared item) _)
                    | inr idle ↦
                        rw idle (ok-OnOk (KeptOrCleared item) (cleared item) (inr (idle, refl)))
                  ])
                ])
      ]
