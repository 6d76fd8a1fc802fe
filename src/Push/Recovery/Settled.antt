-- ===== src/Push/Recovery/Settled.antt =====
-- src/push_queue/recovery.rs: a settled item is the queued one with one state changed.
use agent_first_mail.Prelude.{
  ℕ, zero, suc, ◌+◌, String, ◌≡◌, refl, ◌∙◌, ap, true, false, Option, none, some, List, [], ◌∷◌,
  arith, any, get_elem?, update_at,
}
use agent_first_mail.Push.Item.{ActionStep, PushItem, PushStepState, is_unknown, is_succeeded}
use agent_first_mail.Push.Steps.{
  has_index, done_at, unknown_at, step_succeeded, step_remote_outcome_unknown, succeed,
  mark_step_succeeded, mark_step_recovered_pending,
}
use agent_first_mail.Push.Steps.Marks.{KeepsIndex}
use agent_first_mail.Push.Recovery.{Uncertain, unstarted, misplaced, settled_done, settled_open}
use agent_first_mail.Push.Recovery.Checks.{
  Sound, update_first_place, any-update_at, update_at-update_at, update_at_value,
}

-- The state at one place, whose outcome was unknown, is now `after`. The loop over the steps finds the
-- step done if that has succeeded, and no longer finds its outcome unknown.
pub record Settled (original item : PushItem) (after : PushStepState) : Type 0 where
  pub index : ℕ
  pub before : PushStepState
  pub place : get_elem? original.step_states index ≡ some before
  pub unknown : is_unknown before.status ≡ true
  pub states : item.step_states ≡ update_at index (λ old. after) original.step_states
  pub same_id : item.push_id ≡ original.push_id
  pub same_payload : item.payload ≡ original.payload
  pub same_attempts : item.attempt_count ≡ original.attempt_count
  pub closed : step_succeeded item index ≡ is_succeeded after.status
  pub known : step_remote_outcome_unknown item index ≡ false

place_index :
    (u i n j : ℕ) (states : List PushStepState) (x : PushStepState)
    → j ≡ i + n
    → misplaced u i states ≡ false
    → get_elem? states n ≡ some x
    → x.index ≡ j
unfolding misplaced
place_index u i n j [] x k h e = absurd (cc)
place_index u i zero j (state ∷ states) x k h e = ground arith
place_index u i (suc n) j (state ∷ states) x k h e =
    ground (arith, place_index u (i + 1) n j states x)

changed-Settled :
    (original : PushItem) (u : Uncertain) (item : PushItem) (f : PushStepState → PushStepState)
    (sound : Sound original u)
    → item.step_states ≡ update_at u.index f u.item.step_states
    → item.push_id ≡ u.item.push_id
    → item.payload ≡ u.item.payload
    → item.attempt_count ≡ u.item.attempt_count
    → KeepsIndex f
    → is_unknown (f sound.before).status ≡ false
    → Settled original item (f sound.before)
unfolding step_succeeded step_remote_outcome_unknown
changed-Settled original u item f sound changed id payload attempts keeps known =
    let n = u.index in
    let after = f sound.before in
    let here : has_index n after ≡ true = ground (
      arith,
      keeps sound.before,
      place_index n 0 n n original.step_states sound.before (omega arith) sound.aligned sound.place,
    ) in
    let states : item.step_states ≡ update_at n (λ old. after) original.step_states =
      changed
      ∙ ap (λ xs. update_at n f xs) sound.states
      ∙ update_at_value n f original.step_states sound.before sound.place in
    record {
      index = n;
      before = sound.before;
      place = sound.place;
      unknown = sound.unknown;
      states = states;
      same_id = id ∙ sound.same_id;
      same_payload = payload ∙ sound.same_payload;
      same_attempts = attempts ∙ sound.same_attempts;
      closed =
          ap (any (done_at n)) states
          ∙ any-update_at n 0 n n (done_at n) (λ old. after) original.step_states sound.before
              (omega arith) (λ state e. ground arith) sound.aligned sound.place
          ∙ ground arith;
      known =
          ap (any (unknown_at n)) states
          ∙ any-update_at n 0 n n (unknown_at n) (λ old. after) original.step_states sound.before
              (omega arith) (λ state e. ground arith) sound.aligned sound.place
          ∙ ground arith;
    }

-- An item whose states are those of a settled one.
pub touched-Settled :
    (original item : PushItem) (after : PushStepState) (later : String)
    → Settled original item after
    → Settled original (record item { updated_rfc3339 = later; last_error = none }) after
unfolding step_succeeded step_remote_outcome_unknown
touched-Settled original item after later h = record {
  index = h.index;
  before = h.before;
  place = h.place;
  unknown = h.unknown;
  states = h.states;
  same_id = h.same_id;
  same_payload = h.same_payload;
  same_attempts = h.same_attempts;
  closed = h.closed;
  known = h.known;
}

module _ (original : PushItem) (u : Uncertain) (sound : Sound original u) where
  pub settled_open-Settled :
      (summary : String)
      → (after : PushStepState) × Settled original (settled_open u summary) after
        × (unstarted after ≡ true)
  unfolding settled_open mark_step_recovered_pending
  settled_open-Settled summary = (
    mark_step_recovered_pending summary sound.before,
    changed-Settled original u (settled_open u summary) (mark_step_recovered_pending summary) sound
        refl refl refl refl (λ state. refl) refl,
    refl,
  )

  marked_place :
      (step : ActionStep) (now : String)
      → (mark_step_succeeded u.index step now u.item).step_states
        ≡ update_at u.index (succeed step now) u.item.step_states
  unfolding mark_step_succeeded
  marked_place step now =
      update_first_place u.index 0 u.index u.index (succeed step now) u.item.step_states
        (omega arith) (ap (misplaced u.index 0) sound.states ∙ sound.aligned)

  pub settled_done-Settled :
      (summary : Option String) (now : String)
      → (after : PushStepState) × Settled original (settled_done u summary now) after
        × (is_succeeded after.status ≡ true)
  unfolding settled_done mark_step_succeeded
  settled_done-Settled none now = (
    succeed u.step now sound.before,
    changed-Settled original u (settled_done u none now) (succeed u.step now) sound
        (marked_place u.step now) refl refl refl (λ state. refl) refl,
    refl,
  )
  settled_done-Settled (some text) now =
      let f = λ (state : PushStepState). record state { result_summary = some text } in
      (
        f (succeed u.step now sound.before),
        changed-Settled original u (settled_done u (some text) now)
            (λ state. f (succeed u.step now state)) sound
            (ap (update_at u.index f) (marked_place u.step now)
              ∙ update_at-update_at u.index (succeed u.step now) f u.item.step_states)
            refl refl refl (λ state. refl) refl,
        refl,
      )
