-- ===== src/Push/Recovery/Checks.antt =====
-- src/push_queue/recovery.rs: what the checks of an uncertain step establish, and what settling it
-- changes.
use mathlib.Core.Path.{subst}
use agent_first_mail.Prelude.{
  ℕ, String, zero, suc, ◌+◌, ◌<◌, ◌≡◌, refl, ap, sym, Bool, true, false, not, ◌||◌, Bool-cases,
  Option, none, some, List, [], ◌∷◌, arith, any, get_elem?, update_first, update_at, Result, ok,
  OnOk, ok-OnOk, err-OnOk, bind-OnOk, inl, inr, ◌>>=◌, ◌>>◌, refuse_if, AppError,
}
use agent_first_mail.Push.Item.{
  PushItem, PushStepState, PushStepStatus, pending, succeeded, failed, remote_outcome_unknown,
  is_unknown, is_pending, has_started, has_started_effects,
}
use agent_first_mail.Push.Steps.{has_index}
use agent_first_mail.Push.Labels.{Planner}
use agent_first_mail.Push.Plan.{position, one_later}
use agent_first_mail.Push.Planning.{plan_item}
use agent_first_mail.Push.Planning.Derived.{Derived}
use agent_first_mail.Push.Planning.Progress.{plan_item-Derived}
use agent_first_mail.Push.Recovery.{
  Uncertain, supported, unsupported, unknown_state, misplaced, local_work, planned_item,
  uncertain_send, uncertain_append, other_send, other_append, first_unknown,
}

one_later_inverse :
    (o : Option ℕ) (n : ℕ) → one_later o ≡ some n → (m : ℕ) × (o ≡ some m) × (n ≡ suc m)
one_later_inverse none n e = absurd (cc)
one_later_inverse (some m) n e = (m, refl, cc)

module _ {A : Type 0} where
  get_elem?-position :
      (p : A → Bool) (xs : List A) (n : ℕ)
      → position p xs ≡ some n
      → (x : A) × (get_elem? xs n ≡ some x) × (p x ≡ true)
  unfolding position
  get_elem?-position p [] n e = absurd (cc)
  get_elem?-position p (x ∷ xs) n e = elim (Bool-cases (p x)) [
    | inl hit ↦
        let first : 0 ≡ n = ground arith in
        subst (λ k. (y : A) × (get_elem? (x ∷ xs) k ≡ some y) × (p y ≡ true)) first (x, refl, hit)
    | inr miss ↦
        let (m, found, e') = one_later_inverse (position p xs) n (rw miss at e) in
        subst (λ k. (y : A) × (get_elem? (x ∷ xs) k ≡ some y) × (p y ≡ true)) (sym e')
          (get_elem?-position p xs m found)
  ]

  any-get_elem? :
      (p : A → Bool) (xs : List A) (n : ℕ) (x : A)
      → get_elem? xs n ≡ some x
      → p x ≡ true
      → any p xs ≡ true
  unfolding any
  any-get_elem? p [] n x e h = absurd (cc)
  any-get_elem? p (y ∷ xs) zero x e h = ground arith
  any-get_elem? p (y ∷ xs) (suc n) x e h = ground (arith, any-get_elem? p xs n x e h)

  pub update_at-update_at :
      (n : ℕ) (f g : A → A) (xs : List A)
      → update_at n g (update_at n f xs) ≡ update_at n (λ x. g (f x)) xs
  unfolding update_at
  update_at-update_at n f g [] = refl
  update_at-update_at zero f g (x ∷ xs) = refl
  update_at-update_at (suc n) f g (x ∷ xs) = ap (λ ys. x ∷ ys) (update_at-update_at n f g xs)

  pub update_at_value :
      (n : ℕ) (f : A → A) (xs : List A) (x : A)
      → get_elem? xs n ≡ some x
      → update_at n f xs ≡ update_at n (λ y. f x) xs
  unfolding update_at
  update_at_value n f [] x e = refl
  update_at_value zero f (y ∷ xs) x e = ground arith
  update_at_value (suc n) f (y ∷ xs) x e = ap (λ ys. y ∷ ys) (update_at_value n f xs x e)

-- The states stand at their own places.
pub update_first_place :
    (u i n j : ℕ) (f : PushStepState → PushStepState) (states : List PushStepState)
    → j ≡ i + n
    → misplaced u i states ≡ false
    → update_first (has_index j) f states ≡ update_at n f states
unfolding misplaced update_first update_at
update_first_place u i n j f [] e h = refl
update_first_place u i zero j f (state ∷ states) e h = ground arith
update_first_place u i (suc n) j f (state ∷ states) e h =
    ground (arith, update_first_place u (i + 1) n j f states)

any_later :
    (u i j : ℕ) (p : PushStepState → Bool) (states : List PushStepState)
    → ((state : PushStepState) → has_index j state ≡ false → p state ≡ false)
    → j < i
    → misplaced u i states ≡ false
    → any p states ≡ false
unfolding misplaced any
any_later u i j p [] c l h = refl
any_later u i j p (state ∷ states) c l h = ground (arith, c state, any_later u (i + 1) j p states c)

pub any-update_at :
    (u i n j : ℕ) (p : PushStepState → Bool) (f : PushStepState → PushStepState)
    (states : List PushStepState) (x : PushStepState)
    → j ≡ i + n
    → ((state : PushStepState) → has_index j state ≡ false → p state ≡ false)
    → misplaced u i states ≡ false
    → get_elem? states n ≡ some x
    → any p (update_at n f states) ≡ p (f x)
unfolding misplaced any update_at
any-update_at u i n j p f [] x k c h e = absurd (cc)
any-update_at u i zero j p f (state ∷ states) x k c h e =
    ground (arith, any_later u (i + 1) j p states c)
any-update_at u i (suc n) j p f (state ∷ states) x k c h e =
    ground (arith, c state, any-update_at u (i + 1) n j p f states x)

-- What the checks of an uncertain step establish.
pub record Sound (original : PushItem) (u : Uncertain) : Type 0 where
  pub before : PushStepState
  pub place : get_elem? original.step_states u.index ≡ some before
  pub unknown : is_unknown before.status ≡ true
  pub aligned : misplaced u.index 0 original.step_states ≡ false
  pub states : u.item.step_states ≡ original.step_states
  pub same_id : u.item.push_id ≡ original.push_id
  pub same_payload : u.item.payload ≡ original.payload
  pub same_attempts : u.item.attempt_count ≡ original.attempt_count

unknown_not_pending :
    (status : PushStepStatus) → is_unknown status ≡ true → is_pending status ≡ false
unknown_not_pending pending h = absurd (cc)
unknown_not_pending succeeded h = refl
unknown_not_pending failed h = refl
unknown_not_pending remote_outcome_unknown h = refl

unknown_started :
    (state : PushStepState) → is_unknown state.status ≡ true → has_started state ≡ true
unknown_started state h = ground (arith, unknown_not_pending state.status h)

started_at :
    (item : PushItem) (n : ℕ) (x : PushStepState)
    → get_elem? item.step_states n ≡ some x
    → is_unknown x.status ≡ true
    → has_started_effects item ≡ true
unfolding has_started_effects
started_at item n x e h =
    ground (arith, any-get_elem? has_started item.step_states n x e (unknown_started x h))

supported-OnOk :
    {A B : Type 0} (P : B → Type 0) (o : Option A) (f : A → Result B)
    → ((a : A) → o ≡ some a → OnOk P (f a))
    → OnOk P (supported o >>= f)
supported-OnOk P none f h = err-OnOk P unsupported
supported-OnOk P (some a) f h = h a refl

refused-OnOk :
    {B : Type 0} (P : B → Type 0) (b : Bool) (e : AppError) (m : Result B)
    → (b ≡ false → OnOk P m)
    → OnOk P (refuse_if b e >> m)
refused-OnOk P true e m h = err-OnOk P e
refused-OnOk P false e m h = h refl

first_place :
    (states : List PushStepState)
    → first_unknown states ≡ true
    → (x : PushStepState) × (get_elem? states 0 ≡ some x)
      × (is_unknown x.status ≡ true)
      × (misplaced 0 0 states ≡ false)
unfolding misplaced
first_place [] h = absurd (cc)
first_place (state ∷ states) h = (state, refl, ground arith, ground arith)

module _ (planner : Planner) (original : PushItem) where
  planned_item-Derived :
      OnOk (λ item. Derived original (true, item)) (planned_item planner original)
  unfolding planned_item
  planned_item-Derived =
      bind-OnOk (λ item. Derived original (true, item)) (plan_item planner original) _
        λ planned e.
          refused-OnOk (λ item. Derived original (true, item)) (not planned.0) unsupported
            (ok planned.1)
            λ b.
              ok-OnOk (λ item. Derived original (true, item)) planned.1
                (subst (λ k. Derived original (k, planned.1)) (ground arith)
                  ((plan_item-Derived planner original).at planned e))

  planned-OnOk :
      {B : Type 0} (P : B → Type 0) (f : PushItem → Result B)
      → ((item : PushItem) → Derived original (true, item) → OnOk P (f item))
      → OnOk P (planned_item planner original >>= f)
  planned-OnOk P f h =
      bind-OnOk P (planned_item planner original) f
        λ item e. h item (planned_item-Derived.at item e)

  kept_states :
      (item : PushItem)
      → has_started_effects original ≡ true
      → Derived original (true, item)
      → item.step_states ≡ original.step_states
  kept_states item h d = elim d.progress [ inl same ↦ same.0 | inr idle ↦ absurd (cc) ]

  abbrev Fine : Uncertain → Type 0
  Fine = Sound original

  pub uncertain_send-Sound : OnOk Fine (uncertain_send planner original)
  unfolding uncertain_send
  uncertain_send-Sound =
      supported-OnOk Fine (position unknown_state original.step_states) _ λ n found.
        let (x, place, unknown) = get_elem?-position unknown_state original.step_states n found in
        refused-OnOk Fine (local_work original || misplaced n 0 original.step_states) unsupported _
          λ checked.
            let aligned : misplaced n 0 original.step_states ≡ false = ground arith in
            planned-OnOk Fine _ λ item d. supported-OnOk Fine item.planned_outbound _ λ outbound e.
              supported-OnOk Fine (get_elem? outbound.steps n) _ λ step e'.
                supported-OnOk Fine (get_elem? item.step_states n) _ λ state e''.
                  let u : Uncertain = record {
                    item = item;
                    index = n;
                    step = step;
                    state = state;
                  } in
                  refused-OnOk Fine (other_send item outbound step state) unsupported (ok u) λ fits.
                    ok-OnOk Fine u (record {
                      before = x;
                      place = place;
                      unknown = unknown;
                      aligned = aligned;
                      states = kept_states item (started_at original n x place unknown) d;
                      same_id = d.same_id;
                      same_payload = d.same_payload;
                      same_attempts = d.same_attempts;
                    })

  pub uncertain_append-Sound :
      (is_drafts : String → Bool)
      → OnOk
          (λ found. Fine found.0 × (is_drafts found.1 ≡ true))
          (uncertain_append planner is_drafts original)
  unfolding uncertain_append other_append
  uncertain_append-Sound is_drafts =
      let P = λ (found : Uncertain × String). Fine found.0 × (is_drafts found.1 ≡ true) in
      refused-OnOk P (local_work original || not (first_unknown original.step_states)) unsupported _
        λ checked.
          let (x, place, unknown, aligned) = first_place original.step_states (ground arith) in
          planned-OnOk P _ λ item d. supported-OnOk P item.planned_outbound _ λ outbound e.
            supported-OnOk P (get_elem? outbound.steps 0) _ λ step e'.
              supported-OnOk P step.append_to_mailbox_id _ λ mailbox_id m.
                supported-OnOk P (get_elem? item.step_states 0) _ λ state e''.
                  let u : Uncertain = record {
                    item = item;
                    index = 0;
                    step = step;
                    state = state;
                  } in
                  refused-OnOk P (other_append is_drafts item outbound step mailbox_id) unsupported
                    (ok (u, mailbox_id))
                    λ fits.
                      ok-OnOk P (u, mailbox_id)
                        (
                          record {
                            before = x;
                            place = place;
                            unknown = unknown;
                            aligned = aligned;
                            states = kept_states item (started_at original 0 x place unknown) d;
                            same_id = d.same_id;
                            same_payload = d.same_payload;
                            same_attempts = d.same_attempts;
                          },
                          ground (arith, fits),
                        )
