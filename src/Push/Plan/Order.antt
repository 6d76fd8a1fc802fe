-- ===== src/Push/Plan/Order.antt =====
-- src/push_queue/plan.rs: what the order of the planned items promises.
use mathlib.Core.List.{Perm}
use mathlib.Core.List.Perm
use agent_first_mail.Prelude.{
  ℕ, zero, suc, ◌≤◌, String, ◌≡◌, refl, Bool, true, false, Option, none, some, List, [], ◌∷◌, arith,
  any, length, retain, All, Bool-cases, inl, inr, ◌⊎◌,
}
use agent_first_mail.Push.Item.{PushItem}
use agent_first_mail.Push.Plan.{
  take_first, is_free, order_loop, replied_to, must_precede, item_must_run_before,
  order_items_for_dependencies,
}
use agent_first_mail.Push.Plan.Pick.{
  IsFirst, take_first-IsFirst, All-first, length-first, perm-first, retain-first, any-All, All-any,
  any_here, any_both,
}

-- No item stands before one that must run before it.
module _ {A : Type 0} (before : A → A → Bool) where
  abbrev pub Respects : List A → Type 0
  Respects [] = Unit
  Respects (x ∷ xs) = All (λ later. before later x ≡ false) xs × Respects xs

-- The precedence is of one kind of items over another.
module _ {A : Type 0} (before : A → A → Bool) (Plain : A → Type 0)
    (source : (x y z : A) → Plain x → before x y ≡ true → before z x ≡ false) where
  nothing_before :
      (x y : A) (zs : List A) → Plain x → before x y ≡ true → any (λ z. before z x) zs ≡ false
  unfolding any
  nothing_before x y [] plain h = refl
  nothing_before x y (z ∷ zs) plain h =
      ground (arith, source x y z plain h, nothing_before x y zs plain h)

  -- There is always an item that may run.
  some_free :
      (x : A) (xs : List A) → All Plain (x ∷ xs) → any (is_free before (x ∷ xs)) (x ∷ xs) ≡ true
  some_free x xs plain = elim (Bool-cases (any (λ item. before item x) (x ∷ xs))) [
    | inl blocked ↦
        any_both Plain (λ item. before item x) (is_free before (x ∷ xs)) (x ∷ xs)
          (λ y p h. rw (nothing_before y x (x ∷ xs) p h)) plain blocked
    | inr free ↦ any_here (is_free before (x ∷ xs)) x xs (rw free)
  ]

  step-IsFirst :
      (x : A) (xs : List A)
      → All Plain (x ∷ xs)
      → let (taken, rest) = take_first (is_free before (x ∷ xs)) x xs in
        IsFirst (is_free before (x ∷ xs)) (x ∷ xs) taken rest
  step-IsFirst x xs plain = take_first-IsFirst (is_free before (x ∷ xs)) x xs (some_free x xs plain)

  order_loop-All :
      (P : A → Type 0) (n : ℕ) (xs : List A)
      → All Plain xs
      → All P xs
      → All P (order_loop before n xs)
  unfolding order_loop
  order_loop-All P zero xs plain h = tt
  order_loop-All P (suc n) [] plain h = tt
  order_loop-All P (suc n) (x ∷ xs) plain h =
      let first = step-IsFirst x xs plain in
      let split = λ (Q : A → Type 0). All-first Q (is_free before (x ∷ xs)) (x ∷ xs) _ _ first in
      ((split P h).0, order_loop-All P n _ (split Plain plain).1 (split P h).1)

  order_loop-perm :
      (n : ℕ) (xs : List A) → All Plain xs → length xs ≤ n → Perm (order_loop before n xs) xs
  unfolding order_loop
  order_loop-perm zero [] plain h = Perm.refl []
  order_loop-perm zero (x ∷ xs) plain h = absurd (omega arith)
  order_loop-perm (suc n) [] plain h = Perm.refl []
  order_loop-perm (suc n) (x ∷ xs) plain h =
      let first = step-IsFirst x xs plain in
      let rest = (All-first Plain (is_free before (x ∷ xs)) (x ∷ xs) _ _ first plain).1 in
      let shorter = length-first (is_free before (x ∷ xs)) (x ∷ xs) _ _ first in
      Perm.trans (Perm.cons _ (order_loop-perm n _ rest (omega arith)))
        (perm-first (is_free before (x ∷ xs)) (x ∷ xs) _ _ first)

  order_loop-Respects :
      (n : ℕ) (xs : List A) → All Plain xs → Respects before (order_loop before n xs)
  unfolding order_loop
  order_loop-Respects zero xs plain = tt
  order_loop-Respects (suc n) [] plain = tt
  order_loop-Respects (suc n) (x ∷ xs) plain =
      let first = step-IsFirst x xs plain in
      let split = λ (Q : A → Type 0). All-first Q (is_free before (x ∷ xs)) (x ∷ xs) _ _ first in
      let taken = (take_first (is_free before (x ∷ xs)) x xs).0 in
      let clear = any-All (λ item. before item taken) (x ∷ xs) (ground (arith, first.passes)) in
      (
        order_loop-All (λ item. before item taken ≡ false) n _ (split Plain plain).1
            (split (λ item. before item taken ≡ false) clear).1,
        order_loop-Respects n _ (split Plain plain).1,
      )

  order_loop-retain :
      (p : A → Bool) (n : ℕ) (xs : List A)
      → All Plain xs
      → length xs ≤ n
      → ((x : A) → p x ≡ true → is_free before xs x ≡ true)
      → retain p (order_loop before n xs) ≡ retain p xs
  unfolding order_loop retain
  order_loop-retain p zero [] plain h free = refl
  order_loop-retain p zero (x ∷ xs) plain h free = absurd (omega arith)
  order_loop-retain p (suc n) [] plain h free = refl
  order_loop-retain p (suc n) (x ∷ xs) plain h free =
      let test = is_free before (x ∷ xs) in
      let first = step-IsFirst x xs plain in
      let split = λ (Q : A → Type 0). All-first Q test (x ∷ xs) _ _ first in
      let shorter = length-first test (x ∷ xs) _ _ first in
      let rest = (take_first test x xs).1 in
      let still : (y : A) → p y ≡ true → is_free before rest y ≡ true = λ y kept. rw (
        All-any (λ item. before item y) rest
          (split (λ item. before item y ≡ false)
            (any-All (λ item. before item y) (x ∷ xs) (let g = free y kept in ground arith))).1) in
      let later = order_loop-retain p n rest (split Plain plain).1 (omega arith) still in
      rw later (retain-first p test (x ∷ xs) rest (take_first test x xs).0 first free)

-- An item is that of a draft or that of a message action.
abbrev pub OnePlan : PushItem → Type 0
OnePlan item = (item.planned_outbound ≡ none) ⊎ (item.planned_message_action ≡ none)

precedence_source :
    (x y z : PushItem)
    → OnePlan x
    → item_must_run_before x y ≡ true
    → item_must_run_before z x ≡ false
unfolding item_must_run_before
precedence_source x y z (inl no_outbound) h = absurd (let g = rw no_outbound at h in cc)
precedence_source x y z (inr no_action) h = (nothing (replied_to z.planned_outbound))
  where
    nothing : (o : Option String) → must_precede o x ≡ false
    nothing none = refl
    nothing (some id) = rw no_action

-- If each item has one plan, ordering the items keeps them all, no item comes before one that must
-- run before it, and the items that nothing must precede stay in the order of the queue.
pub order_items_lem :
    (items : List PushItem)
    → All OnePlan items
    → Perm (order_items_for_dependencies items) items
      × Respects item_must_run_before (order_items_for_dependencies items)
      × (retain (is_free item_must_run_before items) (order_items_for_dependencies items)
          ≡ retain (is_free item_must_run_before items) items)
unfolding order_items_for_dependencies
order_items_lem items plans = (
  order_loop-perm item_must_run_before OnePlan precedence_source (length items) items plans
      (omega arith),
  order_loop-Respects item_must_run_before OnePlan precedence_source (length items) items plans,
  order_loop-retain item_must_run_before OnePlan precedence_source
      (is_free item_must_run_before items) (length items) items plans (omega arith)
      (λ x free. free),
)
