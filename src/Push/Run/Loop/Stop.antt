-- ===== src/Push/Run/Loop/Stop.antt =====
-- src/push_queue/mod.rs: a run attempts nothing after the first item that fails or is left pending.
use mathlib.Core.Path.{subst}
use agent_first_mail.Prelude.{
  ℕ, ◌+◌, ◌-◌, ◌≡◌, refl, ◌∙◌, ap, sym, true, false, Result, ok, err, is_some, inl, inr, List, [],
  ◌∷◌, ◌++◌, Bool-cases, length,
}
use agent_first_mail.Push.Item.{PushItem}
use agent_first_mail.Push.Session.{Session}
use agent_first_mail.Push.Run.{Parts, push_item, complete_successful_push_audit}
use agent_first_mail.Push.Run.Loop.{
  Tally, empty, audited, stop_if_pending, item_pushed, item_failed, attempted, attempt_item,
  run_items, push_items,
}

-- The session is the same, and so is whether the run stops.
record Alike {R : Type 0} (a b : Tally × Session R) : Type 0 where
  session : a.1 ≡ b.1
  flag : a.0.stopped_after_failure ≡ b.0.stopped_after_failure

module _ {R : Type 0} (p : Parts R) where
  pending-Alike :
      (u v : ℕ) (a b : Tally × Session R)
      → Alike a b
      → Alike (stop_if_pending p u a) (stop_if_pending p v b)
  unfolding stop_if_pending
  pending-Alike u v (t, s) (w, r) h = elim (Bool-cases (is_some s.item.audit_pending)) [
    | inl there ↦
        rw (there, sym (ap (λ x. is_some x.item.audit_pending) h.session) ∙ there)
          (record { session = h.session; flag = refl })
    | inr missing ↦ rw (missing, sym (ap (λ x. is_some x.item.audit_pending) h.session) ∙ missing) h
  ]

  audited-Alike :
      (t w : Tally) (r : Result (Unit {0})) (s : Session R)
      → t.stopped_after_failure ≡ w.stopped_after_failure
      → Alike (audited p t r s) (audited p w r s)
  unfolding audited
  audited-Alike t w (ok a) s h = record { session = refl; flag = h }
  audited-Alike t w (err e) s h = record { session = refl; flag = h }

  attempted-Alike :
      (u v : ℕ) (t w : Tally) (r : Result (Unit {0})) (s : Session R)
      → t.stopped_after_failure ≡ w.stopped_after_failure
      → Alike (attempted p u t r s) (attempted p v w r s)
  unfolding attempted item_pushed item_failed
  attempted-Alike u v t w (ok a) s h =
      let (r, s') = complete_successful_push_audit p s in
      pending-Alike u v _ _ (audited-Alike t w r s' h)
  attempted-Alike u v t w (err e) s h = record { session = refl; flag = refl }

  attempt-Alike :
      (u v : ℕ) (item : PushItem) (t w : Tally) (s : Session R)
      → t.stopped_after_failure ≡ w.stopped_after_failure
      → Alike (attempt_item p u item t s) (attempt_item p v item w s)
  unfolding attempt_item
  attempt-Alike u v item t w s h =
      let (r, s') = push_item p (record s { item = item }) in attempted-Alike u v t w r s' h

  stopped_run :
      (n i m j : ℕ) (xs ys : List PushItem) (t w : Tally) (s r : Session R)
      → s ≡ r
      → t.stopped_after_failure ≡ w.stopped_after_failure
      → w.stopped_after_failure ≡ false
      → (run_items p m j xs w r).0.stopped_after_failure ≡ true
      → (run_items p n i (xs ++ ys) t s).1 ≡ (run_items p m j xs w r).1
  unfolding run_items
  stopped_run n i m j [] ys t w s r e h f g = absurd (cc)
  stopped_run n i m j (x ∷ xs) ys t w s r e h f g =
      let (t', s') = attempt_item p (n - (i + 1)) x t s in
      let (w', r') = attempt_item p (m - (j + 1)) x w r in
      let same =
        subst (λ q. Alike (attempt_item p (n - (i + 1)) x t s) (attempt_item p (m - (j + 1)) x w q))
          e (attempt-Alike (n - (i + 1)) (m - (j + 1)) x t w s h) in
      elim (Bool-cases w'.stopped_after_failure) [
        | inl k ↦ rw (same.flag ∙ k, k) same.session
        | inr k ↦
            rw (same.flag ∙ k, k)
              (stopped_run n (i + 1) m (j + 1) xs ys t' w' s' r' same.session same.flag k
                (rw k at g))
      ]

  -- When the run over the first items stops, the items after them change nothing: the run over all
  -- ends with the same session.
  pub push_items_stopped :
      (xs ys : List PushItem) (s : Session R)
      → (push_items p xs s).0.stopped_after_failure ≡ true
      → (push_items p (xs ++ ys) s).1 ≡ (push_items p xs s).1
  unfolding push_items
  push_items_stopped xs ys s =
      stopped_run (length (xs ++ ys)) 0 (length xs) 0 xs ys empty empty s s refl refl refl
