-- ===== src/Push/Run/Loop/Counts.antt =====
-- src/push_queue/mod.rs: the counts that a run reports.
use mathlib.Core.Path.{subst}
use agent_first_mail.Prelude.{
  ℕ, suc, ◌+◌, ◌-◌, ◌≤◌, ◌≡◌, refl, ◌∙◌, ap, sym, Bool, true, false, Option, none, some, arith,
  Result, ok, err, is_some, inl, inr, ◌⊎◌, AppError, List, [], ◌∷◌, length, if◌then◌else◌, ◌==◌,
}
use agent_first_mail.Push.Item.{PushItem, PushAuditPending}
use agent_first_mail.Push.Session.{Session, write_item, written}
use agent_first_mail.Push.Run.{Parts}
use agent_first_mail.Push.Run.Audited.{
  push_item_ends, AuditEnd, removed, kept, cut_short, complete_successful_push_audit_lem,
}
use agent_first_mail.Push.Run.Loop.{
  Tally, item_partially_applied, empty, snoc, noted, one_if, note_audit_error, audited,
  stop_if_pending, item_pushed, item_failed, attempted, attempt_item, run_items, push_items,
  exit_code,
}

-- All n items are pushed, and nothing is left over.
pub record Completed (n : ℕ) (t : Tally) : Type 0 where
  pub pushed_all : t.pushed ≡ n
  pub listed : length t.succeeded_items ≡ n
  pub no_failed : t.failed ≡ 0
  pub no_failures : t.failures ≡ []
  pub none_partial : t.partially_applied ≡ 0
  pub none_pending : t.audit_pending_count ≡ 0
  pub no_warning : t.audit_warnings ≡ 0
  pub none_left : t.unattempted_count ≡ 0
  pub running : t.stopped_after_failure ≡ false

-- One item failed or waits for its audit, and the ones after it are not attempted.
pub record Stopped (n : ℕ) (t : Tally) : Type 0 where
  pub flagged : t.stopped_after_failure ≡ true
  pub total : t.pushed + t.failed + t.unattempted_count ≡ n
  pub one : t.failed + t.audit_pending_count ≡ 1
  pub warned : t.audit_pending_count ≤ t.audit_warnings
  pub partial : t.partially_applied ≤ t.failed
  pub listed : length t.succeeded_items ≡ t.pushed
  pub failures_listed : length t.failures ≡ t.failed

length-snoc : {A : Type 0} (xs : List A) (a : A) → length (snoc xs a) ≡ length xs + 1
unfolding snoc
length-snoc [] a = refl
length-snoc (x ∷ xs) a = ground (arith, length-snoc xs a)

one_more : {A : Type 0} (xs : List A) (a : A) (n : ℕ) → xs ≡ [] → n ≡ 0 → length (snoc xs a) ≡ n + 1
one_more xs a n e h = length-snoc xs a ∙ omega (arith, ap length e, h)

noted_some :
    (e : AppError) (o : Option PushAuditPending) → is_some o ≡ true → is_some (noted e o) ≡ true
noted_some e none h = h
noted_some e (some x) h = refl

one_if_le : (b : Bool) (m n : ℕ) → m ≤ n → m + one_if b ≤ n + 1
one_if_le true m n h = omega arith
one_if_le false m n h = omega arith

empty-Completed : Completed 0 empty
empty-Completed = record {
  pushed_all = refl;
  listed = refl;
  no_failed = refl;
  no_failures = refl;
  none_partial = refl;
  none_pending = refl;
  no_warning = refl;
  none_left = refl;
  running = refl;
}

exit_zero : (n : ℕ) (t : Tally) → Completed n t → exit_code t ≡ 0
unfolding exit_code
exit_zero n t c = ground (arith, c.no_failed, c.no_warning)

exit_nonzero :
    (n : ℕ) (t : Tally)
    → Stopped n t
    → exit_code t ≡ (if t.pushed + t.partially_applied == 0 then 1 else 3)
unfolding exit_code
exit_nonzero n t c = ground (arith, c.one, c.warned)

module _ {R : Type 0} (p : Parts R) where
  failed_stops :
      (n i : ℕ) (e : AppError) (t : Tally) (s : Session R)
      → suc i ≤ n
      → Completed i t
      → Stopped n (item_failed p (n - (i + 1)) e t s).0
  unfolding item_failed
  failed_stops n i e t s h c = record {
    flagged = refl;
    total = omega (arith, c.pushed_all, c.no_failed);
    one = omega (arith, c.no_failed, c.none_pending);
    warned = omega (arith, c.none_pending);
    partial =
        one_if_le (item_partially_applied s.item) _ _ (omega (arith, c.none_partial, c.no_failed));
    listed = c.listed ∙ sym c.pushed_all;
    failures_listed = one_more t.failures _ t.failed c.no_failures c.no_failed;
  }

  written_item : (o : Option AppError) (s : Session R) → (written o s).1.item ≡ s.item
  written_item none s = refl
  written_item (some e) s = refl

  note_item :
      (e : AppError) (s : Session R)
      → (note_audit_error p e s).1.item.audit_pending ≡ noted e s.item.audit_pending
  unfolding note_audit_error write_item
  note_item e s = ap (λ x. x.audit_pending) (written_item (p.host.write_error s.tick) _)

  unaudited_goes :
      (n i : ℕ) (t : Tally) (s : Session R) (e : AppError) (u : Session R)
      → suc i ≤ n
      → is_some s.item.audit_pending ≡ true
      → Completed i t
      → u.item ≡ s.item
      → Completed (suc i) (stop_if_pending p (n - (i + 1)) (audited p t (err e) u)).0
        ⊎ Stopped n (stop_if_pending p (n - (i + 1)) (audited p t (err e) u)).0
  unfolding stop_if_pending audited
  unaudited_goes n i t s e u h a c g =
      rw
        (ap is_some (note_item e u)
          ∙ noted_some e u.item.audit_pending (ap (λ x. is_some x.audit_pending) g ∙ a))
        (inr (record {
          flagged = refl;
          total = omega (arith, c.pushed_all, c.no_failed);
          one = omega (arith, c.no_failed, c.none_pending);
          warned = omega (arith, c.none_pending, c.no_warning);
          partial = omega (arith, c.no_failed, c.none_partial);
          listed = length-snoc t.succeeded_items _ ∙ omega (arith, c.listed, c.pushed_all);
          failures_listed = ap length c.no_failures ∙ sym c.no_failed;
        }))

  audit_goes :
      (n i : ℕ) (t : Tally) (s : Session R) (r : Result (Unit {0})) (u : Session R)
      → suc i ≤ n
      → is_some s.item.audit_pending ≡ true
      → Completed i t
      → AuditEnd p s r u
      → Completed (suc i) (stop_if_pending p (n - (i + 1)) (audited p t r u)).0
        ⊎ Stopped n (stop_if_pending p (n - (i + 1)) (audited p t r u)).0
  unfolding stop_if_pending audited
  audit_goes n i t s r u h a c (removed d g l) = rw g (
      inl (record {
        pushed_all = omega (arith, c.pushed_all);
        listed = length-snoc t.succeeded_items _ ∙ omega (arith, c.listed);
        no_failed = c.no_failed;
        no_failures = c.no_failures;
        none_partial = c.none_partial;
        none_pending = c.none_pending;
        no_warning = c.no_warning;
        none_left = c.none_left;
        running = c.running;
      }))
  audit_goes n i t s r u h a c (kept {e = e} g q) = unaudited_goes n i t s e u h a c g
  audit_goes n i t s r u h a c (cut_short {e = e} d g l) = unaudited_goes n i t s e u h a c g

  attempted_goes :
      (n i : ℕ) (t : Tally) (r : Result (Unit {0})) (s : Session R)
      → suc i ≤ n
      → (r ≡ ok tt → is_some s.item.audit_pending ≡ true)
      → Completed i t
      → Completed (suc i) (attempted p (n - (i + 1)) t r s).0
        ⊎ Stopped n (attempted p (n - (i + 1)) t r s).0
  unfolding attempted item_pushed
  attempted_goes n i t (ok a) s h q c =
      audit_goes n i t s _ _ h (q refl) c (complete_successful_push_audit_lem p s)
  attempted_goes n i t (err e) s h q c = inr (failed_stops n i e t s h c)

  attempt_goes :
      (n i : ℕ) (item : PushItem) (t : Tally) (s : Session R)
      → suc i ≤ n
      → Completed i t
      → Completed (suc i) (attempt_item p (n - (i + 1)) item t s).0
        ⊎ Stopped n (attempt_item p (n - (i + 1)) item t s).0
  unfolding attempt_item
  attempt_goes n i item t s h c =
      attempted_goes n i t _ _ h (push_item_ends p (record s { item = item })) c

  run_goes :
      (n i : ℕ) (items : List PushItem) (t : Tally) (s : Session R)
      → i + length items ≡ n
      → Completed i t
      → Completed n (run_items p n i items t s).0 ⊎ Stopped n (run_items p n i items t s).0
  unfolding run_items
  run_goes n i [] t s h c = inl (subst (λ k. Completed k t) (omega (arith, h)) c)
  run_goes n i (item ∷ items) t s h c =
      let (t', s') = attempt_item p (n - (i + 1)) item t s in
      elim (attempt_goes n i item t s (omega (arith, h)) c) [
        | inl d ↦ rw d.running (
            run_goes n (i + 1) items t' s' (omega (arith, h))
              (subst (λ k. Completed k t') (omega arith) d))
        | inr stopped ↦ rw stopped.flagged (inr stopped)
      ]

  -- A run over n items ends in one of two ways. Either all are pushed, with nothing failed and exit
  -- code 0. Or exactly one failed or waits for its audit, the items pushed, failed and left
  -- unattempted are n together, and the exit code is 1 if nothing was applied and 3 otherwise.
  pub push_items_lem :
      (items : List PushItem) (s : Session R)
      → Completed (length items) (push_items p items s).0 × (exit_code (push_items p items s).0 ≡ 0)
        ⊎ Stopped (length items) (push_items p items s).0
          × (exit_code (push_items p items s).0 ≡ (
              if (push_items p items s).0.pushed + (push_items p items s).0.partially_applied == 0
              then 1
              else 3))
  unfolding push_items
  push_items_lem items s =
      let t = (run_items p (length items) 0 items empty s).0 in
      elim (run_goes (length items) 0 items empty s (omega arith) empty-Completed) [
        | inl c ↦ inl (c, exit_zero (length items) t c)
        | inr stopped ↦ inr (stopped, exit_nonzero (length items) t stopped)
      ]
