-- ===== src/Push/Finalize/Ends.antt =====
-- src/push_queue/mod.rs: a finalization that succeeds ends with the audit event prepared and stored
-- as the last local stage.
use agent_first_mail.Prelude.{
  ◌≡◌, refl, ◌∙◌, ap, true, Option, none, some, arith, String, Result, ok, err, is_some, Bool-cases,
  inl, inr,
}
use agent_first_mail.Push.Item.{
  PushLocalStage, remote_succeeded, outbound_recorded, draft_removed, pending_cleared,
  audit_pending, PushItem,
}
use agent_first_mail.Push.Session.{Session, Exec, Host, continue, ◌>>=◌}
use agent_first_mail.Push.Finalize.{
  LocalWork, at_least, local_stage_at_least, unless_at, enter, new_audit,
  prepare_push_audit_pending, finalize_pushed_item, advance_local_stage, outbound_stages_at,
  clear_stage,
}
use agent_first_mail.Push.Finalize.Forward.{enter_stage}

-- The audit event is there, and the stage is the last one.
pub record IsAudited (item : PushItem) : Type 0 where
  pub stage : item.local_stage ≡ some audit_pending
  pub event : is_some item.audit_pending ≡ true

last_stage : (o : Option PushLocalStage) → at_least audit_pending o ≡ true → o ≡ some audit_pending
last_stage none h = cc
last_stage (some remote_succeeded) h = absurd (ground arith)
last_stage (some outbound_recorded) h = absurd (ground arith)
last_stage (some draft_removed) h = absurd (ground arith)
last_stage (some pending_cleared) h = absurd (ground arith)
last_stage (some audit_pending) h = refl

module _ {R : Type 0} where
  pub continue_ok :
      {A B : Type 0} (P : PushItem → Type 0) (r : Result A) (f : A → Exec R B) (b : B)
      (t : Session R)
      → (continue r f t).0 ≡ ok b
      → ((a : A) → (r ≡ ok a) → (f a t).0 ≡ ok b → P (f a t).1.item)
      → P (continue r f t).1.item
  continue_ok P (ok a) f b t e q = q a refl e
  continue_ok P (err x) f b t e q = absurd (cc)

  record Ends (m : Exec R (Unit {0})) : Type 0 where
    at : (s : Session R) → (m s).0 ≡ ok tt → IsAudited (m s).1.item

  -- The second action decides what the two end with.
  Ends-bind :
      {A : Type 0} (m : Exec R A) (f : A → Exec R (Unit {0}))
      → ((a : A) → Ends (f a))
      → Ends (m >>= f)
  Ends-bind m f q = record {
    at = λ s e. let (r, t) = m s in continue_ok IsAudited r f tt t e λ a p g. (q a).at t g;
  }

  module _ (host : Host) (display_kind : PushItem → String) (work : LocalWork R) where
    new_audit_ends :
        (s : Session R)
        → (new_audit host display_kind work s).0 ≡ ok tt
        → is_some (new_audit host display_kind work s).1.item.audit_pending ≡ true
    unfolding new_audit
    new_audit_ends s e =
        let (r, remote) = work.new_audit_event_id s in
        continue_ok (λ x. is_some x.audit_pending ≡ true) r _ tt _ e λ id p g. refl

    audit_ends :
        (s : Session R)
        → (unless_at (λ item. is_some item.audit_pending) (new_audit host display_kind work) s).0
          ≡ ok tt
        → is_some
            (unless_at
              (λ item. is_some item.audit_pending)
              (new_audit host display_kind work)
              s).1.item.audit_pending
          ≡ true
    audit_ends s e = elim (Bool-cases (is_some s.item.audit_pending)) [
      | inl there ↦ rw there there
      | inr missing ↦ rw missing (new_audit_ends s (rw missing at e))
    ]

    last_stage_ends :
        (t : Session R)
        → is_some t.item.audit_pending ≡ true
        → IsAudited
            (unless_at
              (local_stage_at_least audit_pending)
              (enter host display_kind work audit_pending)
              t).1.item
    last_stage_ends t h = elim (Bool-cases (local_stage_at_least audit_pending t.item)) [
      | inl reached ↦
          rw reached (record { stage = last_stage t.item.local_stage reached; event = h })
      | inr missing ↦ rw missing (record {
        stage = (enter_stage host display_kind work audit_pending t).0;
        event = ap is_some (enter_stage host display_kind work audit_pending t).1 ∙ h;
      })
    ]

    prepare_ends :
        (s : Session R)
        → (prepare_push_audit_pending host display_kind work s).0 ≡ ok tt
        → IsAudited (prepare_push_audit_pending host display_kind work s).1.item
    unfolding prepare_push_audit_pending
    prepare_ends s e =
        let m = unless_at (λ item. is_some item.audit_pending) (new_audit host display_kind work) in
        continue_ok IsAudited (m s).0 _ tt (m s).1 e
          λ a p g. last_stage_ends (m s).1 (audit_ends s p)

    -- A finalization that succeeds leaves the item at its last local stage, with its audit event.
    pub finalize_ends :
        (s : Session R)
        → (finalize_pushed_item host display_kind work s).0 ≡ ok tt
        → IsAudited (finalize_pushed_item host display_kind work s).1.item
    unfolding finalize_pushed_item
    finalize_ends s =
        (Ends-bind (advance_local_stage host display_kind work remote_succeeded) _ λ a.
            Ends-bind (outbound_stages_at host display_kind work) _ λ b.
              Ends-bind
                (unless_at (local_stage_at_least pending_cleared)
                  (clear_stage host display_kind work))
                _ λ c. record { at = prepare_ends }).at
          s
