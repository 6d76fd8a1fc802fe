-- ===== src/Push/Run/Audited.antt =====
-- src/push_queue/mod.rs: what the audit of a pushed item leaves.
use mathlib.Core.Path.{subst}
use agent_first_mail.Prelude.{
  ◌≡◌, refl, ◌∙◌, ap, true, Bool-cases, Option, none, some, arith, String, Result, ok, err, is_some,
  inl, inr, AppError, lookup, remove, lookup-remove, suc, Map, eq_iff,
}
use agent_first_mail.Push.Item.{PushItem, PushAuditPending}
use agent_first_mail.Push.Session.{Session, Exec, continue, ◌>>=◌, modify, ask}
use agent_first_mail.Push.Finalize.Ends.{finalize_ends, continue_ok}
use agent_first_mail.Push.Run.{
  Parts, push_item, remote_part, audit_succeeded, delete_item, complete_successful_push_audit,
  removed_if, deleted_or,
}

-- The audit event of the item was appended while its file stood in the queue as it was.
pub record Appended {R : Type 0} (p : Parts R) (s : Session R) : Type 0 where
  pub event : PushAuditPending
  pub prepared : s.item.audit_pending ≡ some event
  pub appended : (p.around.append_audit_event_with_identity s event).0 ≡ ok tt

-- What an audit may end with: the event appended and nothing left of the item in the queue; an error
-- and the item and the queue as before; or, with the event appended and the file gone, an error of
-- what follows.
pub data AuditEnd {R : Type 0} (p : Parts R) (s : Session R)
    : Result (Unit {0}) → Session R → Type 0 where
  removed :
      {t : Session R}
      → Appended p s
      → t.item.audit_pending ≡ none
      → lookup s.item.push_id t.queue ≡ none
      → AuditEnd p s (ok tt) t
  kept :
      {e : AppError} {t : Session R} → t.item ≡ s.item → t.queue ≡ s.queue → AuditEnd p s (err e) t
  cut_short :
      {e : AppError} {t : Session R}
      → Appended p s
      → t.item ≡ s.item
      → lookup s.item.push_id t.queue ≡ none
      → AuditEnd p s (err e) t

module _ {R : Type 0} (p : Parts R) where
  abbrev cleared : Exec R (Unit {0})
  cleared = modify (λ item. record item { audit_pending = none; last_error = none })

  -- An item that is pushed has its audit event prepared.
  pub push_item_ends :
      (s : Session R)
      → (push_item p s).0 ≡ ok tt
      → is_some (push_item p s).1.item.audit_pending ≡ true
  unfolding push_item
  push_item_ends s e = elim (Bool-cases (is_some s.item.audit_pending)) [
    | inl there ↦ rw there there
    | inr missing ↦ rw missing (
        let (r, t) = remote_part p s.item.payload s in
        continue_ok (λ x. is_some x.audit_pending ≡ true) r _ tt t (rw missing at e)
          λ a q g. (finalize_ends p.host p.display_kind p.work t g).event)
  ]

  gone : (k j : String) (m : Map PushItem) → j ≡ k → lookup k (remove j m) ≡ none
  gone k j m e = lookup-remove j k m ∙ ground (arith, eq_iff j k)

  archived_end :
      (s t : Session R) (r : Result (Unit {0}))
      → Appended p s
      → t.item ≡ s.item
      → lookup s.item.push_id t.queue ≡ none
      → AuditEnd p s (continue r (λ _. cleared) t).0 (continue r (λ _. cleared) t).1
  archived_end s t (ok archived) a e g = removed a refl g
  archived_end s t (err x) a e g = cut_short a e g

  abbrev after_delete : Exec R (Unit {0})
  after_delete = ask p.around.finalize_archiving_cases >>= λ _. cleared

  after_delete_end :
      (s t : Session R)
      → Appended p s
      → t.item ≡ s.item
      → lookup s.item.push_id t.queue ≡ none
      → AuditEnd p s (after_delete t).0 (after_delete t).1
  after_delete_end s t a e g =
      let (r, remote) = p.around.finalize_archiving_cases t in
      archived_end s (record t { remote = remote; tick = suc t.tick }) r a e g

  deleted_end :
      (o : Option AppError) (s t : Session R)
      → Appended p s
      → t.item ≡ s.item
      → t.queue ≡ s.queue
      → AuditEnd p s
          ((removed_if p o >>= λ _. after_delete) t).0
          ((removed_if p o >>= λ _. after_delete) t).1
  deleted_end none s t a e q =
      after_delete_end s (record t { queue = remove t.item.push_id t.queue; tick = suc t.tick }) a e
        (gone s.item.push_id t.item.push_id t.queue (ap (λ x. x.push_id) e))
  deleted_end (some x) s t a e q = kept e q

  absent_end :
      (o : Option PushItem) (s t : Session R)
      → Appended p s
      → t.item ≡ s.item
      → t.queue ≡ s.queue
      → lookup t.item.push_id t.queue ≡ o
      → AuditEnd p s
          ((deleted_or p o >>= λ _. after_delete) t).0
          ((deleted_or p o >>= λ _. after_delete) t).1
  absent_end none s t a e q h =
      after_delete_end s t a e (subst (λ x. lookup x.push_id t.queue ≡ none) e h)
  absent_end (some file) s t a e q h = deleted_end (p.host.write_error t.tick) s t a e q

  abbrev after_append : Exec R (Unit {0})
  after_append = λ t. (deleted_or p (lookup t.item.push_id t.queue) >>= λ _. after_delete) t

  noted_end :
      (s t : Session R) (r : Result (Unit {0}))
      → (r ≡ ok tt → Appended p s)
      → t.item ≡ s.item
      → t.queue ≡ s.queue
      → AuditEnd p s (continue r (λ _. after_append) t).0 (continue r (λ _. after_append) t).1
  noted_end s t (ok appended) a e q =
      absent_end (lookup t.item.push_id t.queue) s t (a refl) e q refl
  noted_end s t (err x) a e q = kept e q

  audited_end :
      (o : Option PushAuditPending) (s : Session R)
      → s.item.audit_pending ≡ o
      → let m = audit_succeeded p o >>= λ _. after_append in AuditEnd p s (m s).0 (m s).1
  unfolding audit_succeeded
  audited_end none s h = kept refl refl
  audited_end (some event) s h =
      let (r, remote) = p.around.append_audit_event_with_identity s event in
      noted_end s (record s { remote = remote; tick = suc s.tick }) r
        (λ e. record { event = event; prepared = h; appended = e }) refl refl

  -- An audit that succeeds has appended the event that the item had prepared, from the session in which
  -- its file stood, and leaves no event pending and no file of the item in the queue. One that fails
  -- leaves the item as it was, and the queue too; or the file is gone and that event was appended.
  pub complete_successful_push_audit_lem :
      (s : Session R)
      → AuditEnd p s (complete_successful_push_audit p s).0 (complete_successful_push_audit p s).1
  unfolding complete_successful_push_audit delete_item
  complete_successful_push_audit_lem s = audited_end s.item.audit_pending s refl
