-- ===== src/Push/Finalize/Forward.antt =====
-- src/push_queue/mod.rs: a finalization only moves the local stage forward, and one that succeeds
-- ends with the audit event prepared.
use agent_first_mail.Prelude.{
  ℕ, suc, ◌≤◌, String, ◌≡◌, refl, ap, ◌∙◌, Bool, true, false, Option, none, some, arith, Result, ok,
  err, AppError, is_some, Bool-cases, inl, inr,
}
use agent_first_mail.Push.Item.{
  PushLocalStage, outbound_recorded, draft_removed, pending_cleared, audit_pending,
  remote_succeeded, stage_rank, OutboundPush, PushItem,
}
use agent_first_mail.Push.Session.{
  Session, Exec, Host, continue, ◌>>=◌, ◌>>◌, ask, written, write_item,
}
use agent_first_mail.Push.Execute.Frame.{Keeps, IsFrame, Keeps-bind, Keeps-ask, Keeps-done}
use agent_first_mail.Push.Finalize.{
  LocalWork, at_least, local_stage_at_least, fail_with, unless_at, enter, advance_local_stage,
  record_stage, remove_stage, clear_stage, new_audit, prepare_push_audit_pending, outbound_stages,
  outbound_stages_at, finalize_pushed_item,
}

abbrev pub rank : Option PushLocalStage → ℕ
rank none = 0
rank (some stage) = suc (stage_rank stage)

-- The stage is not behind, and an audit event that was prepared is kept.
pub record Forward (x y : PushItem) : Type 0 where
  pub stage : rank x.local_stage ≤ rank y.local_stage
  pub audit : is_some x.audit_pending ≡ true → y.audit_pending ≡ x.audit_pending

Forward-IsFrame : IsFrame Forward
Forward-IsFrame = record {
  same = λ x. record { stage = omega arith; audit = λ h. refl };
  trans = λ x y z p q. record {
    stage = omega (arith, p.stage, q.stage);
    audit = λ h. q.audit (rw (p.audit h) h) ∙ p.audit h;
  };
  touch = λ x time e. record { stage = omega arith; audit = λ h. refl };
}

behind :
    (stage : PushLocalStage) (o : Option PushLocalStage)
    → at_least stage o ≡ false
    → rank o ≤ suc (stage_rank stage)
behind stage none h = omega arith
behind stage (some current) h = ground arith

module _ {R : Type 0} where
  written_item :
      (o f : Option AppError) (s : Session R)
      → (continue (written o s).0 (λ _. fail_with f) (written o s).1).1.item ≡ s.item
  written_item none none s = refl
  written_item none (some e) s = refl
  written_item (some e) f s = refl

  continue_ends :
      {A B : Type 0} (P : PushItem → Type 0) (r : Result A) (f : A → Exec R B) (t : Session R)
      → P t.item
      → ((a : A) → P (f a t).1.item)
      → P (continue r f t).1.item
  continue_ends P (ok a) f t p q = q a
  continue_ends P (err e) f t p q = p

  Keeps-unless_at :
      (test : PushItem → Bool) (m : Exec R (Unit {0}))
      → ((s : Session R) → test s.item ≡ false → Forward s.item (m s).1.item)
      → Keeps Forward (unless_at test m)
  Keeps-unless_at test m h = record {
    at = λ s. elim (Bool-cases (test s.item)) [
      | inl reached ↦ rw reached (Forward-IsFrame.same s.item)
      | inr missing ↦ rw missing (h s missing)
    ];
  }

  module _ (host : Host) (display_kind : PushItem → String) (work : LocalWork R) where
    pub enter_stage :
        (stage : PushLocalStage) (s : Session R)
        → ((enter host display_kind work stage s).1.item.local_stage ≡ some stage)
          × ((enter host display_kind work stage s).1.item.audit_pending ≡ s.item.audit_pending)
    unfolding enter write_item
    enter_stage stage s =
        let time = host.time s.tick in
        let marked = record s {
          item = record s.item { local_stage = some stage; updated_rfc3339 = time };
          tick = suc s.tick;
        } in
        let same =
          written_item (host.write_error (suc s.tick)) (work.fail_after_local_stage stage) marked in
        (ap (λ (x : PushItem). x.local_stage) same, ap (λ (x : PushItem). x.audit_pending) same)

    pub enter-Forward :
        (stage : PushLocalStage) (s : Session R)
        → local_stage_at_least stage s.item ≡ false
        → Forward s.item (enter host display_kind work stage s).1.item
    enter-Forward stage s h = record {
      stage = rw ((enter_stage stage s).0) (behind stage s.item.local_stage h);
      audit = λ there. (enter_stage stage s).1;
    }

    Keeps-advance :
        (stage : PushLocalStage) → Keeps Forward (advance_local_stage host display_kind work stage)
    unfolding advance_local_stage
    Keeps-advance stage =
        Keeps-unless_at (local_stage_at_least stage) (enter host display_kind work stage)
          (enter-Forward stage)

    Forward-bind :
        {A B : Type 0} (m : Exec R A) (f : A → Exec R B)
        → Keeps Forward m
        → ((a : A) → Keeps Forward (f a))
        → Keeps Forward (m >>= f)
    Forward-bind m f = Keeps-bind Forward Forward-IsFrame m f

    -- The work of a stage, its record and the views.
    Keeps-stage :
        (stage : PushLocalStage) (call views : Session R → Result (Unit {0}) × R)
        → Keeps Forward (
            unless_at
              (local_stage_at_least stage)
              (ask call >> (advance_local_stage host display_kind work stage >> ask views)))
    Keeps-stage stage call views = Keeps-unless_at (local_stage_at_least stage) _ λ s missing.
        (Forward-bind (ask call) _ (Keeps-ask Forward Forward-IsFrame call) λ a.
            Forward-bind (advance_local_stage host display_kind work stage) _ (Keeps-advance stage)
              λ b. Keeps-ask Forward Forward-IsFrame views).at
          s

    Keeps-outbound_stages :
        (o : Option OutboundPush) → Keeps Forward (outbound_stages host display_kind work o)
    unfolding outbound_stages record_stage remove_stage
    Keeps-outbound_stages none = Keeps-done Forward Forward-IsFrame
    Keeps-outbound_stages (some outbound) =
        Forward-bind _ _
          (Keeps-stage outbound_recorded work.record_outbound_after_push
            work.refresh_outbound_push_views)
          λ a.
            Keeps-stage draft_removed work.remove_outbound_draft_after_push
              work.refresh_outbound_push_views

    new_audit-Forward :
        (s : Session R)
        → is_some s.item.audit_pending ≡ false
        → Forward s.item (new_audit host display_kind work s).1.item
    unfolding new_audit
    new_audit-Forward s h =
        let (r, remote) = work.new_audit_event_id s in
        continue_ends (Forward s.item) r _ (record s { remote = remote; tick = suc s.tick })
          (Forward-IsFrame.same s.item)
          λ id. record { stage = omega arith; audit = λ there. absurd (ground (arith, h, there)) }

    Keeps-prepare : Keeps Forward (prepare_push_audit_pending host display_kind work)
    unfolding prepare_push_audit_pending
    Keeps-prepare =
        Forward-bind _ _
          (Keeps-unless_at (λ item. is_some item.audit_pending) (new_audit host display_kind work)
            new_audit-Forward)
          λ a.
            Keeps-unless_at (local_stage_at_least audit_pending)
              (enter host display_kind work audit_pending) (enter-Forward audit_pending)

    -- Whether it succeeds or fails at any point, a finalization leaves the local stage where it was or
    -- further on, and keeps an audit event that was prepared before.
    pub finalize-Forward :
        (s : Session R) → Forward s.item (finalize_pushed_item host display_kind work s).1.item
    unfolding finalize_pushed_item clear_stage outbound_stages_at
    finalize-Forward s =
        (Forward-bind (advance_local_stage host display_kind work remote_succeeded) _
            (Keeps-advance remote_succeeded)
            λ a.
              Forward-bind _ _
                (record { at = λ t. (Keeps-outbound_stages t.item.planned_outbound).at t })
                λ b.
                  Forward-bind _ _
                    (Keeps-stage pending_cleared work.clear_pending_push_item
                      work.refresh_message_push_views)
                    λ c. Keeps-prepare).at
          s
