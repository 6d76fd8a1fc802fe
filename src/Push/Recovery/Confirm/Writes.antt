-- ===== src/Push/Recovery/Confirm/Writes.antt =====
-- src/push_queue/recovery.rs: the one write of a recovery, and the item that it writes.
use mathlib.Core.Path.{subst}
use agent_first_mail.Prelude.{
  ℕ, false, List, ◌∷◌, str_eq, eq_iff, Bool-cases, inl, inr, String, ◌≡◌, refl, ◌∙◌, ap, sym, Bool,
  true, Option, none, some, arith, Map, insert, ok, AppError,
}
use agent_first_mail.Push.Item.{PushItem, PushStepState, is_succeeded, stored, item_draft}
use agent_first_mail.Push.Session.{Session, now, write_item, written, ask}
use agent_first_mail.Push.Perform.{answer}
use agent_first_mail.Push.Perform.Still.{Still-answer, Still-ask}
use agent_first_mail.Push.Recovery.{Uncertain, supported, unstarted, settled_done, settled_open}
use agent_first_mail.Push.Recovery.Checks.{Sound}
use agent_first_mail.Push.Recovery.Settled.{
  Settled, touched-Settled, settled_done-Settled, settled_open-Settled,
}
use agent_first_mail.Push.Recovery.Confirm.{
  SendSettlement, sent, not_sent, Delivered, Found, RecoveryEvidence, send_evidence,
  append_evidence, confirmed_output, require_matching_recovery_plan, Report, Inquiry,
  required_settlement, resolved, audit_and_write, audit_final, record_settled,
}
use agent_first_mail.Push.Recovery.Confirm.Evidence.{IsDraftsFolder, Absent, Located, AllAbsent}
use agent_first_mail.Push.Mail.{RemoteLocation}
use agent_first_mail.Push.Recovery.Yields.{
  Yields, Yields-bind, Yields-check, Yields-modify, Yields-then, now-Still,
}

module _ {R : Type 0} (i : Inquiry R) where
  -- What decides what becomes of the step. A send is as a person says, who does not contradict an output
  -- file that is there. An append is as the mailboxes say: done if the search of the Drafts folder found
  -- the message, never started if it found none, and in both cases no Sent folder has it.
  pub data Decided (planned : PushItem)
      : Option SendSettlement → RecoveryEvidence → PushStepState → Type 0 where
    as_sent :
        {n : ℕ} {state : PushStepState} {found : Delivered} {after : PushStepState}
        → is_succeeded after.status ≡ true
        → Decided planned (some sent) (send_evidence n state found) after
    as_not_sent :
        {n : ℕ} {state : PushStepState} {found : Delivered} {after : PushStepState}
        → confirmed_output found ≡ false
        → unstarted after ≡ true
        → Decided planned (some not_sent) (send_evidence n state found) after
    as_found :
        {folder : String} {place : RemoteLocation} {copies : List Found} {after : PushStepState}
        → IsDraftsFolder i folder
        → Located i (i.outbound_rfc822_message_id planned) folder place
        → AllAbsent i (i.outbound_rfc822_message_id planned) copies
        → is_succeeded after.status ≡ true
        → Decided planned none
            (append_evidence true
              (record { mailbox_name = folder; location = some place } ∷ copies))
            after
    as_absent :
        {folder : String} {copies : List Found} {after : PushStepState}
        → IsDraftsFolder i folder
        → Absent i (i.outbound_rfc822_message_id planned) folder
        → AllAbsent i (i.outbound_rfc822_message_id planned) copies
        → unstarted after ≡ true
        → Decided planned none
            (append_evidence false (record { mailbox_name = folder; location = none } ∷ copies))
            after

  -- The queue is as it was, or has the settled item. The id that was confirmed is then that of the
  -- recovery plan for the item and the evidence.
  pub data Recovered (original : PushItem) (confirm_plan_id : Option String)
      (settle : Option SendSettlement) (queue : Map PushItem) : Map PushItem → Type 0 where
    untouched : Recovered original confirm_plan_id settle queue queue
    settled :
        (item planned : PushItem) (after : PushStepState) (evidence : RecoveryEvidence) (remote : R)
        (plan_id : String)
        → confirm_plan_id ≡ some plan_id
        → i.recovery_plan_id remote original evidence ≡ ok plan_id
        → planned.push_id ≡ original.push_id
        → planned.payload ≡ original.payload
        → Settled original item after
        → Decided planned settle evidence after
        → Recovered original confirm_plan_id settle queue (insert item.push_id (stored item) queue)

module _ {R : Type 0} (i : Inquiry R) (P : Map PushItem → Type 0) (q : Map PushItem)
    (unchanged : P q) where
  written-Yields :
      (o : Option AppError) (y : PushItem) (s : Session R)
      → P (insert y.push_id (stored y) q)
      → s.queue ≡ q
      → s.item ≡ y
      → P (written o s).1.queue
  written-Yields none y s h e g =
      subst P
        (ap (λ m. insert y.push_id (stored y) m) (sym e)
          ∙ ap (λ (z : PushItem). insert z.push_id (stored z) s.queue) (sym g))
        h
  written-Yields (some x) y s h e g = subst P (sym e) unchanged

  Yields-write :
      (y : PushItem) → P (insert y.push_id (stored y) q) → Yields P q y (write_item {R = R} i.host)
  unfolding write_item
  Yields-write y h = record { at = λ s e g. written-Yields (i.host.write_error s.tick) y s h e g }

  audited-Yields :
      (y : PushItem) (kind : String) (report : Report)
      → P (insert y.push_id (stored y) q)
      → Yields P q y (audit_and_write i kind report)
  unfolding audit_and_write
  audited-Yields y kind report h =
      Yields-check P q y unchanged (λ s. supported (item_draft s.item)) _
        λ s g. record {
          at = λ draft e.
              Yields-bind P q y unchanged (ask (λ t. i.append_audit_event t kind report)) _
                (Still-ask _)
                λ a. Yields-then P q y (write_item i.host) _ (Yields-write y h) λ b. Still-ask _;
        }

  final-Yields :
      (y : PushItem) (kind : String) (report : Report)
      → P (insert y.push_id (stored y) q)
      → Yields P q y (audit_final i kind report)
  unfolding audit_final
  final-Yields y kind report h = record {
    at = λ s.
        let final = record report { step_states = some s.item.step_states } in
        (Yields-then P q y (audit_and_write i kind final) (λ written. answer final)
            (audited-Yields y kind final h) λ a. Still-answer final).at
          s;
  }

  pub recorded-Yields :
      (x : PushItem) (kind : String) (report : Report) (outcome : String → PushItem)
      → ((time later : String)
          → P (
              insert
                (outcome time).push_id
                (stored (record (outcome time) { updated_rfc3339 = later; last_error = none }))
                q))
      → Yields P q x (record_settled i kind report outcome)
  unfolding record_settled
  recorded-Yields x kind report outcome h =
      Yields-bind P q x unchanged (now i.host) _ (now-Still i.host) λ time.
        Yields-modify P q x unchanged (λ item. outcome time) _
          (Yields-bind P q (outcome time) unchanged (now i.host) _ (now-Still i.host) λ later.
            Yields-modify P q (outcome time) unchanged
              (λ item. record item { updated_rfc3339 = later; last_error = none }) _
              (final-Yields _ kind report (h time later)))

matching_id : (id plan_id : String) → str_eq id plan_id ≡ true → id ≡ plan_id
matching_id id plan_id h = ground (arith, h, eq_iff id plan_id)

pub matching :
    (id plan_id : String) → require_matching_recovery_plan id plan_id ≡ ok tt → id ≡ plan_id
unfolding require_matching_recovery_plan
matching id plan_id e = elim (Bool-cases (str_eq id plan_id)) [
  | inl same ↦ matching_id id plan_id same
  | inr other ↦ absurd (ground (arith, e, other))
]

-- What a settlement that is accepted says.
pub record Chosen (settle : Option SendSettlement) (id plan_id : String) (output : Bool)
    (choice : SendSettlement) : Type 0 where
  pub same : settle ≡ some choice
  pub matches : id ≡ plan_id
  pub agrees : choice ≡ not_sent → output ≡ false

pub chosen :
    (settle : Option SendSettlement) (id plan_id : String) (output : Bool) (choice : SendSettlement)
    → required_settlement settle id plan_id output ≡ ok choice
    → Chosen settle id plan_id output choice
unfolding required_settlement require_matching_recovery_plan
chosen none id plan_id output choice e = absurd (cc)
chosen (some sent) id plan_id output choice e = record {
  same = ground arith;
  matches = matching_id id plan_id (ground (arith, e));
  agrees = λ h. ground (arith, e, h);
}
chosen (some not_sent) id plan_id output choice e = record {
  same = ground arith;
  matches = matching_id id plan_id (ground (arith, e));
  agrees = λ h. ground (arith, e);
}

module _ {R : Type 0} (i : Inquiry R) (original : PushItem) (u : Uncertain)
    (sound : Sound original u) (evidence : RecoveryEvidence) (remote : R) (id : String)
    (planned : i.recovery_plan_id remote original evidence ≡ ok id) (q : Map PushItem)
    (time later : String) where
  pub done_recovers :
      (summary : Option String) (settle : Option SendSettlement)
      → ((after : PushStepState)
          → is_succeeded after.status ≡ true
          → Decided i u.item settle evidence after)
      → Recovered i original (some id) settle q (
          insert
            (settled_done u summary time).push_id
            (stored
              (record (settled_done u summary time) { updated_rfc3339 = later; last_error = none }))
            q)
  done_recovers summary settle d =
      let (after, h, succeeds) = settled_done-Settled original u sound summary time in
      settled _ u.item after evidence remote id refl planned sound.same_id sound.same_payload
        (touched-Settled original _ after later h) (d after succeeds)

  pub open_recovers :
      (summary : String) (settle : Option SendSettlement)
      → ((after : PushStepState) → unstarted after ≡ true → Decided i u.item settle evidence after)
      → Recovered i original (some id) settle q (
          insert
            (settled_open u summary).push_id
            (stored
              (record (settled_open u summary) { updated_rfc3339 = later; last_error = none }))
            q)
  open_recovers summary settle d =
      let (after, h, fresh) = settled_open-Settled original u sound summary in
      settled _ u.item after evidence remote id refl planned sound.same_id sound.same_payload
        (touched-Settled original _ after later h) (d after fresh)

module _ {R : Type 0} (i : Inquiry R) (original : PushItem) (u : Uncertain)
    (sound : Sound original u) (n : ℕ) (state : PushStepState) (found : Delivered) (remote : R)
    (id : String)
    (planned : i.recovery_plan_id remote original (send_evidence n state found) ≡ ok id)
    (q : Map PushItem) (time later : String) where
  pub resolved_recovers :
      (choice : SendSettlement)
      → (choice ≡ not_sent → confirmed_output found ≡ false)
      → Recovered i original (some id) (some choice) q (
          insert
            (resolved u choice time).push_id
            (stored
              (record (resolved u choice time) { updated_rfc3339 = later; last_error = none }))
            q)
  resolved_recovers sent agrees =
      done_recovers i original u sound (send_evidence n state found) remote id planned q time later
        _ (some sent) λ after h. as_sent h
  resolved_recovers not_sent agrees =
      open_recovers i original u sound (send_evidence n state found) remote id planned q time later
        _ (some not_sent) λ after h. as_not_sent (agrees refl) h
