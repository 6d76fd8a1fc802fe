-- ===== src/Push/Recovery/Confirm/Sends.antt =====
-- src/push_queue/recovery.rs: the recovery of a send writes nothing but the settled item.
use mathlib.Core.Path.{subst}
use agent_first_mail.Prelude.{
  ℕ, ◌∙◌, ap, ok, String, ◌≡◌, refl, sym, Option, none, some, Map, insert,
}
use agent_first_mail.Push.Mail.{PreparedOutbound, OutboundDelivery, email, file}
use agent_first_mail.Push.Item.{PushItem, PushStepState, stored}
use agent_first_mail.Push.Session.{ask}
use agent_first_mail.Push.Perform.{answer, prepare_current_outbound}
use agent_first_mail.Push.Perform.Executors.Quiet.{Still-prepare_current_outbound}
use agent_first_mail.Push.Perform.Still.{Still, Still-answer, Still-ask, Still-bind}
use agent_first_mail.Push.Recovery.{Uncertain, uncertain_send}
use agent_first_mail.Push.Recovery.Checks.{Sound, uncertain_send-Sound}
use agent_first_mail.Push.Recovery.Confirm.{
  SendSettlement, Delivered, send_evidence, confirmed_output, Report, Inquiry, required_settlement,
  resolved, delivered, settle_send, recover_send,
}
use agent_first_mail.Push.Recovery.Yields.{
  Yields, Yields-Still, Yields-bind, Yields-check, Yields-modify,
}
use agent_first_mail.Push.Recovery.Confirm.Writes.{
  Recovered, untouched, recorded-Yields, chosen, resolved_recovers,
}

module _ {R : Type 0} (i : Inquiry R) (original : PushItem) (q : Map PushItem) where
  delivered-Still : (p : PreparedOutbound) (d : OutboundDelivery) → Still (delivered i p d)
  unfolding delivered
  delivered-Still p (email mail) = record { item = λ s. refl; queue = λ s. refl }
  delivered-Still p (file route) =
      Still-bind (ask (λ s. i.services.output_confirmed s p)) _ (Still-ask _) λ a. Still-answer _

  settle_send-Yields :
      (u : Uncertain) (sound : Sound original u) (settle : Option SendSettlement) (report : Report)
      (found : Delivered) (confirm : Option String) (n : ℕ) (state : PushStepState) (remote : R)
      → i.recovery_plan_id remote original (send_evidence n state found) ≡ ok report.plan_id
      → Yields
          (Recovered i original confirm settle q)
          q
          u.item
          (settle_send i u settle report found confirm)
  unfolding settle_send
  settle_send-Yields u sound settle report found none n state remote planned =
      Yields-Still (Recovered i original none settle q) q u.item untouched (answer report)
        (Still-answer report)
  settle_send-Yields u sound settle report found (some id) n state remote planned =
      let P = Recovered i original (some id) settle q in
      Yields-check P q u.item untouched (λ s. required_settlement settle id report.plan_id _) _
        λ s g. record {
          at = λ choice e.
              let c = chosen settle id report.plan_id (confirmed_output found) choice e in
              let agreed : i.recovery_plan_id remote original (send_evidence n state found)
                  ≡ ok id =
                planned ∙ ap ok (sym c.matches) in
              recorded-Yields i P q untouched u.item "push_recovery_settled"
                (record report { previous_step_states = some u.item.step_states })
                (resolved u choice)
                λ time later.
                  subst
                    (λ o. Recovered i original (some id) o q (
                      insert (resolved u choice time).push_id
                        (stored (record (resolved u choice time) {
                          updated_rfc3339 = later;
                          last_error = none;
                        }))
                        q))
                    (sym c.same)
                    (resolved_recovers i original u sound n state found remote id agreed q time
                      later choice c.agrees);
        }

  pub recover_send-Yields :
      (x : PushItem) (confirm : Option String) (settle : Option SendSettlement)
      → Yields (Recovered i original confirm settle q) q x (recover_send i original confirm settle)
  unfolding recover_send
  recover_send-Yields x confirm settle =
      let P = Recovered i original confirm settle q in
      Yields-check P q x untouched (λ s. uncertain_send (i.planner s.remote) original) _
        λ s g. record {
          at = λ u e.
              Yields-modify P q x untouched (λ item. u.item) _
                (Yields-bind P q u.item untouched (prepare_current_outbound i.services) _
                  (Still-prepare_current_outbound i.services)
                  λ prepared.
                    Yields-bind P q u.item untouched (delivered i prepared prepared.delivery) _
                      (delivered-Still prepared prepared.delivery)
                      λ found.
                        Yields-check P q u.item untouched
                          (λ t. i.recovery_plan_id t.remote original _) _
                          λ t g'. record {
                            at = λ plan_id e'.
                                settle_send-Yields u
                                  ((uncertain_send-Sound (i.planner s.remote) original).at u e)
                                  settle _ found confirm _ _ t.remote e';
                          });
        }
