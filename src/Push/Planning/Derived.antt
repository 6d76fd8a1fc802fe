-- ===== src/Push/Planning/Derived.antt =====
-- src/push_queue/mod.rs: what a planned item has in common with the item that was queued.
use agent_first_mail.Prelude.{
  ◌||◌, is_some, arith, ◌≡◌, refl, sym, ◌∙◌, true, false, none, some, inl, inr, ◌⊎◌, Map,
}
use mathlib.Core.Path.{subst}
use agent_first_mail.Push.Mail.{Bytes, PreparedOutbound}
use agent_first_mail.Push.Item.{MessageActionPush, OutboundPush, PushItem, has_started_effects}
use agent_first_mail.Push.Plan.Order.{OnePlan}
use agent_first_mail.Push.Labels.Reset.{cleared, KeptOrCleared}
use agent_first_mail.Push.Planning.{Planned}

-- An item as it is read from its file.
pub record Unplanned (item : PushItem) : Type 0 where
  pub no_outbound : item.planned_outbound ≡ none
  pub no_action : item.planned_message_action ≡ none

-- The planned item is the queued one with one plan. Its progress may be reset, and the plan may be
-- missing, only before its effects have started.
pub record Derived (item : PushItem) (planned : Planned) : Type 0 where
  pub same_id : planned.1.push_id ≡ item.push_id
  pub same_seq : planned.1.enqueue_seq ≡ item.enqueue_seq
  pub same_payload : planned.1.payload ≡ item.payload
  pub same_audit : planned.1.audit_pending ≡ item.audit_pending
  pub same_attempts : planned.1.attempt_count ≡ item.attempt_count
  pub progress :
      ((planned.1.step_states ≡ item.step_states) × (planned.1.local_stage ≡ item.local_stage))
      ⊎ (has_started_effects item ≡ false)
  pub has_plan : (planned.0 ≡ true) ⊎ (has_started_effects item ≡ false)
  pub kept_plan :
      planned.0 ≡ true
      → (is_some planned.1.planned_outbound || is_some planned.1.planned_message_action) ≡ true
  pub one_plan : Unplanned item → OnePlan planned.1

-- The item with the plan of an outbound draft, or of a message action.
abbrev pub with_outbound : PushItem → OutboundPush → PushItem
with_outbound item outbound = record item { planned_outbound = some outbound }

abbrev pub with_action : PushItem → MessageActionPush → PushItem
with_action item action = record item { planned_message_action = some action }

pub with_outbound-Derived :
    (item : PushItem) (outbound : OutboundPush) → Derived item (true, with_outbound item outbound)
with_outbound-Derived item outbound = record {
  same_id = refl;
  same_seq = refl;
  same_payload = refl;
  same_audit = refl;
  same_attempts = refl;
  progress = inl (refl, refl);
  has_plan = inl refl;
  kept_plan = λ h. refl;
  one_plan = λ u. inr u.no_action;
}

pub with_action-Derived :
    (item : PushItem) (action : MessageActionPush) → Derived item (true, with_action item action)
with_action-Derived item action = record {
  same_id = refl;
  same_seq = refl;
  same_payload = refl;
  same_audit = refl;
  same_attempts = refl;
  progress = inl (refl, refl);
  has_plan = inl refl;
  kept_plan = λ h. ground arith;
  one_plan = λ u. inl u.no_outbound;
}

pub cleared-Derived :
    (item planned : PushItem)
    → has_started_effects item ≡ false
    → Derived item (true, planned)
    → Derived item (true, cleared planned)
cleared-Derived item planned idle d = record {
  same_id = d.same_id;
  same_seq = d.same_seq;
  same_payload = d.same_payload;
  same_audit = d.same_audit;
  same_attempts = d.same_attempts;
  progress = inr idle;
  has_plan = d.has_plan;
  kept_plan = d.kept_plan;
  one_plan = d.one_plan;
}

pub reset-Derived :
    (item planned kept : PushItem)
    → has_started_effects planned ≡ has_started_effects item
    → KeptOrCleared planned kept
    → Derived item (true, planned)
    → Derived item (true, kept)
reset-Derived item planned kept same (inl e) d = subst (λ y. Derived item (true, y)) (sym e) d
reset-Derived item planned kept same (inr (idle, e)) d =
    subst (λ y. Derived item (true, y)) (sym e) (cleared-Derived item planned (sym same ∙ idle) d)

-- An item without a plan, which is the queued one or that without a message action.
pub dropped-Derived :
    (item x : PushItem)
    → has_started_effects item ≡ false
    → (x ≡ item) ⊎ (x ≡ record item { planned_message_action = none })
    → Derived item (false, x)
dropped-Derived item x idle (inl e) =
    subst (λ y. Derived item (false, y)) (sym e)
      (record {
        same_id = refl;
        same_seq = refl;
        same_payload = refl;
        same_audit = refl;
        same_attempts = refl;
        progress = inl (refl, refl);
        has_plan = inr idle;
        kept_plan = λ h. absurd (cc);
        one_plan = λ u. inr u.no_action;
      })
dropped-Derived item x idle (inr e) =
    subst (λ y. Derived item (false, y)) (sym e)
      (record {
        same_id = refl;
        same_seq = refl;
        same_payload = refl;
        same_audit = refl;
        same_attempts = refl;
        progress = inl (refl, refl);
        has_plan = inr idle;
        kept_plan = λ h. absurd (cc);
        one_plan = λ u. inr refl;
      })

-- The bytes of the messages and the prepared message stand beside the plan.
module _ (item x : PushItem) (d : Derived item (true, x)) where
  pub raws-Derived :
      (raws : Map Bytes) → Derived item (true, record x { planned_message_rfc822 = raws })
  raws-Derived raws = record {
    same_id = d.same_id;
    same_seq = d.same_seq;
    same_payload = d.same_payload;
    same_audit = d.same_audit;
    same_attempts = d.same_attempts;
    progress = d.progress;
    has_plan = d.has_plan;
    kept_plan = d.kept_plan;
    one_plan = d.one_plan;
  }

  pub prepared-Derived :
      (prepared : PreparedOutbound)
      → Derived item (true, record x { planned_outbound_message = some prepared })
  prepared-Derived prepared = record {
    same_id = d.same_id;
    same_seq = d.same_seq;
    same_payload = d.same_payload;
    same_audit = d.same_audit;
    same_attempts = d.same_attempts;
    progress = d.progress;
    has_plan = d.has_plan;
    kept_plan = d.kept_plan;
    one_plan = d.one_plan;
  }
