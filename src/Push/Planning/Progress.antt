-- ===== src/Push/Planning/Progress.antt =====
-- src/push_queue/mod.rs: planning derives the planned item from the queued one.
use agent_first_mail.Prelude.{
  String, ◌≡◌, refl, true, Option, none, some, List, [], Result, ◌>>=◌, OnOk, bind-OnOk, ok-OnOk,
  err-OnOk, Bool-cases, inl, inr, any, is_some,
}
use agent_first_mail.Push.Item.{
  ActionStep, draft_removed, PushAuditPending, OutboundAction, send, MessagePushAction,
  MessageActionPush, DraftPush, PushPayload, draft, message, PushItem, has_started_effects,
}
use agent_first_mail.Push.Finalize.{local_stage_at_least}
use agent_first_mail.Push.Labels.{
  DraftFrontmatter, queued_draft, Planner, filter_reply_to_steps, reset_progress_if_plan_changed,
}
use agent_first_mail.Push.Labels.Reset.{reset_progress-KeptOrCleared}
use agent_first_mail.Push.Planning.{
  Planned, hydrate_audit_pending_plan, audited_plan, audited_outbound, audited_action, from_kind,
  outbound_named, message_plan, with_raw, read_all, steps_of, plan_message, unplanned_draft,
  prepared_for, plan_intended, plan_intent, plan_draft, plan_payload, plan_audited, plan_item,
}
use agent_first_mail.Push.Planning.Derived.{
  Derived, with_outbound, with_action, with_outbound-Derived, with_action-Derived, reset-Derived,
  dropped-Derived, raws-Derived, prepared-Derived,
}

module _ (planner : Planner) (item : PushItem) where
  with_raw-Derived :
      (x : PushItem) (steps : List ActionStep)
      → Derived item (true, x)
      → OnOk (Derived item) (with_raw planner x steps)
  unfolding with_raw
  with_raw-Derived x steps d =
      elim (Bool-cases (any (λ step. is_some step.append_to_mailbox_id) steps)) [
        | inl appends ↦ rw appends (
            bind-OnOk (Derived item) (read_all planner _ x.planned_message_rfc822) _
              λ raws e. ok-OnOk (Derived item) _ (raws-Derived item x d raws))
        | inr plain ↦ rw plain (ok-OnOk (Derived item) (true, x) d)
      ]

  -- After the progress is checked against a plan.
  after_reset :
      (planned : PushItem) (f : PushItem → Result Planned)
      → has_started_effects planned ≡ has_started_effects item
      → Derived item (true, planned)
      → ((kept : PushItem) → Derived item (true, kept) → OnOk (Derived item) (f kept))
      → OnOk (Derived item) (reset_progress_if_plan_changed planner planned >>= f)
  after_reset planned f same d h =
      bind-OnOk (Derived item) (reset_progress_if_plan_changed planner planned) f λ kept e. h kept (
        reset-Derived item planned kept same
          ((reset_progress-KeptOrCleared planner planned).at kept e) d)

  plan_message-Derived :
      (plan : Option MessageActionPush) → OnOk (Derived item) (plan_message planner item plan)
  unfolding plan_message
  plan_message-Derived none = elim (Bool-cases (has_started_effects item)) [
    | inl started ↦ rw started (err-OnOk (Derived item) _)
    | inr idle ↦ rw idle (ok-OnOk (Derived item) _ (dropped-Derived item _ idle (inr refl)))
  ]
  plan_message-Derived (some action) =
      after_reset (with_action item action) _ refl (with_action-Derived item action)
        λ kept d. with_raw-Derived kept (steps_of kept.planned_message_action) d

  unplanned_draft-Derived : OnOk (Derived item) (unplanned_draft item)
  unfolding unplanned_draft
  unplanned_draft-Derived = elim (Bool-cases (has_started_effects item)) [
    | inl started ↦ rw started (err-OnOk (Derived item) _)
    | inr idle ↦ rw idle (ok-OnOk (Derived item) _ (dropped-Derived item item idle (inl refl)))
  ]

  plan_intended-Derived :
      (d : DraftPush) (action : OutboundAction) (reply_to : Option String)
      → OnOk (Derived item) (plan_intended planner item d action reply_to)
  unfolding plan_intended
  plan_intended-Derived d action reply_to =
      bind-OnOk (Derived item)
        (filter_reply_to_steps planner (with_outbound item (queued_draft action d [] reply_to))
          (planner.configured_outbound_steps action))
        _
        λ steps e.
          let outbound = queued_draft action d steps reply_to in
          after_reset (with_outbound item outbound) _ refl (with_outbound-Derived item outbound)
            λ kept k.
              bind-OnOk (Derived item) (prepared_for planner kept kept.planned_outbound_message) _
                λ prepared h. ok-OnOk (Derived item) _ (prepared-Derived item kept k prepared)

  plan_intent-Derived :
      (d : DraftPush) (o : Option OutboundAction) (reply_to : Option String)
      → OnOk (Derived item) (plan_intent planner item d o reply_to)
  unfolding plan_intent
  plan_intent-Derived d none reply_to = unplanned_draft-Derived
  plan_intent-Derived d (some action) reply_to = plan_intended-Derived d action reply_to

  plan_draft-Derived :
      (d : DraftPush) (found : Option DraftFrontmatter)
      → OnOk (Derived item) (plan_draft planner item d found)
  unfolding plan_draft
  plan_draft-Derived d none = elim (Bool-cases (local_stage_at_least draft_removed item)) [
    | inl removed ↦
        rw removed
          (ok-OnOk (Derived item) _ (with_outbound-Derived item (queued_draft send d [] none)))
    | inr there ↦ rw there unplanned_draft-Derived
  ]
  plan_draft-Derived d (some found) =
      plan_intent-Derived d found.sync_intent found.reply_to_message_id

  plan_payload-Derived : (p : PushPayload) → OnOk (Derived item) (plan_payload planner item p)
  unfolding plan_payload
  plan_payload-Derived (message m) =
      bind-OnOk (Derived item) (message_plan planner item m) _ λ plan e. plan_message-Derived plan
  plan_payload-Derived (draft d) =
      bind-OnOk (Derived item) (planner.draft_frontmatter d.case_uid d.draft_name) _
        λ found e. plan_draft-Derived d found

  abbrev Audited : PushItem → Type 0
  Audited x = Derived item (true, x)

  audited_action-Derived :
      (pending : PushAuditPending) (o : Option MessagePushAction)
      → OnOk Audited (audited_action item pending o)
  unfolding audited_action
  audited_action-Derived pending none = err-OnOk Audited _
  audited_action-Derived pending (some action) = ok-OnOk Audited _ (with_action-Derived item _)

  audited_plan-Derived :
      (pending : PushAuditPending) (a b c : Option String)
      → OnOk Audited (audited_plan item pending a b c)
  unfolding audited_plan audited_outbound
  audited_plan-Derived pending (some case_uid) (some draft_name) (some name) =
      bind-OnOk Audited (outbound_named name) _
        λ action e. ok-OnOk Audited _ (with_outbound-Derived item _)
  audited_plan-Derived pending none b c =
      audited_action-Derived pending (from_kind pending.push_kind)
  audited_plan-Derived pending (some case_uid) none c =
      audited_action-Derived pending (from_kind pending.push_kind)
  audited_plan-Derived pending (some case_uid) (some draft_name) none =
      audited_action-Derived pending (from_kind pending.push_kind)

  plan_audited-Derived :
      (o : Option PushAuditPending) → OnOk (Derived item) (plan_audited planner item o)
  unfolding plan_audited hydrate_audit_pending_plan
  plan_audited-Derived none = plan_payload-Derived item.payload
  plan_audited-Derived (some pending) =
      bind-OnOk (Derived item) (hydrate_audit_pending_plan item pending) _ λ planned e.
        ok-OnOk (Derived item) _ (
          (audited_plan-Derived pending pending.case_uid pending.draft_name pending.action).at
            planned e)

  -- Planning an item gives an error, or the item with its id, sequence number, payload, audit event
  -- and count of attempts as they were. If its effects have started, it is planned, and its step
  -- states and its local stage are as they were. A planned item has the plan of an outbound draft or
  -- that of a message action; if it had no plan before, not both.
  pub plan_item-Derived : OnOk (Derived item) (plan_item planner item)
  unfolding plan_item
  plan_item-Derived = plan_audited-Derived item.audit_pending
