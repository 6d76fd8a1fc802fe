-- ===== src/Push/Finalize/Once.antt =====
-- src/push_queue/mod.rs: the work of a local stage is not started once the stage is recorded.
use agent_first_mail.Prelude.{
  ◌≡◌, Option, none, some, Result, err, AppError, Bool-cases, inl, inr, if◌then◌else◌, String,
}
use agent_first_mail.Push.Item.{
  PushLocalStage, outbound_recorded, draft_removed, pending_cleared, OutboundPush, PushItem,
}
use agent_first_mail.Push.Session.{Session, Exec, Host, ◌>>◌, ask}
use agent_first_mail.Push.Perform.Still.{Same, Same-refl, Same-bind}
use agent_first_mail.Push.Finalize.{
  LocalWork, local_stage_at_least, unless_at, advance_local_stage, record_stage, remove_stage,
  clear_stage, prepare_push_audit_pending, outbound_stages, outbound_stages_at,
  finalize_pushed_item,
}

abbrev refuse_after :
    {R : Type 0}
    → AppError
    → PushLocalStage
    → (Session R → Result (Unit {0}) × R)
    → Session R
    → Result (Unit {0}) × R
refuse_after e stage call s =
    if local_stage_at_least stage s.item then (err e, s.remote) else call s

-- The work that fails with `e` where its stage is recorded already.
unfoldable pub only_missing : {R : Type 0} → AppError → LocalWork R → LocalWork R
only_missing e work = record work {
  record_outbound_after_push = refuse_after e outbound_recorded work.record_outbound_after_push;
  remove_outbound_draft_after_push =
      refuse_after e draft_removed work.remove_outbound_draft_after_push;
  clear_pending_push_item = refuse_after e pending_cleared work.clear_pending_push_item;
}

module _ {R : Type 0} (host : Host) (display_kind : PushItem → String) (work : LocalWork R)
    (e : AppError) where
  -- Under its test, work and refusing work are the same.
  missing-Same :
      (stage : PushLocalStage) (call : Session R → Result (Unit {0}) × R) (rest : Exec R (Unit {0}))
      → Same
          (unless_at (local_stage_at_least stage) (ask call >> rest))
          (unless_at (local_stage_at_least stage) (ask (refuse_after e stage call) >> rest))
  missing-Same stage call rest = record {
    at = λ s. elim (Bool-cases (local_stage_at_least stage s.item)) [
      | inl reached ↦ rw reached
      | inr missing ↦ rw missing (rw missing)
    ];
  }

  outbound_stages-Same :
      (o : Option OutboundPush)
      → Same
          (outbound_stages host display_kind work o)
          (outbound_stages host display_kind (only_missing e work) o)
  unfolding outbound_stages record_stage remove_stage only_missing advance_local_stage
  outbound_stages-Same none = Same-refl _
  outbound_stages-Same (some outbound) =
      Same-bind _ _ _ _
        (missing-Same outbound_recorded work.record_outbound_after_push (
          advance_local_stage host display_kind work outbound_recorded
          >> ask work.refresh_outbound_push_views))
        λ a. missing-Same draft_removed work.remove_outbound_draft_after_push (
          advance_local_stage host display_kind work draft_removed
          >> ask work.refresh_outbound_push_views)

  -- The outbound record, the removal of the draft and the clearing of the pending push are started
  -- only for an item whose local stage does not have them yet: with work that fails there, whatever
  -- the error, a finalization is the same, after a crash between two stages too.
  pub finalize_only_missing :
      (s : Session R)
      → finalize_pushed_item host display_kind work s
        ≡ finalize_pushed_item host display_kind (only_missing e work) s
  unfolding finalize_pushed_item only_missing clear_stage advance_local_stage outbound_stages_at
  finalize_only_missing s =
      (Same-bind _ _ _ _
          (Same-refl (advance_local_stage host display_kind work PushLocalStage.remote_succeeded))
          λ a.
            Same-bind _ _ _ _
              (record { at = λ t. (outbound_stages-Same t.item.planned_outbound).at t })
              λ b.
                Same-bind _ _ _ _
                  (missing-Same pending_cleared work.clear_pending_push_item (
                    advance_local_stage host display_kind work pending_cleared
                    >> ask work.refresh_message_push_views))
                  λ c. Same-refl (prepare_push_audit_pending host display_kind work)).at
        s
