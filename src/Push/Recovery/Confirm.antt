-- ===== src/Push/Recovery/Confirm.antt =====
-- src/push_queue/recovery.rs: recover_send and recover_drafts_append, after the checks of the item, and
-- the choice between them.
pub mod Evidence
pub mod Writes
pub mod Sends
pub mod Appends
pub mod Only
use agent_first_mail.Prelude.{
  keys, ℕ, suc, String, Bool, true, false, not, ◌&&◌, ◌||◌, Option, none, some, List, [], ◌∷◌, ◌++◌,
  is_some, str_eq, if◌then◌else◌, any, find, Map, insert, values, lookup, Result, ok, err,
  refuse_if, AppError, app_error, with_calls, opt_is,
}
use agent_first_mail.Push.Mail.{
  PreparedOutbound, PreparedEmail, OutboundDelivery, email, file, ReplyRoute, RemoteLocation,
}
use agent_first_mail.Push.Item.{PushItem, PushStepState, DraftPush, item_draft}
use agent_first_mail.Push.Session.{
  Session, Exec, Host, continue, ◌>>=◌, ◌>>◌, done, modify, now, write_item, ask,
}
use agent_first_mail.Push.Labels.{Planner}
use agent_first_mail.Push.Perform.{Services, answer, refuse, lift, prepare_current_outbound}
use agent_first_mail.Push.Recovery.{
  Uncertain, supported, unsupported, unknown_state, is_send_label, uncertain_send, uncertain_append,
  settled_done, settled_open,
}

pub data SendSettlement : Type 0 where
  sent : SendSettlement
  not_sent : SendSettlement

-- What a file on a channel, or an email, says of its delivery.
pub data Delivered : Type 0 where
  by_email : String → String → List String → Delivered
  by_file : ReplyRoute → Bool → Delivered

-- The messages found by their Message-ID in a folder.
pub record Found : Type 0 where
  pub mailbox_name : String
  pub location : Option RemoteLocation

pub data RecoveryEvidence : Type 0 where
  send_evidence : ℕ → PushStepState → Delivered → RecoveryEvidence
  append_evidence : Bool → List Found → RecoveryEvidence

pub record Report : Type 0 where
  pub push_id : String
  pub plan_id : String
  pub confirmed : Bool
  pub settlement : Option SendSettlement
  pub evidence : RecoveryEvidence
  pub previous_step_states : Option (List PushStepState)
  pub step_states : Option (List PushStepState)

-- What recovery calls. The folders with the special use Sent are those of the configuration.
pub record Inquiry (R : Type 0) : Type 0 where
  pub host : Host
  pub planner : R → Planner
  pub services : Services R
  pub sent_mailbox_ids : List String
  pub outbound_rfc822_message_id : PushItem → String
  pub find_by_message_id : Session R → String → String → Result (Option RemoteLocation) × R
  pub recovery_plan_id : R → PushItem → RecoveryEvidence → Result String
  pub append_audit_event : Session R → String → Report → Result (Unit {0}) × R
  pub refresh_outbound_push_views : Session R → Result (Unit {0}) × R

abbrev report_of :
    PushItem → Option String → Option SendSettlement → RecoveryEvidence → String → Report
report_of original confirm_plan_id settle evidence plan_id = record {
  push_id = original.push_id;
  plan_id = plan_id;
  confirmed = is_some confirm_plan_id;
  settlement = settle;
  evidence = evidence;
  previous_step_states = none;
  step_states = none;
}

pub require_matching_recovery_plan : String → String → Result (Unit {0})
require_matching_recovery_plan confirmed_plan_id plan_id =
    refuse_if (not (str_eq confirmed_plan_id plan_id)) (
      with_calls false (
        app_error "push_recovery_plan_changed"
          "the confirmed recovery plan does not match the current push item and evidence"))

abbrev pub confirmed_output : Delivered → Bool
confirmed_output (by_email id from to) = false
confirmed_output (by_file route output_confirmed) = output_confirmed

-- What settles a send: the choice, under the plan that was shown, and not against the evidence.
pub required_settlement : Option SendSettlement → String → String → Bool → Result SendSettlement
unfolding require_matching_recovery_plan
required_settlement none confirmed_plan_id plan_id output = err (
    app_error "push_recovery_settlement_required"
      "settling an uncertain send requires --sent or --not-sent")
required_settlement (some sent) confirmed_plan_id plan_id output =
    elim (require_matching_recovery_plan confirmed_plan_id plan_id) [
      | ok matching ↦ ok sent
      | err e ↦ err e
    ]
required_settlement (some not_sent) confirmed_plan_id plan_id output =
    elim (require_matching_recovery_plan confirmed_plan_id plan_id) [
      | ok matching ↦
          if output
          then err (
              app_error "push_recovery_sent_evidence_found"
                "the file output for this send exists with the exact content; it was published")
          else ok not_sent
      | err e ↦ err e
    ]

abbrev resolved : Uncertain → SendSettlement → String → PushItem
resolved u sent now = settled_done u (some "settled as sent by a person through push recover") now
resolved u not_sent now =
    settled_open u
      "settled as not sent by a person through push recover; sending requires a newly confirmed push plan"

abbrev settled_append : Uncertain → Bool → String → PushItem
settled_append u true time = settled_done u none time
settled_append u false time =
    settled_open u "explicit recovery found no Drafts or Sent copy; APPEND may be retried"

abbrev not_found : Result (Option RemoteLocation) → Result (Option RemoteLocation)
not_found (ok location) = ok location
not_found (err e) = if str_eq e.error_code "imap_uid_missing" then ok none else err e

abbrev no_folder : Map (Unit {0}) → Bool
no_folder [] = true
no_folder (entry ∷ entries) = false

distinct_folders : String → Map (Unit {0}) → Result (Unit {0})
unfolding lookup
distinct_folders drafts_folder sent_folders =
    refuse_if (no_folder sent_folders || is_some (lookup drafts_folder sent_folders)) (
      app_error "push_recovery_mailboxes_invalid"
        "recovery requires distinct resolved Drafts and Sent mailboxes")

pub no_sent_copy : List Found → Result (Unit {0})
unfolding any
no_sent_copy copies = refuse_if (any (λ (copy : Found). is_some copy.location) copies) (
    app_error "push_recovery_sent_copy_found"
      "a Sent copy exists; inspect delivery before recovering this push")

module _ {R : Type 0} (q : Inquiry R) where
  audit_and_write : String → Report → Exec R (Unit {0})
  unfolding write_item unsupported
  audit_and_write kind report = do
    draft ← λ s. (supported (item_draft s.item), s)
    ask (λ s. q.append_audit_event s kind report)
    write_item q.host
    ask q.refresh_outbound_push_views

  audit_final : String → Report → Exec R Report
  unfolding audit_and_write
  audit_final kind report s =
      let final = record report { step_states = some s.item.step_states } in
      (audit_and_write kind final >>= λ written. answer final) s

  -- The settled item, the time of the update, the audit event and the write.
  pub record_settled : String → Report → (String → PushItem) → Exec R Report
  unfolding audit_final
  record_settled kind report settled = do
    time ← now q.host
    modify (λ item. settled time)
    later ← now q.host
    modify (λ item. record item { updated_rfc3339 = later; last_error = none })
    audit_final kind report

  delivered : PreparedOutbound → OutboundDelivery → Exec R Delivered
  delivered prepared (email mail) = λ s.
      (ok (by_email (q.outbound_rfc822_message_id s.item) mail.envelope_from mail.envelope_to), s)
  delivered prepared (file route) = do
    output_confirmed ← ask (λ s. q.services.output_confirmed s prepared)
    answer (by_file route output_confirmed)

  settle_send :
      Uncertain → Option SendSettlement → Report → Delivered → Option String → Exec R Report
  unfolding required_settlement record_settled settled_done settled_open
  settle_send u settle report evidence none = answer report
  settle_send u settle report evidence (some confirmed_plan_id) = do
    choice ←
        lift
          (required_settlement settle confirmed_plan_id report.plan_id (confirmed_output evidence))
    record_settled "push_recovery_settled"
        (record report { previous_step_states = some u.item.step_states }) (resolved u choice)

  pub recover_send : PushItem → Option String → Option SendSettlement → Exec R Report
  unfolding uncertain_send prepare_current_outbound delivered settle_send
  recover_send original confirm_plan_id settle = do
    u ← λ s. (uncertain_send (q.planner s.remote) original, s)
    modify (λ item. u.item)
    prepared ← prepare_current_outbound q.services
    found ← delivered prepared prepared.delivery
    let evidence = send_evidence (suc u.index) u.state found
    plan_id ← λ s. (q.recovery_plan_id s.remote original evidence, s)
    settle_send u settle (report_of original confirm_plan_id settle evidence plan_id) found
        confirm_plan_id

  -- `lookup`: only the explicit answer that nothing is there is absence.
  pub find_copy : String → String → Exec R (Option RemoteLocation)
  find_copy folder id s =
      let (r, remote) = q.find_by_message_id s folder id in
      (not_found r, record s { remote = remote; tick = suc s.tick })

  folders_of : List String → Exec R (Map (Unit {0}))
  unfolding insert
  folders_of [] = answer []
  folders_of (id ∷ ids) = do
    folder ← ask (λ s. q.services.action_mailbox_folder s id)
    rest ← folders_of ids
    answer (insert folder tt rest)

  pub copies_in : String → List String → Exec R (List Found)
  unfolding find_copy
  copies_in id [] = answer []
  copies_in id (folder ∷ folders) = do
    location ← find_copy folder id
    rest ← copies_in id folders
    answer (record { mailbox_name = folder; location = location } ∷ rest)

  settle_append : Uncertain → Bool → Report → Option String → Exec R Report
  unfolding require_matching_recovery_plan record_settled settled_done settled_open
  settle_append u found report none = answer report
  settle_append u found report (some confirmed_plan_id) = do
    lift (require_matching_recovery_plan confirmed_plan_id report.plan_id)
    record_settled "push_recovery_checked"
        (record report { previous_step_states = some u.item.step_states }) (settled_append u found)

  -- What follows the searches: no Sent copy, the id of the plan, and the settlement.
  searched :
      PushItem
      → Option String
      → Uncertain
      → String
      → Option RemoteLocation
      → List Found
      → Exec R Report
  unfolding settle_append no_sent_copy
  searched original confirm_plan_id u drafts_folder draft_location copies = do
    lift (no_sent_copy copies)
    let evidence =
        append_evidence (is_some draft_location)
          (record { mailbox_name = drafts_folder; location = draft_location } ∷ copies)
    plan_id ← λ s. (q.recovery_plan_id s.remote original evidence, s)
    settle_append u (is_some draft_location)
        (report_of original confirm_plan_id none evidence plan_id) confirm_plan_id

  pub recover_drafts_append : PushItem → Option String → Exec R Report
  unfolding uncertain_append folders_of find_copy copies_in searched distinct_folders
  recover_drafts_append original confirm_plan_id = do
    (u, mailbox_id) ← λ s. (uncertain_append (q.planner s.remote) q.services.is_drafts original, s)
    modify (λ item. u.item)
    drafts_folder ← ask (λ s. q.services.action_mailbox_folder s mailbox_id)
    sent_folders ← folders_of q.sent_mailbox_ids
    lift (distinct_folders drafts_folder sent_folders)
    let id = q.outbound_rfc822_message_id u.item
    draft_location ← find_copy drafts_folder id
    copies ← copies_in id (keys sent_folders)
    searched original confirm_plan_id u drafts_folder draft_location copies

  abbrev send_uncertain : Option PushStepState → Bool
  send_uncertain none = false
  send_uncertain (some state) = is_send_label state.label

  recover_item : PushItem → Option String → Option SendSettlement → Exec R Report
  unfolding recover_send recover_drafts_append find
  recover_item item confirm_plan_id settle =
      if send_uncertain (find unknown_state item.step_states)
      then recover_send item confirm_plan_id settle
      else if is_some settle
      then refuse (
          app_error "push_recovery_settlement_unsupported"
            "--sent and --not-sent apply only to an uncertain send step")
      else recover_drafts_append item confirm_plan_id

  abbrev recover_found : Option PushItem → Option String → Option SendSettlement → Exec R Report
  recover_found none confirm_plan_id settle =
      refuse (app_error "push_not_found" "queued push item was not found")
  recover_found (some item) confirm_plan_id settle = recover_item item confirm_plan_id settle

  unfoldable pub recover_with_remote :
      String → Option String → Option SendSettlement → Exec R Report
  unfolding recover_item find
  recover_with_remote push_id confirm_plan_id settle s =
      recover_found (find (λ item. str_eq item.push_id push_id) (values s.queue)) confirm_plan_id
        settle s
