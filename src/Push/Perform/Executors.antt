-- ===== src/Push/Perform/Executors.antt =====
-- src/push_queue/execute.rs: execute_message_step and execute_outbound_step. Each effect comes after
-- `persist_remote_outcome_unknown`.
pub mod Marked
pub mod Moves
pub mod Ordered
pub mod Quiet
pub mod Own
pub mod Replay
pub mod Finished
use agent_first_mail.Prelude.{
  ℕ, String, Bool, true, false, not, ◌||◌, Option, none, some, List, [], ◌∷◌, str_eq, is_some,
  if◌then◌else◌, any, find, update_first, Result, ok, err, AppError, app_error,
}
use agent_first_mail.Push.Mail.{Bytes, PreparedOutbound, prepared_email, is_file}
use agent_first_mail.Push.Item.{
  ActionStep, is_send, is_nil, SendReceipt, PushStepState, PushLocation, OutboundPush, PushItem,
  message_ids,
}
use agent_first_mail.Push.Steps.{has_index, update_state}
use agent_first_mail.Push.Session.{Session, Exec, Host, continue, ◌>>=◌, ◌>>◌, done, modify, ask}
use agent_first_mail.Push.Execute.{persist_remote_outcome_unknown}
use agent_first_mail.Push.Perform.{
  Services, Effects, push_item_invalid, details_with, rejection_after_applied_effect, answer,
  refuse, lift, require, action_locations, execute_add_flags, execute_move, raw_of,
  prepare_current_outbound,
}

-- The error of an append, after an earlier append of the same step or as the first one.
soften : Bool → Result (Unit {0}) → Result (Unit {0})
soften again (ok done) = ok done
soften again (err e) = err (if again then rejection_after_applied_effect e else e)

abbrev accepted : SendReceipt → Bool
accepted receipt = not (is_nil receipt.delivered) || not (is_nil receipt.queued)

abbrev not_accepted : AppError
not_accepted =
    record (app_error "cloudflare_send_no_recipients_accepted"
      "Cloudflare reported no accepted recipients; inspect the send receipt") {
        details = details_with none (some true);
      }

abbrev no_file_route : AppError
no_file_route =
    record (app_error "channel_operation_unsupported"
      "file_send requires a draft with a file reply route") {
        details = details_with (some false) none;
      }

module _ {R : Type 0} where
  mark_once : Host → Bool → ℕ → ActionStep → Exec R (Unit {0})
  unfolding persist_remote_outcome_unknown
  mark_once host true index step = done
  mark_once host false index step = persist_remote_outcome_unknown host index step

  abbrev refuse_send : Bool → Exec R (Unit {0})
  refuse_send true =
      refuse (push_item_invalid "send operations are only valid for outbound push items")
  refuse_send false = done

  keep_receipt : ℕ → SendReceipt → Option PushStepState → Exec R (Unit {0})
  unfolding update_first
  keep_receipt index receipt none = refuse (push_item_invalid "send step state is missing")
  keep_receipt index receipt (some state) = do
    modify (update_state index (λ found. record found { send_receipt = some receipt }))
    if accepted receipt then done else refuse not_accepted

  require_outbound : Exec R OutboundPush
  unfolding require
  require_outbound s =
      require (push_item_invalid "push item is not outbound") s.item.planned_outbound s

  abbrev perform_if : Bool → Exec R (Unit {0}) → Exec R (Unit {0})
  perform_if true m = m
  perform_if false m = done

module _ {R : Type 0} (host : Host) (services : Services R) (effects : Effects R) where
  abbrev Executor : Type 0
  Executor = ℕ → ActionStep → Exec R (Unit {0})

  append_one : String → Bytes → Bool → Exec R (Unit {0})
  unfolding soften
  append_one folder raw again =
      ask (λ s.
        let (r, remote) = effects.append_message s folder raw false in (soften again r, remote))

  -- `again` is `marked_unknown` at the mark, and `appended_any` at the append: both become true in the
  -- first turn, or the loop is left.
  append_all : ℕ → ActionStep → String → Bool → List String → Exec R (Unit {0})
  unfolding mark_once append_one
  append_all index step folder again [] = done
  append_all index step folder again (id ∷ ids) = do
    raw ← raw_of services id
    mark_once host again index step
    append_one folder raw again
    append_all index step folder true ids

  pub append_messages : ℕ → ActionStep → Option String → Exec R (Unit {0})
  unfolding append_all
  append_messages index step none = done
  append_messages index step (some mailbox_id) = do
    folder ← ask (λ s. services.action_mailbox_folder s mailbox_id)
    λ s. append_all index step folder false (message_ids s.item) s

  -- A step none of whose locations would move is not marked.
  pub move_messages : ℕ → ActionStep → Option String → Exec R (Unit {0})
  unfolding any mark_once
  move_messages index step none = done
  move_messages index step (some mailbox_id) = do
    locations ← action_locations services step
    target ← ask (λ s. services.action_mailbox_folder s mailbox_id)
    mark_once host (not (any (λ (l : PushLocation). not (str_eq l.mailbox_name target)) locations))
        index step
    execute_move services effects locations mailbox_id

  unfoldable pub execute_message_step : Executor
  unfolding move_messages append_messages
  execute_message_step index step = do
    execute_add_flags services step
    move_messages index step step.move_to_mailbox_id
    append_messages index step step.append_to_mailbox_id
    refuse_send (is_send step)

  publish_marked : ℕ → ActionStep → PreparedOutbound → Exec R (Unit {0})
  publish_marked index step prepared = do
    ask (λ s. services.output_confirmed s prepared)
    persist_remote_outcome_unknown host index step
    ask (λ s. effects.publish s prepared)

  pub send_file : ℕ → ActionStep → PreparedOutbound → Exec R (Unit {0})
  unfolding publish_marked
  send_file index step prepared =
      if is_file prepared.delivery then publish_marked index step prepared else refuse no_file_route

  pub send_cloudflare : ℕ → ActionStep → PreparedOutbound → Exec R (Unit {0})
  unfolding keep_receipt find
  send_cloudflare index step prepared = do
    ask (λ s. services.prepare_cloudflare_send s prepared)
    persist_remote_outcome_unknown host index step
    receipt ← ask (λ s. effects.send_cloudflare_raw_message s prepared)
    λ s. keep_receipt index receipt (find (has_index index) s.item.step_states) s

  pub send_smtp : ℕ → ActionStep → PreparedOutbound → Exec R (Unit {0})
  send_smtp index step prepared = do
    ask (λ s. services.validate_smtp_send_attempt s prepared)
    mail ← lift (prepared_email prepared)
    ask (λ s. services.prepare_send s mail)
    persist_remote_outcome_unknown host index step
    ask (λ s. effects.send_raw_message s mail)

  pub append_prepared : ℕ → ActionStep → PreparedOutbound → Option String → Exec R (Unit {0})
  append_prepared index step prepared none = done
  append_prepared index step prepared (some mailbox_id) = do
    folder ← ask (λ s. services.action_mailbox_folder s mailbox_id)
    persist_remote_outcome_unknown host index step
    ask (λ s. effects.append_message s folder prepared.raw (services.is_drafts mailbox_id))

  unfoldable pub execute_outbound_step : Executor
  unfolding require_outbound send_file send_cloudflare send_smtp append_prepared
  execute_outbound_step index step = do
    require_outbound
    prepared ← prepare_current_outbound services
    perform_if (is_some step.file_send) (send_file index step prepared)
    perform_if (is_some step.cloudflare_send) (send_cloudflare index step prepared)
    perform_if (is_some step.smtp_send) (send_smtp index step prepared)
    append_prepared index step prepared step.append_to_mailbox_id
    execute_add_flags services step
    perform_if (is_some step.move_to_mailbox_id) (execute_message_step index step)
