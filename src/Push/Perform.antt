-- ===== src/Push/Perform.antt =====
-- src/push_queue/execute.rs: the executors of one step. What they read, and the effects that a step
-- must not repeat, are two records of calls; a call is given the session as it finds it.
pub mod Executors
pub mod Still
pub mod MoveProof
mod Tests
pub mod Samples
use Prim.Native.String.{◌++◌ as str_append}
use agent_first_mail.Prelude.{
  ℕ, suc, ◌+◌, String, Bool, true, false, not, ◌&&◌, ◌||◌, Option, none, some, List, [], ◌∷◌, ◌++◌,
  ◌==◌, str_eq, is_some, if◌then◌else◌, any, find, retain, update_first, Map, lookup, insert,
  Result, ok, err, AppError, Details, app_error,
}
use agent_first_mail.Push.Mail.{
  Bytes, PreparedEmail, PreparedOutbound, prepared_email, is_file, RemoteLocation, MessageFile,
  opt_eq, same_place,
}
use agent_first_mail.Push.Item.{
  ActionStep, ActionStepOn, reply_to_message, is_send, is_nil, SendReceipt, PushStepState,
  PushLocation, OutboundPush, PushItem, message_ids, item_locations, item_reply_to,
}
use agent_first_mail.Push.Steps.{has_index}
use agent_first_mail.Push.Session.{Session, Exec, Host, continue, ◌>>=◌, ◌>>◌, done, modify, ask}
use agent_first_mail.Push.Execute.{persist_remote_outcome_unknown}

pub record Services (R : Type 0) : Type 0 where
  pub prepare_outbound : Session R → Result PreparedOutbound × R
  pub output_confirmed : Session R → PreparedOutbound → Result Bool × R
  pub prepare_cloudflare_send : Session R → PreparedOutbound → Result (Unit {0}) × R
  pub validate_smtp_send_attempt : Session R → PreparedOutbound → Result (Unit {0}) × R
  pub prepare_send : Session R → PreparedEmail → Result (Unit {0}) × R
  pub action_mailbox_folder : Session R → String → Result String × R
  pub is_drafts : String → Bool
  pub draft_reply_to : Session R → OutboundPush → Result (Option String) × R
  pub message_remote_locations_any : Session R → String → Result (List PushLocation) × R
  pub read_message_by_id : Session R → String → Result MessageFile × R
  pub read_message_eml : Session R → String → Result Bytes × R
  pub add_flags : Session R → PushLocation → List String → Result (Unit {0}) × R
  pub add_remote_flags : Session R → PushLocation → List String → Result (Unit {0}) × R
  pub relocate_message : Session R → String → List RemoteLocation → Result (Unit {0}) × R

-- To repeat one of these would send, publish, append or move once more.
pub record Effects (R : Type 0) : Type 0 where
  pub publish : Session R → PreparedOutbound → Result (Unit {0}) × R
  pub send_cloudflare_raw_message : Session R → PreparedOutbound → Result SendReceipt × R
  pub send_raw_message : Session R → PreparedEmail → Result (Unit {0}) × R
  pub append_message : Session R → String → Bytes → Bool → Result (Unit {0}) × R
  pub move_message :
      Session R → PushLocation → String → Option String → Result (Option RemoteLocation) × R

abbrev pub push_item_invalid : String → AppError
push_item_invalid = app_error "push_item_invalid"

abbrev pub details_with : Option Bool → Option Bool → Option Details
details_with started rejected =
    some (record { remote_calls_started = started; remote_effect_rejected = rejected })

abbrev clear_rejected : Option Details → Option Details
clear_rejected none = none
clear_rejected (some d) = some (record d { remote_effect_rejected = none })

unfoldable pub rejection_after_applied_effect : AppError → AppError
rejection_after_applied_effect e = record e { details = clear_rejected e.details }

abbrev pub matches_push : RemoteLocation → PushLocation → Bool
matches_push existing planned =
    str_eq existing.mailbox_name planned.mailbox_name
    && opt_eq existing.uid_validity (some planned.uid_validity)
    && opt_eq existing.uid (some planned.uid)

unfoldable pub already_moved : List RemoteLocation → PushLocation → String → Bool
unfolding any
already_moved existing source target =
    not (any (λ place. matches_push place source) existing)
    && any (λ place. str_eq place.mailbox_name target) existing

abbrev is_active_place : RemoteLocation → Bool
is_active_place place = not (is_some place.missing_rfc3339)

-- What `execute_move` knows of its messages: their Message-IDs, and their active places.
pub record Places : Type 0 where
  pub rfc822_ids : Map (Option String)
  pub active : Map (List RemoteLocation)

-- The places of a moved message: without the source, and with the target once.
moved_places : PushLocation → RemoteLocation → List RemoteLocation → List RemoteLocation
unfolding any retain
moved_places source target existing =
    let left = retain (λ place. not (matches_push place source)) existing in
    if any (λ place. same_place place target) left then left else left ++ target ∷ []

add_message : String → MessageFile → Places → Places
unfolding retain
add_message id message places = record {
  rfc822_ids = insert id message.rfc822_message_id places.rfc822_ids;
  active = insert id (retain is_active_place message.locations) places.active;
}

moved_at : Option (List RemoteLocation) → PushLocation → String → Bool
moved_at none source target = false
moved_at (some existing) source target = already_moved existing source target

module _ {R : Type 0} where
  abbrev pub answer : {A : Type 0} → A → Exec R A
  answer a s = (ok a, s)

  abbrev pub refuse : {A : Type 0} → AppError → Exec R A
  refuse e s = (err e, s)

  abbrev pub lift : {A : Type 0} → Result A → Exec R A
  lift r s = (r, s)

  pub require : {A : Type 0} → AppError → Option A → Exec R A
  require e none = refuse e
  require e (some a) = answer a

  module _ (services : Services R) where
    reply_to_of_draft : OutboundPush → Exec R String
    unfolding require
    reply_to_of_draft outbound = do
      reply_to ← ask (λ s. services.draft_reply_to s outbound)
      require (push_item_invalid "reply_to_message action has no reply_to_message_id") reply_to

    reply_to_message_id : Option String → Option OutboundPush → Exec R String
    unfolding reply_to_of_draft require
    reply_to_message_id (some id) outbound = answer id
    reply_to_message_id none outbound = do
      draft ←
          require (push_item_invalid "reply_to_message action has no reply_to_message_id") outbound
      reply_to_of_draft draft

    locations_on : Option ActionStepOn → Exec R (List PushLocation)
    unfolding reply_to_message_id
    locations_on none s = (ok (item_locations s.item), s)
    locations_on (some reply_to_message) s =
        (do
          id ← reply_to_message_id (item_reply_to s.item) s.item.planned_outbound
          ask (λ t. services.message_remote_locations_any t id))
          s

    unfoldable pub action_locations : ActionStep → Exec R (List PushLocation)
    unfolding locations_on
    action_locations step = locations_on step.on

    add_all : List String → List PushLocation → Exec R (Unit {0})
    add_all flags [] = done
    add_all flags (location ∷ locations) = do
      ask (λ s. services.add_flags s location flags)
      ask (λ s. services.add_remote_flags s location flags)
      add_all flags locations

    unfoldable pub execute_add_flags : ActionStep → Exec R (Unit {0})
    unfolding action_locations add_all
    execute_add_flags step =
        if is_nil step.add_flags
        then done
        else do locations ← action_locations step; add_all step.add_flags locations

    read_one : String → Places → Option (List RemoteLocation) → Exec R Places
    unfolding add_message
    read_one id places (some known) = answer places
    read_one id places none = do
      message ← ask (λ s. services.read_message_by_id s id)
      answer (add_message id message places)

    pub read_places : List String → Places → Exec R Places
    unfolding read_one
    read_places [] places = answer places
    read_places (id ∷ ids) places = do
      more ← read_one id places (lookup id places.active)
      read_places ids more

    planned_raw : String → Option Bytes → Exec R Bytes
    planned_raw id (some raw) = answer raw
    planned_raw id none = ask (λ s. services.read_message_eml s id)

    pub raw_of : String → Exec R Bytes
    unfolding planned_raw
    raw_of id s = planned_raw id (lookup id s.item.planned_message_rfc822) s

    planned_or_prepared : Option PreparedOutbound → Exec R PreparedOutbound
    planned_or_prepared (some prepared) = answer prepared
    planned_or_prepared none = ask services.prepare_outbound

    -- `prepare_current_outbound`, after the test that the item is outbound
    unfoldable pub prepare_current_outbound : Exec R PreparedOutbound
    unfolding planned_or_prepared
    prepare_current_outbound s = planned_or_prepared s.item.planned_outbound_message s

    -- The answer of a move is recorded at once.
    relocate :
        PushLocation → Places → Option RemoteLocation → Option (List RemoteLocation) → Exec R Places
    unfolding moved_places
    relocate location places none existing = refuse (
        app_error "imap_move_target_uid_missing" (
          str_append "remote move succeeded but the target UID was not returned for message "
            location.message_id))
    relocate location places (some target) none = refuse (
        app_error "message_not_found"
          (str_append "message not found during remote relocation: " location.message_id))
    relocate location places (some target) (some existing) =
        let moved = moved_places location target existing in
        do
          ask (λ s. services.relocate_message s location.message_id moved)
          answer (record places { active = insert location.message_id moved places.active })

    abbrev needs_move : String → PushLocation → Places → Bool
    needs_move target location places =
        not (str_eq location.mailbox_name target)
        && not (moved_at (lookup location.message_id places.active) location target)

    module _ (effects : Effects R) where
      move_known : String → PushLocation → Places → Option (Option String) → Exec R Places
      unfolding relocate
      move_known target location places none =
          refuse (app_error "message_not_found" "message not found during remote relocation")
      move_known target location places (some rfc822_id) = do
        outcome ← ask (λ s. effects.move_message s location target rfc822_id)
        relocate location places outcome (lookup location.message_id places.active)

      pub move_one : String → PushLocation → Places → Exec R Places
      unfolding move_known moved_at already_moved
      move_one target location places =
          if needs_move target location places
          then move_known target location places (lookup location.message_id places.rfc822_ids)
          else answer places

      pub move_all : String → List PushLocation → Places → Exec R (Unit {0})
      unfolding move_one
      move_all target [] places = done
      move_all target (location ∷ locations) places = do
        moved ← move_one target location places
        move_all target locations moved

      move_listed : List PushLocation → String → Exec R (Unit {0})
      unfolding read_places move_all
      move_listed locations mailbox_id s =
          (do
            places ← read_places (message_ids s.item) (record { rfc822_ids = []; active = [] })
            target ← ask (λ t. services.action_mailbox_folder t mailbox_id)
            move_all target locations places)
            s

      unfoldable pub execute_move : List PushLocation → String → Exec R (Unit {0})
      unfolding move_listed message_ids
      execute_move locations mailbox_id =
          if is_nil locations then done else move_listed locations mailbox_id
