-- ===== src/Push/Execute.antt =====
-- src/push_queue/execute.rs: the loop over the tracked steps of one item. The remote side and the
-- local mail are reached through collaborators only.
pub mod Frame
pub mod Blocked
pub mod Durable
pub mod Present
pub mod Achieve
pub mod Complete
use Prim.Native.String.{◌++◌ as str_append}
use text.Mathlib.Text.{starts_with}
use agent_first_mail.Prelude.{
  ℕ, suc, ◌+◌, String, Bool, true, false, not, ◌&&◌, ◌||◌, Option, none, some, List, [], ◌∷◌,
  str_eq, is_some, opt_is, if◌then◌else◌, find, Map, insert, Result, ok, err, AppError, Details,
  app_error,
}
use agent_first_mail.Push.Item.{ActionStep, step_label, PushStepState, PushItem, stored, is_nil}
use agent_first_mail.Push.Session.{
  Session, Exec, Host, ◌>>=◌, ◌>>◌, done, raise, modify, now, write_item, ask,
}
use agent_first_mail.Push.Steps.{
  has_index, ensure_step_states, step_succeeded, step_remote_outcome_unknown,
  legacy_move_message_id_preflight_failed, mark_step_pending, mark_step_succeeded, mark_step_failed,
  mark_step_remote_outcome_unknown,
}

-- What the loop calls. `refresh` renews the views of the messages that a step touched, and leaves
-- the item alone. The others are the evidence that recovery asks for: whether the file output is published, the folder of a mailbox id, the message
-- ids of an append, whether a folder holds a message, and whether a completed move is proved, which
-- also records the new place of its messages.
pub record Collaborators (R : Type 0) : Type 0 where
  pub refresh : Session R → ActionStep → Result (Unit {0}) × R
  pub output_confirmed : Session R → Result Bool × R
  pub action_mailbox_folder : Session R → String → Result String × R
  pub append_rfc822_message_ids : Session R → Result (List String) × R
  pub find_by_message_id : Session R → String → String → Result Bool × R
  pub move_proved : Session R → ActionStep → String → Result Bool × R

abbrev told : Option Bool → Bool → Bool
told none b = false
told (some true) b = b
told (some false) b = not b

abbrev details_say : Option Details → Bool
details_say none = false
details_say (some d) = told d.remote_calls_started false || told d.remote_effect_rejected true

-- The error's details say that no call was made, or that the call was rejected.
unfoldable pub remote_effect_not_applied : AppError → Bool
remote_effect_not_applied e = details_say e.details

-- `err.to_string()`
abbrev pub error_text : AppError → String
error_text e = str_append e.error_code (str_append ": " e.message)

unfoldable pub remote_outcome_unknown_error : ActionStep → AppError
remote_outcome_unknown_error step = app_error "push_remote_outcome_unknown" (
    str_append "remote outcome is unknown for push step "
      (str_append (step_label step) "; refusing to retry automatically"))

unfoldable pub find_absence_is_nonfatal : AppError → Bool
find_absence_is_nonfatal e =
    str_eq e.error_code "imap_uid_missing" || str_eq e.error_code "remote_operation_unsupported"

abbrev starts_opt : Option String → String → Bool
starts_opt none prefix = false
starts_opt (some text) prefix = starts_with text prefix

move_completed_state : Option PushStepState → Bool
move_completed_state none = false
move_completed_state (some state) =
    opt_is state.error_code "imap_move_target_uid_missing"
    || (opt_is state.error_code "imap_uid_missing"
        && opt_is state.error "moved message uid was not found")
    || (opt_is state.error_code "push_remote_outcome_unknown"
        && starts_opt state.error "remote move completed without a target UID for message ")

unfoldable pub move_completed_before_target_uid_lookup_failed : PushItem → ℕ → Bool
unfolding move_completed_state find
move_completed_before_target_uid_lookup_failed item index =
    move_completed_state (find (has_index index) item.step_states)

module _ {R : Type 0} (host : Host) where
  -- A change of the step's state, the time of the update, the last error, and the write of the item.
  abbrev pub settle : (String → PushItem → PushItem) → Option String → Exec R (Unit {0})
  settle mark last_error = do
    time ← now host
    modify (mark time)
    later ← now host
    modify (λ item. record item { updated_rfc3339 = later; last_error = last_error })
    write_item host

  unfoldable pub settle_succeeded : ℕ → ActionStep → Exec R (Unit {0})
  settle_succeeded index step = settle (mark_step_succeeded index step) none

  unfoldable pub settle_failed : ℕ → ActionStep → AppError → Exec R (Unit {0})
  settle_failed index step e = settle (mark_step_failed index step e) (some (error_text e))

  unfoldable pub settle_unknown : ℕ → ActionStep → AppError → Exec R (Unit {0})
  settle_unknown index step e =
      settle (mark_step_remote_outcome_unknown index step (some e))
        (some (error_text (remote_outcome_unknown_error step)))

  -- `persist_remote_outcome_unknown`, which the executors call before a remote effect.
  unfoldable pub persist_remote_outcome_unknown : ℕ → ActionStep → Exec R (Unit {0})
  persist_remote_outcome_unknown index step =
      settle (mark_step_remote_outcome_unknown index step none) none

  unfoldable pub start_step : ℕ → ActionStep → Exec R (Unit {0})
  start_step index step = do
    time ← now host
    later ← now host
    modify (mark_step_pending index step time later)

  module _ (c : Collaborators R) where
    absent_or : Result Bool → Exec R Bool
    absent_or (ok found) s = (ok found, s)
    absent_or (err e) s = (if find_absence_is_nonfatal e then ok false else err e, s)

    find_in : String → String → Exec R Bool
    unfolding absent_or
    find_in folder id s =
        let (r, remote) = c.find_by_message_id s folder id in
        absent_or r (record s { remote = remote; tick = suc s.tick })

    find_all : String → List String → Exec R Bool
    unfolding find_in
    find_all folder [] = λ s. (ok true, s)
    find_all folder (id ∷ ids) = do
      found ← find_in folder id
      if found then find_all folder ids else λ s. (ok false, s)

    succeed_if : ℕ → ActionStep → Bool → Exec R Bool
    unfolding settle_succeeded
    succeed_if index step true = do settle_succeeded index step; λ s. (ok true, s)
    succeed_if index step false = λ s. (ok false, s)

    proved_append : String → Exec R Bool
    unfolding find_all
    proved_append mailbox_id = do
      folder ← ask (λ s. c.action_mailbox_folder s mailbox_id)
      ids ← ask c.append_rfc822_message_ids
      if is_nil ids then (λ s. (ok false, s)) else find_all folder ids

    proved_move : ℕ → ActionStep → Option String → Exec R Bool
    proved_move index step none s = (ok false, s)
    proved_move index step (some mailbox_id) s =
        if move_completed_before_target_uid_lookup_failed s.item index
        then ask (λ t. c.move_proved t step mailbox_id) s
        else (ok false, s)

    proved_mailbox : ℕ → ActionStep → Option String → Exec R Bool
    unfolding proved_append proved_move
    proved_mailbox index step (some mailbox_id) = proved_append mailbox_id
    proved_mailbox index step none = proved_move index step step.move_to_mailbox_id

    -- The evidence that an uncertain step was applied. A send by SMTP or Cloudflare has none.
    unfoldable pub outcome_proved : ℕ → ActionStep → Exec R Bool
    unfolding proved_mailbox
    outcome_proved index step =
        if is_some step.file_send
        then ask c.output_confirmed
        else proved_mailbox index step step.append_to_mailbox_id

    unfoldable pub recover_remote_outcome_unknown_step : ℕ → ActionStep → Exec R Bool
    unfolding outcome_proved succeed_if
    recover_remote_outcome_unknown_step index step = do
      proved ← outcome_proved index step
      succeed_if index step proved

    unfoldable pub refresh_step : ActionStep → Exec R (Unit {0})
    refresh_step step = ask (λ s. c.refresh s step)

    -- The branch for a step that has succeeded before.
    unfoldable pub skip_step : ActionStep → Exec R (Unit {0})
    unfolding refresh_step
    skip_step step s = if is_some s.item.local_stage then done s else refresh_step step s

    -- This exact error of an older version was recorded before any move: the step is set back.
    unfoldable pub resume_legacy : ℕ → ActionStep → Exec R (Unit {0})
    unfolding start_step
    resume_legacy index step s =
        if step_remote_outcome_unknown s.item index
          && legacy_move_message_id_preflight_failed s.item index step
        then ((do
          start_step index step
          modify (λ item. record item { last_error = none })
          write_item host)
            s)
        else done s

    recovered : ActionStep → Bool → Exec R (Unit {0})
    unfolding refresh_step
    recovered step true = refresh_step step
    recovered step false = raise (remote_outcome_unknown_error step)

    unfoldable pub recover_or_refuse : ℕ → ActionStep → Exec R (Unit {0})
    unfolding recover_remote_outcome_unknown_step recovered
    recover_or_refuse index step = do
      proved ← recover_remote_outcome_unknown_step index step
      recovered step proved

    settle_error : ℕ → ActionStep → AppError → Exec R (Unit {0})
    unfolding settle_unknown settle_failed
    settle_error index step e s =
        if step_remote_outcome_unknown s.item index && not (remote_effect_not_applied e)
        then (do settle_unknown index step e; raise (remote_outcome_unknown_error step)) s
        else (do settle_failed index step e; raise e) s

    settle_outcome : ℕ → ActionStep → Result (Unit {0}) → Exec R (Unit {0})
    unfolding settle_succeeded refresh_step settle_error
    settle_outcome index step (ok executed) = do settle_succeeded index step; refresh_step step
    settle_outcome index step (err e) = settle_error index step e

    -- `execute` is a parameter of the source, too.
    module _ (execute : ℕ → ActionStep → Exec R (Unit {0})) where
      -- The item is on disk, with the step pending, before the step is executed.
      unfoldable pub attempt_step : ℕ → ActionStep → Exec R (Unit {0})
      unfolding start_step settle_outcome
      attempt_step index step = do
        start_step index step
        write_item host
        λ s. let (r, s') = execute index step s in settle_outcome index step r s'

      recover_or_attempt : ℕ → ActionStep → Exec R (Unit {0})
      unfolding recover_or_refuse attempt_step
      recover_or_attempt index step s =
          if step_remote_outcome_unknown s.item index
          then recover_or_refuse index step s
          else attempt_step index step s

      unfoldable pub run_step : ℕ → ActionStep → Exec R (Unit {0})
      unfolding skip_step resume_legacy recover_or_attempt
      run_step index step s =
          if step_succeeded s.item index
          then skip_step step s
          else (do resume_legacy index step; recover_or_attempt index step) s

      unfoldable pub run_steps : ℕ → List ActionStep → Exec R (Unit {0})
      unfolding run_step
      run_steps index [] = done
      run_steps index (step ∷ steps) = do run_step index step; run_steps (index + 1) steps

      unfoldable pub execute_tracked_steps : List ActionStep → Exec R (Unit {0})
      unfolding run_steps
      execute_tracked_steps steps = do
        modify (λ item. ensure_step_states item steps)
        run_steps 0 steps
