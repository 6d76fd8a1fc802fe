-- ===== src/Push/Run/Loop.antt =====
-- src/push_queue/mod.rs: push_with_progress, its loop over the items and its counts.
pub mod Counts
pub mod Stop
use agent_first_mail.Prelude.{
  ℕ, suc, ◌+◌, ◌%◌, ◌-◌, String, Bool, true, false, ◌||◌, Option, none, some, List, [], ◌∷◌, length,
  ltb, ◌==◌, is_some, if◌then◌else◌, any, Map, Result, ok, err, AppError,
}
use agent_first_mail.Push.Item.{
  is_unknown, PushAuditPending, OutboundPush, PushItem, succeeded_step_count,
}
use agent_first_mail.Push.Session.{
  Session, Exec, Host, continue, ◌>>=◌, ◌>>◌, done, modify, now, write_item, ask,
}
use agent_first_mail.Push.Execute.{error_text}
use agent_first_mail.Push.Build.{
  ResolvedPushPlan, Disk, build_push_plan, require_matching_push_plan, reconcile_push_plan,
}
use agent_first_mail.Push.Run.{
  Surroundings, Parts, push_item, complete_successful_push_audit, require_compiled_send_features,
}

-- The counts of a run, the ids of the items that were pushed, and of the one that failed whether it
-- was applied in part and which records of the failure could not be written.
pub record Failure : Type 0 where
  pub push_id : String
  pub error : AppError
  pub partially_applied : Bool
  pub state_persistence_failures : List String

pub record Tally : Type 0 where
  pub pushed : ℕ
  pub failed : ℕ
  pub partially_applied : ℕ
  pub audit_pending_count : ℕ
  pub audit_warnings : ℕ
  pub stopped_after_failure : Bool
  pub unattempted_count : ℕ
  pub succeeded_items : List String
  pub failures : List Failure

abbrev pub empty : Tally
empty = record {
  pushed = 0;
  failed = 0;
  partially_applied = 0;
  audit_pending_count = 0;
  audit_warnings = 0;
  stopped_after_failure = false;
  unattempted_count = 0;
  succeeded_items = [];
  failures = [];
}

snoc : {A : Type 0} → List A → A → List A
snoc [] a = a ∷ []
snoc (x ∷ xs) a = x ∷ snoc xs a

abbrev noted : AppError → Option PushAuditPending → Option PushAuditPending
noted e none = none
noted e (some pending) = some (record pending { last_error = some (error_text e) })

unfoldable pub item_partially_applied : PushItem → Bool
unfolding any succeeded_step_count
item_partially_applied item =
    ltb 0 (succeeded_step_count item)
    || is_some item.local_stage
    || any (λ state. is_unknown state.status) item.step_states

abbrev stop : ℕ → Tally → Tally
stop unattempted t = record t { stopped_after_failure = true; unattempted_count = unattempted }

abbrev one_if : Bool → ℕ
one_if true = 1
one_if false = 0

abbrev failed_stage : {A : Type 0} → String → Result A → List String → List String
failed_stage stage (ok a) later = later
failed_stage stage (err e) later = stage ∷ later

abbrev attempt_failed : {R : Type 0} → Option AppError → Exec R (Unit {0}) → Exec R (Unit {0})
attempt_failed none m = m
attempt_failed (some e) m = λ s. (err e, s)

module _ {R : Type 0} (p : Parts R) where
  -- A failed audit of a success is noted in the item, if that can be written.
  note_audit_error : AppError → Exec R (Unit {0})
  unfolding write_item
  note_audit_error e = do
    modify (λ item. record item {
      audit_pending = noted e item.audit_pending;
      last_error = some (error_text e);
    })
    write_item p.host

  audited : Tally → Result (Unit {0}) → Session R → Tally × Session R
  unfolding snoc note_audit_error
  audited t (ok finished) s = (
    record t { pushed = t.pushed + 1; succeeded_items = snoc t.succeeded_items s.item.push_id },
    s,
  )
  audited t (err e) s = (
    record t {
      pushed = t.pushed + 1;
      succeeded_items = snoc t.succeeded_items s.item.push_id;
      audit_warnings = t.audit_warnings + 1;
      audit_pending_count = t.audit_pending_count + 1;
    },
    (note_audit_error e s).1,
  )

  -- After the push of an item: its audit, and a stop if that is still pending.
  stop_if_pending : ℕ → Tally × Session R → Tally × Session R
  stop_if_pending unattempted (t, s) =
      if is_some s.item.audit_pending then (stop unattempted t, s) else (t, s)

  item_pushed : ℕ → Tally → Session R → Tally × Session R
  unfolding audited stop_if_pending complete_successful_push_audit
  item_pushed unattempted t s =
      let (r, s') = complete_successful_push_audit p s in
      stop_if_pending unattempted (audited t r s')

  -- After the failure of an item: the event, the attempt and the error of the item, their writes,
  -- and the stop.
  item_failed : ℕ → AppError → Tally → Session R → Tally × Session R
  unfolding item_partially_applied snoc write_item
  item_failed unattempted e t s =
      let partial = item_partially_applied s.item in
      let (audit, s1) = ask (λ u. p.around.append_audit_event u e) s in
      let (time, s2) = now p.host s1 in
      let counted = record s2 {
        item = record s2.item {
          attempt_count = (s2.item.attempt_count + 1) % 18446744073709551616;
          updated_rfc3339 = p.host.time s1.tick;
          last_error = some (error_text e);
        };
      } in
      let (kept, s3) =
        attempt_failed (p.around.fail_push_failure_persistence "push_item") (write_item p.host)
          counted in
      let (marked, s4) =
        attempt_failed (p.around.fail_push_failure_persistence "pending_state")
          (ask (λ u. p.around.mark_pending_push_error u e)) s3 in
      (
        stop unattempted (record t {
          failed = t.failed + 1;
          partially_applied = t.partially_applied + one_if partial;
          audit_warnings = t.audit_warnings + elim audit [ ok finished ↦ 0 | err x ↦ 1 ];
          failures = snoc t.failures (record {
            push_id = s.item.push_id;
            error = e;
            partially_applied = partial;
            state_persistence_failures =
                failed_stage "push_item" kept (failed_stage "pending_state" marked []);
          });
        }),
        s4,
      )

  attempted : ℕ → Tally → Result (Unit {0}) → Session R → Tally × Session R
  unfolding item_pushed item_failed
  attempted unattempted t (ok finished) s = item_pushed unattempted t s
  attempted unattempted t (err e) s = item_failed unattempted e t s

  -- One round of the loop.
  attempt_item : ℕ → PushItem → Tally → Session R → Tally × Session R
  unfolding attempted push_item
  attempt_item unattempted item t s =
      let (r, s') = push_item p (record s { item = item }) in attempted unattempted t r s'

  run_items : ℕ → ℕ → List PushItem → Tally → Session R → Tally × Session R
  unfolding attempt_item
  run_items item_count index [] t s = (t, s)
  run_items item_count index (item ∷ items) t s =
      let (t', s') = attempt_item (item_count - (index + 1)) item t s in
      let rest = run_items item_count (index + 1) items t' s' in
      if t'.stopped_after_failure then (t', s') else rest

  unfoldable pub push_items : List PushItem → Session R → Tally × Session R
  unfolding run_items
  push_items items s = run_items (length items) 0 items empty s

-- `CommandResult::exit_code` of the counts that a run reports
unfoldable pub exit_code : Tally → ℕ
exit_code t =
    if t.failed + t.audit_warnings == 0
    then 0
    else if t.pushed + t.partially_applied == 0
    then 1
    else 3
