-- ===== src/Push/Run/Tests.antt =====
-- src/push_queue/mod.rs: a run over a draft that is pushed, an item that fails, and another draft.
use agent_first_mail.Prelude.{
  ℕ, ◌+◌, ◌≡◌, refl, true, none, some, List, [], ◌∷◌, ◌++◌, ok, ◌⊎◌, ◌==◌, if◌then◌else◌, length,
  insert,
}
use agent_first_mail.Push.Item.{PushItem}
use agent_first_mail.Push.Samples.{draft_item, draft_session, calm_host, work, kind}
use agent_first_mail.Push.Session.{Session}
use agent_first_mail.Push.Build.Samples.{planner, files, digest}
use agent_first_mail.Push.Perform.Samples.{collaborators, services, free}
use agent_first_mail.Push.Finalize.{finalize_pushed_item}
use agent_first_mail.Push.Run.{Surroundings, Parts, complete_successful_push_audit}
use agent_first_mail.Push.Run.Audited.{AuditEnd, complete_successful_push_audit_lem}
use agent_first_mail.Push.Run.Loop.{push_items, exit_code}
use agent_first_mail.Push.Run.Loop.Counts.{Completed, Stopped, push_items_lem}
use agent_first_mail.Push.Run.Loop.Stop.{push_items_stopped}
use agent_first_mail.Push.Run.Command.{push_with_progress, Agreed, push_with_progress-Agreed}

abbrev around : Surroundings ℕ
around = record {
  planner = λ r. planner;
  compiled = λ feature. true;
  ensure_archive_eligible = λ r ids id. ok tt;
  ensure_message_ids_unreferenced = λ r ids id. ok tt;
  append_audit_event_with_identity = λ s pending. (ok tt, s.remote);
  append_audit_event = λ s e. (ok tt, s.remote);
  finalize_archiving_cases = λ s. (ok tt, s.remote);
  mark_pending_push_error = λ s e. (ok tt, s.remote);
  fail_push_failure_persistence = λ stage. none;
}

abbrev parts : Parts ℕ
parts = record {
  host = calm_host;
  collaborators = collaborators;
  services = services;
  effects = free;
  work = work;
  display_kind = kind;
  around = around;
}

-- A draft that has lost its plan.
abbrev broken : PushItem
broken = record draft_item { push_id = "push_3"; planned_outbound = none }

abbrev three : List PushItem
three = draft_item ∷ broken ∷ draft_item ∷ []

one_of_three :
    let t = (push_items parts three draft_session).0 in
    ◌≡◌ {A = (ℕ × ℕ) × (ℕ × ℕ)}
      ((t.pushed, t.failed), (t.unattempted_count, exit_code t))
      ((1, 1), (1, 3))
unfolding push_items exit_code insert
one_of_three = refl

stops : (push_items parts (draft_item ∷ broken ∷ []) draft_session).0.stopped_after_failure ≡ true
unfolding push_items insert
stops = refl

push_items_stopped_example :
    (push_items parts ((draft_item ∷ broken ∷ []) ++ (draft_item ∷ [])) draft_session).1
    ≡ (push_items parts (draft_item ∷ broken ∷ []) draft_session).1
push_items_stopped_example =
    push_items_stopped parts (draft_item ∷ broken ∷ []) (draft_item ∷ []) draft_session stops

push_items_lem_example :
    Completed (length three) (push_items parts three draft_session).0
      × (exit_code (push_items parts three draft_session).0 ≡ 0)
    ⊎ Stopped (length three) (push_items parts three draft_session).0
      × (exit_code (push_items parts three draft_session).0 ≡ (
          if (push_items parts three draft_session).0.pushed
              + (push_items parts three draft_session).0.partially_applied
            == 0
          then 1
          else 3))
push_items_lem_example = push_items_lem parts three draft_session

abbrev finalized : Session ℕ
finalized = (finalize_pushed_item calm_host kind work draft_session).1

complete_successful_push_audit_lem_example :
    AuditEnd parts finalized
      (complete_successful_push_audit parts finalized).0
      (complete_successful_push_audit parts finalized).1
complete_successful_push_audit_lem_example = complete_successful_push_audit_lem parts finalized

abbrev filled : Session ℕ
filled = record draft_session { queue = files }

push_with_progress-Agreed_example :
    ((push_with_progress parts digest (some "plan_1") filled).1 ≡ filled)
    ⊎ Agreed parts digest (some "plan_1") filled
push_with_progress-Agreed_example = push_with_progress-Agreed parts digest (some "plan_1") filled
