-- ===== src/Push/Finalize/Tests.antt =====
-- src/push_queue/mod.rs: the finalization of one pushed draft.
use agent_first_mail.Prelude.{◌≡◌, refl, ok, app_error}
use agent_first_mail.Push.Samples.{draft_session, calm_host, work, kind}
use agent_first_mail.Push.Finalize.{finalize_pushed_item}
use agent_first_mail.Push.Finalize.Ends.{IsAudited, finalize_ends}
use agent_first_mail.Push.Finalize.Forward.{Forward, finalize-Forward}
use agent_first_mail.Push.Finalize.Once.{only_missing, finalize_only_missing}

finalize_succeeds : (finalize_pushed_item calm_host kind work draft_session).0 ≡ ok tt
unfolding finalize_pushed_item
finalize_succeeds = refl

three_pieces : (finalize_pushed_item calm_host kind work draft_session).1.remote ≡ 3
unfolding finalize_pushed_item
three_pieces = refl

finalize_ends_example : IsAudited (finalize_pushed_item calm_host kind work draft_session).1.item
finalize_ends_example = finalize_ends calm_host kind work draft_session finalize_succeeds

finalize-Forward_example :
    Forward draft_session.item (finalize_pushed_item calm_host kind work draft_session).1.item
finalize-Forward_example = finalize-Forward calm_host kind work draft_session

finalize_only_missing_example :
    finalize_pushed_item calm_host kind work draft_session
    ≡ finalize_pushed_item calm_host kind
        (only_missing (app_error "twice" "done before") work)
        draft_session
finalize_only_missing_example =
    finalize_only_missing calm_host kind work (app_error "twice" "done before") draft_session
