-- ===== src/Push/Recovery/Confirm/Appends.antt =====
-- src/push_queue/recovery.rs: the recovery of a Drafts append writes nothing but the settled item.
use agent_first_mail.Prelude.{
  keys, ◌∙◌, ap, ok, All, String, ◌≡◌, refl, sym, Option, none, some, List, [], ◌∷◌, is_some, Map,
  insert,
}
use agent_first_mail.Push.Mail.{RemoteLocation}
use agent_first_mail.Push.Item.{PushItem, stored}
use agent_first_mail.Push.Session.{ask}
use agent_first_mail.Push.Perform.{answer, lift}
use agent_first_mail.Push.Perform.Still.{Still, Still-answer, Still-ask, Still-bind}
use agent_first_mail.Push.Recovery.{Uncertain, uncertain_append}
use agent_first_mail.Push.Recovery.Checks.{Sound, uncertain_append-Sound}
use agent_first_mail.Push.Recovery.Confirm.{
  Found, append_evidence, Report, Inquiry, require_matching_recovery_plan, find_copy, folders_of,
  copies_in, settle_append, settled_append, distinct_folders, no_sent_copy, searched,
  recover_drafts_append,
}
use agent_first_mail.Push.Recovery.Yields.{
  Yields, Yields-Still, Yields-bind, Yields-known, Yields-check, Yields-modify, lift-Still,
}
use agent_first_mail.Push.Recovery.Confirm.Evidence.{
  IsDraftsFolder, Answered, Copy, AllAbsent, find_copy-Answered, copies_in-Answered,
  no_sent_copy-Absent,
}
use agent_first_mail.Push.Recovery.Confirm.Writes.{
  as_found, as_absent, Recovered, untouched, recorded-Yields, matching, done_recovers,
  open_recovers,
}

module _ {R : Type 0} (i : Inquiry R) (original : PushItem) (q : Map PushItem) where
  folders_of-Still : (ids : List String) → Still (folders_of i ids)
  unfolding folders_of
  folders_of-Still [] = Still-answer []
  folders_of-Still (id ∷ ids) =
      Still-bind (ask (λ s. i.services.action_mailbox_folder s id)) _ (Still-ask _)
        λ folder. Still-bind (folders_of i ids) _ (folders_of-Still ids) λ rest. Still-answer _

  find_copy-Still : (folder id : String) → Still (find_copy i folder id)
  unfolding find_copy
  find_copy-Still folder id = record { item = λ s. refl; queue = λ s. refl }

  copies_in-Still : (id : String) (folders : List String) → Still (copies_in i id folders)
  unfolding copies_in
  copies_in-Still id [] = Still-answer []
  copies_in-Still id (folder ∷ folders) =
      Still-bind (find_copy i folder id) _ (find_copy-Still folder id) λ location.
        Still-bind (copies_in i id folders) _ (copies_in-Still id folders) λ rest. Still-answer _

  append_recovers :
      (u : Uncertain) (sound : Sound original u) (folder : String) (o : Option RemoteLocation)
      (copies : List Found) (remote : R) (id time later : String)
      → IsDraftsFolder i folder
      → Answered i (i.outbound_rfc822_message_id u.item) folder o
      → AllAbsent i (i.outbound_rfc822_message_id u.item) copies
      → i.recovery_plan_id remote original
          (append_evidence (is_some o) (record { mailbox_name = folder; location = o } ∷ copies))
        ≡ ok id
      → Recovered i original (some id) none q (
          insert
            (settled_append u (is_some o) time).push_id
            (stored (record (settled_append u (is_some o) time) {
              updated_rfc3339 = later;
              last_error = none;
            }))
            q)
  unfolding Answered
  append_recovers u sound folder (some place) copies remote id time later drafts there none_sent
        planned =
      done_recovers i original u sound _ remote id planned q time later none none
        λ after h. as_found drafts there none_sent h
  append_recovers u sound folder none copies remote id time later drafts absent none_sent planned =
      open_recovers i original u sound _ remote id planned q time later _ none
        λ after h. as_absent drafts absent none_sent h

  settle_append-Yields :
      (u : Uncertain) (sound : Sound original u) (folder : String) (o : Option RemoteLocation)
      (copies : List Found) (remote : R) (report : Report) (confirm : Option String)
      → IsDraftsFolder i folder
      → Answered i (i.outbound_rfc822_message_id u.item) folder o
      → AllAbsent i (i.outbound_rfc822_message_id u.item) copies
      → i.recovery_plan_id remote original
          (append_evidence (is_some o) (record { mailbox_name = folder; location = o } ∷ copies))
        ≡ ok report.plan_id
      → Yields
          (Recovered i original confirm none q)
          q
          u.item
          (settle_append i u (is_some o) report confirm)
  unfolding settle_append
  settle_append-Yields u sound folder o copies remote report none drafts answered none_sent
        planned =
      Yields-Still (Recovered i original none none q) q u.item untouched (answer report)
        (Still-answer report)
  settle_append-Yields u sound folder o copies remote report (some id) drafts answered none_sent
        planned =
      let P = Recovered i original (some id) none q in
      Yields-check P q u.item untouched (λ s. require_matching_recovery_plan id report.plan_id) _
        λ s g. record {
          at = λ checked e.
              recorded-Yields i P q untouched u.item "push_recovery_checked"
                (record report { previous_step_states = some u.item.step_states })
                (settled_append u (is_some o))
                λ time later.
                  append_recovers u sound folder o copies remote id time later drafts answered
                    none_sent (planned ∙ ap ok (sym (matching id report.plan_id e)));
        }

  -- After the searches: no Sent copy, the plan id, and the settlement.
  searched-Yields :
      (u : Uncertain) (sound : Sound original u) (confirm : Option String) (folder : String)
      (o : Option RemoteLocation) (copies : List Found)
      → IsDraftsFolder i folder
      → Answered i (i.outbound_rfc822_message_id u.item) folder o
      → All (Copy i (i.outbound_rfc822_message_id u.item)) copies
      → Yields
          (Recovered i original confirm none q)
          q
          u.item
          (searched i original confirm u folder o copies)
  unfolding searched
  searched-Yields u sound confirm folder o copies drafts answered searches =
      let P = Recovered i original confirm none q in
      Yields-known P q u.item untouched (lift (no_sent_copy copies)) _ (lift-Still _) λ a checked.
        let none_sent =
          no_sent_copy-Absent i (i.outbound_rfc822_message_id u.item) copies checked.1 searches in
        Yields-check P q u.item untouched (λ t. i.recovery_plan_id t.remote original _) _
          λ t g. record {
            at = λ plan_id e.
                settle_append-Yields u sound folder o copies t.remote _ confirm drafts answered
                  none_sent e;
          }

  pub recover_append-Yields :
      (x : PushItem) (confirm : Option String)
      → Yields (Recovered i original confirm none q) q x (recover_drafts_append i original confirm)
  unfolding recover_drafts_append
  recover_append-Yields x confirm =
      let P = Recovered i original confirm none q in
      Yields-check P q x untouched
        (λ s. uncertain_append (i.planner s.remote) i.services.is_drafts original) _
        λ s g. record {
          at = λ found e.
              let u = found.0 in
              let (sound, drafts) =
                (uncertain_append-Sound (i.planner s.remote) original i.services.is_drafts).at found
                  e in
              let id = i.outbound_rfc822_message_id u.item in
              Yields-modify P q x untouched (λ item. u.item) _
                (Yields-known P q u.item untouched
                  (ask (λ t. i.services.action_mailbox_folder t found.1)) _ (Still-ask _)
                  λ folder named.
                    let is_folder : IsDraftsFolder i folder = record {
                      mailbox_id = found.1;
                      drafts = drafts;
                      session = named.0;
                      resolved = named.1;
                    } in
                    Yields-bind P q u.item untouched (folders_of i i.sent_mailbox_ids) _
                      (folders_of-Still i.sent_mailbox_ids)
                      λ folders.
                        Yields-bind P q u.item untouched (lift (distinct_folders folder folders)) _
                          (lift-Still _)
                          λ a.
                            Yields-known P q u.item untouched (find_copy i folder id) _
                              (find_copy-Still folder id)
                              λ location asked.
                                Yields-known P q u.item untouched (copies_in i id (keys folders)) _
                                  (copies_in-Still id (keys folders))
                                  λ copies searched_all.
                                    searched-Yields u sound confirm folder location copies is_folder
                                      (find_copy-Answered i id folder location asked.0 asked.1)
                                      (copies_in-Answered i id (keys folders) copies searched_all.0
                                        searched_all.1));
        }
