-- ===== src/Consumer/Batches/Choice.antt =====
-- src/sources/cloudflare/consumer.rs: the batch that `dispatch` chooses is one that the journal may hold.
use mathlib.Core.List.{append-nil}
use agent_first_mail.Prelude.{
  ℕ, String, ◌≡◌, ◌∙◌, refl, true, false, Option, none, some, List, [], ◌∷◌, arith, lookup, length,
  ok, Bool-cases, inl, inr, leb,
}
use agent_first_mail.Consumer.{
  Task, Batch, is_empty, safe_task_id, all_pending, validate_active, validate_batch,
}
use agent_first_mail.Consumer.Valid.{
  IsReady, all_pending-of, of-all_pending, IsReady-of_valid, valid-of_IsReady,
}
use agent_first_mail.Consumer.Batches.{
  Evidence, Drop, drop_task, Chosen, choose, keep_available, fill_batch, pending_keys, choose_batch,
  refresh_active, take_new, new_batch,
}
use agent_first_mail.Consumer.Batches.TaskId.{IsHexDigest, safe_task_id-mail}
use agent_first_mail.Consumer.Batches.Loops.{
  all_pending-pending_keys, distinct-pending_keys, IsLoop-keep_available, IsLoop-fill_batch, IsLoop,
}

valid_of_IsLoop :
    (b : Batch) (c : Chosen)
    → IsLoop [] c
    → safe_task_id b.task_id ≡ true
    → b.content_keys ≡ c.keys
    → is_empty c.keys ≡ false
    → IsReady c.state.journal.tasks b
valid_of_IsLoop b c l safe e n = record {
  safe = safe;
  nonempty = λ none_left. ground (arith, none_left, e);
  no_repeat = rw (e, ← append-nil c.keys) l.no_repeat;
  waiting = λ k held. all_pending-of c.state.journal.tasks c.keys k l.chosen (rw e at held);
}

active-drop_task :
    (evidence : String → Evidence) (key : String) (t : Option Task) (c : Chosen)
    → (choose key (drop_task evidence key t c.state) c).state.journal.active
      ≡ c.state.journal.active
unfolding drop_task
active-drop_task evidence key none c = refl
active-drop_task evidence key (some t) c = ground arith

-- The loops change no more than the tasks.
active-fill_batch :
    (evidence : String → Evidence) (size : ℕ) (keys : List String) (c : Chosen)
    → (fill_batch evidence size keys c).state.journal.active ≡ c.state.journal.active
unfolding fill_batch
active-fill_batch evidence size [] c = refl
active-fill_batch evidence size (key ∷ keys) c = elim (Bool-cases (leb size (length c.keys))) [
  | inl full ↦ rw full
  | inr room ↦ rw room (
      active-fill_batch evidence size keys _
      ∙ active-drop_task evidence key (lookup key c.state.journal.tasks) c)
]

module _ (evidence : String → Evidence) where
  refresh_active-valid :
      (a : Option Batch) (d : Drop)
      → validate_batch d.journal.tasks a ≡ ok tt
      → d.journal.active ≡ a
      → let j = (refresh_active evidence a d).state.journal in
        validate_batch j.tasks j.active ≡ ok tt
  unfolding refresh_active
  refresh_active-valid none d h e = rw e (unfold validate_batch in refl)
  refresh_active-valid (some b) d h e =
      let r = IsReady-of_valid d.journal.tasks b h in
      let start : Chosen = record { keys = []; items = []; state = d } in
      let c = keep_available evidence b.content_keys start in
      let l = IsLoop-keep_available evidence b.content_keys start (record {
        no_repeat = r.no_repeat;
        chosen = unfold all_pending in refl;
        to_come = of-all_pending d.journal.tasks b.content_keys r.waiting;
      }) in
      elim (Bool-cases (is_empty c.keys)) [
        | inl nothing ↦ rw nothing (unfold validate_batch in refl)
        | inr left ↦ rw left (
            valid-of_IsReady c.state.journal.tasks (record b { content_keys = c.keys })
              (valid_of_IsLoop (record b { content_keys = c.keys }) c l r.safe refl left))
      ]

  module _ (digest : List String → String) (hex : IsHexDigest digest) (size : ℕ) where
    take_new-valid :
        (a : Option Batch) (c : Chosen)
        → c.state.journal.active ≡ a
        → validate_batch c.state.journal.tasks a ≡ ok tt
        → let j = (take_new evidence digest size a c).state.journal in
          validate_batch j.tasks j.active ≡ ok tt
    unfolding take_new
    take_new-valid (some b) c e h = rw e h
    take_new-valid none c e h =
        let keys = pending_keys c.state.journal.tasks in
        let start : Chosen = record { keys = []; items = []; state = c.state } in
        let c' = fill_batch evidence size keys start in
        let l = IsLoop-fill_batch evidence size keys start (record {
          no_repeat = distinct-pending_keys c.state.journal.tasks;
          chosen = unfold all_pending in refl;
          to_come = all_pending-pending_keys c.state.journal.tasks;
        }) in
        elim (Bool-cases (is_empty c'.keys)) [
          | inl nothing ↦
              rw nothing
                (rw (active-fill_batch evidence size keys start, e) (unfold validate_batch in refl))
          | inr left ↦ rw left (
              valid-of_IsReady c'.state.journal.tasks (new_batch digest c'.keys) (
                valid_of_IsLoop (new_batch digest c'.keys) c' l
                  (safe_task_id-mail digest hex c'.keys) refl left))
        ]

    -- From a valid journal `dispatch` chooses a batch that `validate_active` accepts, whatever the
    -- workspace still holds of the messages.
    pub choose_batch-valid :
        (d : Drop)
        → validate_active d.journal ≡ ok tt
        → validate_active (choose_batch evidence digest size d).state.journal ≡ ok tt
    unfolding choose_batch validate_active
    choose_batch-valid d h =
        let c = refresh_active evidence d.journal.active d in
        take_new-valid c.state.journal.active c refl
          (refresh_active-valid d.journal.active d h refl)
