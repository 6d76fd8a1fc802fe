-- ===== src/Push/Execute/Frame.antt =====
-- src/push_queue/execute.rs: a relation between the item before and after that each mark keeps is
-- kept by the whole run of a step.
use agent_first_mail.Prelude.{
  ℕ, suc, String, Bool, true, false, Option, none, some, List, [], ◌∷◌, Result, ok, err, AppError,
  is_some, if◌then◌else◌, ◌&&◌, not,
}
use agent_first_mail.Push.Item.{ActionStep, PushItem, is_nil}
use agent_first_mail.Push.Steps.{
  step_succeeded, step_remote_outcome_unknown, mark_step_pending, mark_step_succeeded,
  mark_step_failed, mark_step_remote_outcome_unknown,
}
use agent_first_mail.Push.Session.{
  Session, Exec, Host, continue, ◌>>=◌, done, raise, modify, now, write_item, ask, written,
}
use agent_first_mail.Push.Execute.{
  Collaborators, remote_effect_not_applied, remote_outcome_unknown_error, settle, settle_succeeded,
  settle_failed, settle_unknown, start_step, absent_or, find_in, find_all, succeed_if,
  proved_append, proved_move, proved_mailbox, outcome_proved, recover_remote_outcome_unknown_step,
  refresh_step, skip_step, resume_legacy, recovered, recover_or_refuse, settle_error,
  settle_outcome, attempt_step, recover_or_attempt, run_step,
  move_completed_before_target_uid_lookup_failed,
}

-- The item before an action is related to the item after it, on success and on failure.
pub record Keeps {R A : Type 0} (Rel : PushItem → PushItem → Type 0) (m : Exec R A) : Type 0 where
  pub at : (s : Session R) → Rel s.item (m s).1.item

pub record IsFrame (Rel : PushItem → PushItem → Type 0) : Type 0 where
  pub same : (x : PushItem) → Rel x x
  pub trans : (x y z : PushItem) → Rel x y → Rel y z → Rel x z
  pub touch :
      (x : PushItem) (time : String) (e : Option String)
      → Rel x (record x { updated_rfc3339 = time; last_error = e })

-- What the marks of one step do.
pub record Marks (Rel : PushItem → PushItem → Type 0) (index : ℕ) (step : ActionStep) : Type 0 where
  pub pended : (x : PushItem) (t u : String) → Rel x (mark_step_pending index step t u x)
  pub succeeded : (x : PushItem) (t : String) → Rel x (mark_step_succeeded index step t x)
  pub failed :
      (x : PushItem) (e : AppError) (t : String) → Rel x (mark_step_failed index step e t x)
  pub lost :
      (x : PushItem) (e : Option AppError) (t : String)
      → Rel x (mark_step_remote_outcome_unknown index step e t x)

module _ {R : Type 0} (Rel : PushItem → PushItem → Type 0) (frame : IsFrame Rel) where
  pub Keeps-done : Keeps Rel (done {R = R})
  Keeps-done = record { at = λ s. frame.same s.item }

  pub Keeps-raise : (e : AppError) → Keeps Rel (raise {R = R} e)
  Keeps-raise e = record { at = λ s. frame.same s.item }

  Keeps-answer : {A : Type 0} (a : A) → Keeps Rel (λ (s : Session R). (ok a, s))
  Keeps-answer a = record { at = λ s. frame.same s.item }

  Keeps-now : (host : Host) → Keeps Rel (now {R = R} host)
  Keeps-now host = record { at = λ s. frame.same s.item }

  pub Keeps-ask : {A : Type 0} (call : Session R → Result A × R) → Keeps Rel (ask call)
  Keeps-ask call = record { at = λ s. frame.same s.item }

  pub Keeps-modify :
      (f : PushItem → PushItem) → ((x : PushItem) → Rel x (f x)) → Keeps Rel (modify {R = R} f)
  Keeps-modify f h = record { at = λ s. h s.item }

  written-keeps : (o : Option AppError) (s : Session R) → Rel s.item (written o s).1.item
  written-keeps none s = frame.same s.item
  written-keeps (some e) s = frame.same s.item

  pub Keeps-write_item : (host : Host) → Keeps Rel (write_item {R = R} host)
  unfolding write_item
  Keeps-write_item host = record { at = λ s. written-keeps (host.write_error s.tick) s }

  continue-keeps :
      {A B : Type 0} (x : PushItem) (r : Result A) (f : A → Exec R B) (s : Session R)
      → Rel x s.item
      → ((a : A) → Keeps Rel (f a))
      → Rel x (continue r f s).1.item
  continue-keeps x (ok a) f s h k = frame.trans x s.item (f a s).1.item h ((k a).at s)
  continue-keeps x (err e) f s h k = h

  pub Keeps-bind :
      {A B : Type 0} (m : Exec R A) (f : A → Exec R B)
      → Keeps Rel m
      → ((a : A) → Keeps Rel (f a))
      → Keeps Rel (m >>= f)
  Keeps-bind m f km kf = record {
    at = λ s. let (r, s') = m s in continue-keeps s.item r f s' (km.at s) kf;
  }

  Keeps-if :
      {A : Type 0} (b : Bool) (m n : Exec R A)
      → Keeps Rel m
      → Keeps Rel n
      → Keeps Rel (if b then m else n)
  Keeps-if true m n km kn = km
  Keeps-if false m n km kn = kn

  Keeps-if_at :
      {A : Type 0} (b : Session R → Bool) (m n : Exec R A)
      → Keeps Rel m
      → Keeps Rel n
      → Keeps Rel (λ s. if b s then m s else n s)
  Keeps-if_at b m n km kn = record { at = λ s. branch s (b s) }
    where
      branch : (s : Session R) (t : Bool) → Rel s.item (if t then m s else n s).1.item
      branch s true = km.at s
      branch s false = kn.at s

  pub Keeps-settle :
      (host : Host) (mark : String → PushItem → PushItem) (e : Option String)
      → ((x : PushItem) (t : String) → Rel x (mark t x))
      → Keeps Rel (settle {R = R} host mark e)
  Keeps-settle host mark e h = Keeps-bind (now host) _ (Keeps-now host) λ t.
      Keeps-bind (modify (mark t)) _ (Keeps-modify (mark t) (λ x. h x t)) λ _.
        Keeps-bind (now host) _ (Keeps-now host) λ u.
          Keeps-bind (modify (λ item. record item { updated_rfc3339 = u; last_error = e })) _
            (Keeps-modify _ (λ x. frame.touch x u e)) λ _. Keeps-write_item host

  module _ (host : Host) (c : Collaborators R) where
    absent_or-keeps :
        (x : PushItem) (r : Result Bool) (s : Session R)
        → Rel x s.item
        → Rel x (absent_or host c r s).1.item
    unfolding absent_or
    absent_or-keeps x (ok found) s h = h
    absent_or-keeps x (err e) s h = h

    Keeps-find_in : (folder id : String) → Keeps Rel (find_in host c folder id)
    unfolding find_in
    Keeps-find_in folder id = record {
      at = λ s.
          let (r, remote) = c.find_by_message_id s folder id in
          absent_or-keeps s.item r (record s { remote = remote; tick = suc s.tick })
            (frame.same s.item);
    }

    Keeps-find_all : (folder : String) (ids : List String) → Keeps Rel (find_all host c folder ids)
    unfolding find_all
    Keeps-find_all folder [] = Keeps-answer true
    Keeps-find_all folder (id ∷ ids) =
        Keeps-bind (find_in host c folder id) _ (Keeps-find_in folder id) λ found.
          Keeps-if found (find_all host c folder ids) _ (Keeps-find_all folder ids)
            (Keeps-answer false)

    Keeps-proved_append : (mailbox_id : String) → Keeps Rel (proved_append host c mailbox_id)
    unfolding proved_append
    Keeps-proved_append mailbox_id =
        Keeps-bind (ask (λ s. c.action_mailbox_folder s mailbox_id)) _ (Keeps-ask _) λ folder.
          Keeps-bind (ask c.append_rfc822_message_ids) _ (Keeps-ask _) λ ids.
            Keeps-if (is_nil ids) _ (find_all host c folder ids) (Keeps-answer false)
              (Keeps-find_all folder ids)

    Keeps-proved_move :
        (index : ℕ) (step : ActionStep) (m : Option String)
        → Keeps Rel (proved_move host c index step m)
    unfolding proved_move
    Keeps-proved_move index step none = Keeps-answer false
    Keeps-proved_move index step (some id) =
        Keeps-if_at (λ s. move_completed_before_target_uid_lookup_failed s.item index) _ _
          (Keeps-ask (λ t. c.move_proved t step id)) (Keeps-answer false)

    Keeps-proved_mailbox :
        (index : ℕ) (step : ActionStep) (m : Option String)
        → Keeps Rel (proved_mailbox host c index step m)
    unfolding proved_mailbox
    Keeps-proved_mailbox index step none = Keeps-proved_move index step step.move_to_mailbox_id
    Keeps-proved_mailbox index step (some id) = Keeps-proved_append id

    pub Keeps-outcome_proved :
        (index : ℕ) (step : ActionStep) → Keeps Rel (outcome_proved host c index step)
    unfolding outcome_proved
    Keeps-outcome_proved index step =
        Keeps-if (is_some step.file_send) (ask c.output_confirmed) _ (Keeps-ask _)
          (Keeps-proved_mailbox index step step.append_to_mailbox_id)

    pub Keeps-refresh_step : (step : ActionStep) → Keeps Rel (refresh_step host c step)
    unfolding refresh_step
    Keeps-refresh_step step = Keeps-ask _

    module _ (index : ℕ) (step : ActionStep) (marks : Marks Rel index step) where
      Keeps-succeed_if : (b : Bool) → Keeps Rel (succeed_if host c index step b)
      unfolding succeed_if
      Keeps-succeed_if true =
          Keeps-bind (settle_succeeded host index step) _
            (Keeps-settle host _ none (λ x t. marks.succeeded x t)) λ _. Keeps-answer true
      Keeps-succeed_if false = Keeps-answer false

      Keeps-recovered : (b : Bool) → Keeps Rel (recovered host c step b)
      unfolding recovered
      Keeps-recovered true = Keeps-refresh_step step
      Keeps-recovered false = Keeps-raise (remote_outcome_unknown_error step)

      Keeps-recover_or_refuse : Keeps Rel (recover_or_refuse host c index step)
      unfolding recover_or_refuse
      Keeps-recover_or_refuse =
          Keeps-bind (recover_remote_outcome_unknown_step host c index step) _
            (Keeps-bind (outcome_proved host c index step) _ (Keeps-outcome_proved index step)
              Keeps-succeed_if)
            Keeps-recovered

      pub Keeps-start_step : Keeps Rel (start_step {R = R} host index step)
      unfolding start_step
      Keeps-start_step = Keeps-bind (now host) _ (Keeps-now host) λ t.
          Keeps-bind (now host) _ (Keeps-now host)
            λ u. Keeps-modify (mark_step_pending index step t u) (λ x. marks.pended x t u)

      Keeps-skip_step : Keeps Rel (skip_step host c step)
      unfolding skip_step
      Keeps-skip_step =
          Keeps-if_at (λ s. is_some s.item.local_stage) done (refresh_step host c step) Keeps-done
            (Keeps-refresh_step step)

      Keeps-settle_error : (e : AppError) → Keeps Rel (settle_error host c index step e)
      unfolding settle_error
      Keeps-settle_error e =
          Keeps-if_at
            (λ s. step_remote_outcome_unknown s.item index && not (remote_effect_not_applied e)) _ _
            (Keeps-bind (settle_unknown host index step e) _
              (Keeps-settle host _ _ (λ x t. marks.lost x (some e) t))
              λ _. Keeps-raise (remote_outcome_unknown_error step))
            (Keeps-bind (settle_failed host index step e) _
              (Keeps-settle host _ _ (λ x t. marks.failed x e t)) λ _. Keeps-raise e)

      Keeps-settle_outcome :
          (r : Result (Unit {0})) → Keeps Rel (settle_outcome host c index step r)
      unfolding settle_outcome
      Keeps-settle_outcome (ok executed) =
          Keeps-bind (settle_succeeded host index step) _
            (Keeps-settle host _ none (λ x t. marks.succeeded x t)) λ _. Keeps-refresh_step step
      Keeps-settle_outcome (err e) = Keeps-settle_error e

      module _ (execute : ℕ → ActionStep → Exec R (Unit {0}))
          (executed : Keeps Rel (execute index step)) where
        execute_and_settle :
            Keeps Rel
              (λ s. let (r, s') = execute index step s in settle_outcome host c index step r s')
        execute_and_settle = record {
          at = λ s.
              let (r, s') = execute index step s in
              frame.trans s.item s'.item _ (executed.at s) ((Keeps-settle_outcome r).at s');
        }

        Keeps-attempt_step : Keeps Rel (attempt_step host c execute index step)
        unfolding attempt_step
        Keeps-attempt_step =
            Keeps-bind (start_step host index step) _ Keeps-start_step
              λ _. Keeps-bind (write_item host) _ (Keeps-write_item host) λ _. execute_and_settle

        pub Keeps-resume_legacy : Keeps Rel (resume_legacy host c index step)
        unfolding resume_legacy
        Keeps-resume_legacy =
            Keeps-if_at _ _ done
              (Keeps-bind (start_step host index step) _ Keeps-start_step λ _.
                Keeps-bind (modify (λ item. record item { last_error = none })) _
                  (Keeps-modify _ (λ x. frame.touch x x.updated_rfc3339 none))
                  λ _. Keeps-write_item host)
              Keeps-done

        Keeps-recover_or_attempt : Keeps Rel (recover_or_attempt host c execute index step)
        unfolding recover_or_attempt
        Keeps-recover_or_attempt =
            Keeps-if_at (λ s. step_remote_outcome_unknown s.item index) _ _ Keeps-recover_or_refuse
              Keeps-attempt_step

        -- The whole run of one step keeps the relation, if its executor does.
        pub Keeps-run_step : Keeps Rel (run_step host c execute index step)
        unfolding run_step
        Keeps-run_step =
            Keeps-if_at (λ s. step_succeeded s.item index) _ _ Keeps-skip_step
              (Keeps-bind (resume_legacy host c index step) _ Keeps-resume_legacy
                λ _. Keeps-recover_or_attempt)
