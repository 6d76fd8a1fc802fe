-- ===== src/Push/Perform/Executors/Own.antt =====
-- src/push_queue/execute.rs: what an executor does to the item is its mark and its receipt, so it
-- keeps each relation that these two keep.
use agent_first_mail.Prelude.{
  ℕ, refl, String, Bool, true, false, Option, none, some, List, [], ◌∷◌, find, is_some,
  if◌then◌else◌, Bool-cases, inl, inr,
}
use agent_first_mail.Push.Mail.{PreparedOutbound, prepared_email, is_file}
use agent_first_mail.Push.Item.{
  ActionStep, is_send, PushItem, PushStepState, SendReceipt, message_ids,
}
use agent_first_mail.Push.Steps.{has_index, update_state, mark_step_remote_outcome_unknown}
use agent_first_mail.Push.Session.{Exec, Host, ◌>>=◌, done, modify, ask}
use agent_first_mail.Push.Execute.{persist_remote_outcome_unknown}
use agent_first_mail.Push.Steps.Marks.{any-index-update_first}
use agent_first_mail.Push.Execute.Present.{SamePresence, SamePresence-Marks}
use agent_first_mail.Push.Execute.Frame.{Keeps, IsFrame, Keeps-modify, Keeps-bind, Keeps-settle}
use agent_first_mail.Push.Perform.{
  Services, Effects, refuse, lift, action_locations, execute_add_flags, raw_of, execute_move,
  prepare_current_outbound,
}
use agent_first_mail.Push.Perform.Still.{
  Still-lift, Still, Still-answer, Still-refuse, Still-ask, Still-raw_of,
}
use agent_first_mail.Push.Perform.Executors.{
  mark_once, append_one, append_all, append_messages, move_messages, execute_message_step,
  publish_marked, send_file, send_cloudflare, keep_receipt, accepted, send_smtp, append_prepared,
  require_outbound, perform_if, refuse_send, execute_outbound_step, not_accepted,
}
use agent_first_mail.Push.Perform.Executors.Quiet.{
  Still-require, Still-action_locations, Still-add_flags, Still-prepare_current_outbound,
  Still-execute_move,
}

abbrev pub received : ℕ → SendReceipt → PushItem → PushItem
received index receipt = update_state index (λ found. record found { send_receipt = some receipt })

module _ {R : Type 0} (Rel : PushItem → PushItem → Type 0) (frame : IsFrame Rel) (host : Host)
    (services : Services R) (effects : Effects R) (index : ℕ) (step : ActionStep)
    (lost : (x : PushItem) (time : String)
      → Rel x (mark_step_remote_outcome_unknown index step none time x))
    (got : (x : PushItem) (receipt : SendReceipt) → Rel x (received index receipt x)) where
  -- An action that keeps the relation.
  abbrev pub Own : {A : Type 0} → Exec R A → Type 0
  Own m = Keeps Rel m

  Own-bind :
      {A B : Type 0} (m : Exec R A) (f : A → Exec R B)
      → Own m
      → ((a : A) → Own (f a))
      → Own (m >>= f)
  Own-bind m f = Keeps-bind Rel frame m f

  pub Own-Still : {A : Type 0} (m : Exec R A) → Still m → Own m
  Own-Still m k = record { at = λ s. rw (k.item s) (frame.same s.item) }

  Own-persist : Own (persist_remote_outcome_unknown {R = R} host index step)
  unfolding persist_remote_outcome_unknown
  Own-persist =
      Keeps-settle Rel frame host (mark_step_remote_outcome_unknown index step none) none lost

  Own-mark_once : (b : Bool) → Own (mark_once host b index step)
  unfolding mark_once
  Own-mark_once true = Own-Still done (Still-answer tt)
  Own-mark_once false = Own-persist

  Own-append_all :
      (folder : String) (again : Bool) (ids : List String)
      → Own (append_all host services effects index step folder again ids)
  unfolding append_all
  Own-append_all folder again [] = Own-Still done (Still-answer tt)
  Own-append_all folder again (id ∷ ids) =
      Own-bind (raw_of services id) _ (Own-Still _ (Still-raw_of services id)) λ raw.
        Own-bind (mark_once host again index step) _ (Own-mark_once again) λ a.
          Own-bind (append_one host services effects folder raw again) _
            (Own-Still _ (unfold append_one in Still-ask _)) λ b. Own-append_all folder true ids

  pub Own-append_messages :
      (m : Option String) → Own (append_messages host services effects index step m)
  unfolding append_messages
  Own-append_messages none = Own-Still done (Still-answer tt)
  Own-append_messages (some id) =
      Own-bind (ask (λ s. services.action_mailbox_folder s id)) _ (Own-Still _ (Still-ask _))
        λ folder. record { at = λ s. (Own-append_all folder false (message_ids s.item)).at s }

  pub Own-move_messages :
      (m : Option String) → Own (move_messages host services effects index step m)
  unfolding move_messages
  Own-move_messages none = Own-Still done (Still-answer tt)
  Own-move_messages (some id) =
      Own-bind (action_locations services step) _
        (Own-Still _ (Still-action_locations services step))
        λ locations.
          Own-bind (ask (λ s. services.action_mailbox_folder s id)) _ (Own-Still _ (Still-ask _))
            λ target. Own-bind (mark_once host _ index step) _ (Own-mark_once _) λ a.
              Own-Still (execute_move services effects locations id)
                (Still-execute_move services effects locations id)

  Own-refuse_send : (b : Bool) → Own (refuse_send {R = R} b)
  Own-refuse_send true = Own-Still _ (Still-refuse _)
  Own-refuse_send false = Own-Still done (Still-answer tt)

  pub Own-execute_message_step : Own (execute_message_step host services effects index step)
  unfolding execute_message_step
  Own-execute_message_step =
      Own-bind (execute_add_flags services step) _ (Own-Still _ (Still-add_flags services step))
        λ a.
          Own-bind (move_messages host services effects index step step.move_to_mailbox_id) _
            (Own-move_messages step.move_to_mailbox_id)
            λ b.
              Own-bind (append_messages host services effects index step step.append_to_mailbox_id)
                _ (Own-append_messages step.append_to_mailbox_id)
                λ c. Own-refuse_send (is_send step)

  pub Own-send_file : (p : PreparedOutbound) → Own (send_file host services effects index step p)
  unfolding send_file publish_marked
  Own-send_file p = elim (Bool-cases (is_file p.delivery)) [
    | inl file ↦ rw file (
        Own-bind (ask (λ s. services.output_confirmed s p)) _ (Own-Still _ (Still-ask _)) λ a.
          Own-bind (persist_remote_outcome_unknown host index step) _ Own-persist
            λ b. Own-Still _ (Still-ask _))
    | inr mail ↦ rw mail (Own-Still _ (Still-refuse _))
  ]

  Own-keep_receipt :
      (receipt : SendReceipt) (o : Option PushStepState)
      → Own (keep_receipt {R = R} index receipt o)
  unfolding keep_receipt
  Own-keep_receipt receipt none = Own-Still _ (Still-refuse _)
  Own-keep_receipt receipt (some state) =
      Own-bind (modify _) _ (Keeps-modify Rel frame (received index receipt) (λ x. got x receipt))
        λ a. Own-accepted (accepted receipt)
    where
      Own-accepted : (b : Bool) → Own (if b then done else refuse not_accepted)
      Own-accepted true = Own-Still done (Still-answer tt)
      Own-accepted false = Own-Still _ (Still-refuse _)

  pub Own-send_cloudflare :
      (p : PreparedOutbound) → Own (send_cloudflare host services effects index step p)
  unfolding send_cloudflare
  Own-send_cloudflare p =
      Own-bind (ask (λ s. services.prepare_cloudflare_send s p)) _ (Own-Still _ (Still-ask _)) λ a.
        Own-bind (persist_remote_outcome_unknown host index step) _ Own-persist λ b.
          Own-bind (ask (λ s. effects.send_cloudflare_raw_message s p)) _
            (Own-Still _ (Still-ask _))
            λ receipt. record {
              at = λ s. (Own-keep_receipt receipt (find (has_index index) s.item.step_states)).at s;
            }

  pub Own-send_smtp : (p : PreparedOutbound) → Own (send_smtp host services effects index step p)
  unfolding send_smtp
  Own-send_smtp p =
      Own-bind (ask (λ s. services.validate_smtp_send_attempt s p)) _ (Own-Still _ (Still-ask _))
        λ a.
          Own-bind (lift (prepared_email p)) _ (Own-Still _ (Still-lift (prepared_email p))) λ mail.
            Own-bind (ask (λ s. services.prepare_send s mail)) _ (Own-Still _ (Still-ask _)) λ b.
              Own-bind (persist_remote_outcome_unknown host index step) _ Own-persist
                λ c. Own-Still _ (Still-ask _)

  pub Own-append_prepared :
      (p : PreparedOutbound) (m : Option String)
      → Own (append_prepared host services effects index step p m)
  unfolding append_prepared
  Own-append_prepared p none = Own-Still done (Still-answer tt)
  Own-append_prepared p (some id) =
      Own-bind (ask (λ s. services.action_mailbox_folder s id)) _ (Own-Still _ (Still-ask _))
        λ folder.
          Own-bind (persist_remote_outcome_unknown host index step) _ Own-persist
            λ a. Own-Still _ (Still-ask _)

  pub Own-perform_if : (b : Bool) (m : Exec R (Unit {0})) → Own m → Own (perform_if b m)
  Own-perform_if true m h = h
  Own-perform_if false m h = Own-Still done (Still-answer tt)

  Own-require_outbound : Own (require_outbound {R = R})
  unfolding require_outbound
  Own-require_outbound = record {
    at = λ s. (Own-Still _ (Still-require _ s.item.planned_outbound)).at s;
  }

  pub Own-execute_outbound_step : Own (execute_outbound_step host services effects index step)
  unfolding execute_outbound_step
  Own-execute_outbound_step = Own-bind require_outbound _ Own-require_outbound λ a.
      Own-bind (prepare_current_outbound services) _
        (Own-Still _ (Still-prepare_current_outbound services))
        λ p.
          Own-bind
            (perform_if (is_some step.file_send) (send_file host services effects index step p)) _
            (Own-perform_if _ _ (Own-send_file p))
            λ b.
              Own-bind
                (perform_if (is_some step.cloudflare_send)
                  (send_cloudflare host services effects index step p))
                _ (Own-perform_if _ _ (Own-send_cloudflare p))
                λ c.
                  Own-bind
                    (perform_if (is_some step.smtp_send)
                      (send_smtp host services effects index step p))
                    _ (Own-perform_if _ _ (Own-send_smtp p))
                    λ d.
                      Own-bind
                        (append_prepared host services effects index step p
                          step.append_to_mailbox_id)
                        _ (Own-append_prepared p step.append_to_mailbox_id)
                        λ f.
                          Own-bind (execute_add_flags services step) _
                            (Own-Still _ (Still-add_flags services step))
                            λ g.
                              Own-perform_if (is_some step.move_to_mailbox_id) _
                                Own-execute_message_step

-- The mark and the receipt of a step remove and add no state.
pub lost-SamePresence :
    (j index : ℕ) (step : ActionStep) (x : PushItem) (time : String)
    → SamePresence j x (mark_step_remote_outcome_unknown index step none time x)
lost-SamePresence j index step x time = (SamePresence-Marks j index step).lost x none time

pub got-SamePresence :
    (j index : ℕ) (x : PushItem) (receipt : SendReceipt)
    → SamePresence j x (received index receipt x)
got-SamePresence j index x receipt =
    any-index-update_first index j (λ found. record found { send_receipt = some receipt })
      (λ st. refl) x.step_states
