-- ===== src/Push/Perform/Executors/Ordered.antt =====
-- src/push_queue/execute.rs: the two executors start no effect before the item on disk says that its
-- outcome is unknown.
use agent_first_mail.Prelude.{
  ℕ, String, ◌≡◌, ◌∙◌, sym, ap, Bool, true, false, not, Option, none, some, List, [], any, Result,
  ok, is_some, Bool-cases, inl, inr,
}
use agent_first_mail.Push.Item.{
  ActionStep, is_nil, PushLocation, PushItem, SendReceipt, message_ids, is_send,
}
use agent_first_mail.Push.Session.{Session, Exec, Host, ◌>>◌, done, ask}
use agent_first_mail.Push.Perform.{
  Services, Effects, Places, action_locations, execute_add_flags, read_places, move_listed,
  execute_move, prepare_current_outbound,
}
use agent_first_mail.Push.Steps.{has_index, mark_step_remote_outcome_unknown}
use agent_first_mail.Push.Execute.Frame.{Keeps, IsFrame}
use agent_first_mail.Push.Execute.Present.{SamePresence, SamePresence-IsFrame}
use agent_first_mail.Push.Perform.Executors.Quiet.{
  Still-require, Still-action_locations, Still-add_flags, Still-prepare_current_outbound,
}
use agent_first_mail.Push.Perform.Executors.Own.{
  received, lost-SamePresence, got-SamePresence, Own-move_messages, Own-append_messages,
  Own-send_file, Own-send_cloudflare, Own-send_smtp, Own-append_prepared, Own-perform_if,
}
use agent_first_mail.Push.Perform.Still.{
  Still, Still-answer, Still-ask, Alike, Alike-refl, Alike-bind, Alike-then, Alike-after,
}
use agent_first_mail.Push.Perform.Executors.{
  mark_once, append_messages, move_messages, execute_message_step, perform_if,
  execute_outbound_step, require_outbound, refuse_send,
}
use agent_first_mail.Push.Perform.Executors.Marked.{
  Agree, Alike-mark, send_file-Alike, send_cloudflare-Alike, send_smtp-Alike, append_prepared-Alike,
  append_messages-Alike,
}
use agent_first_mail.Push.Perform.Executors.Moves.{
  FixedFolders, outside, Still-read_places, move_none-Alike, execute_move-Alike,
}

Alike-perform_if :
    {R : Type 0} (index : ℕ) (b : Bool) (m m' : Exec R (Unit {0}))
    → Alike index m m'
    → Alike index (perform_if b m) (perform_if b m')
Alike-perform_if index true m m' h = h
Alike-perform_if index false m m' h = Alike-refl index done

ok_injective : {A : Type 0} (a b : A) → ◌≡◌ {A = Result A} (ok a) (ok b) → a ≡ b
ok_injective a b e = cc

module _ {R : Type 0} (host : Host) (services : Services R) (fixed : FixedFolders services)
    (index : ℕ) (step : ActionStep) (e e' : Effects R) (agree : Agree index e e') where
  -- Where every location is in the folder that an earlier answer named, nothing is moved.
  execute_move_none :
      (locations : List PushLocation) (id target : String) (s : Session R)
      → (services.action_mailbox_folder s id).0 ≡ ok target
      → any (outside target) locations ≡ false
      → Alike index (execute_move services e locations id) (execute_move services e' locations id)
  unfolding execute_move move_listed
  execute_move_none locations id target s named h = elim (Bool-cases (is_nil locations)) [
    | inl nothing ↦ rw nothing (Alike-refl index done)
    | inr listed ↦ rw listed (record {
      at = λ t.
          let start : Places = record { rfc822_ids = []; active = [] } in
          let read = read_places services (message_ids t.item) start in
          let folder = ask (λ u. services.action_mailbox_folder u id) in
          (Alike-after index read _ _ (Still-read_places services (message_ids t.item) start)
              λ places. Alike-then index folder _ _ (Still-ask _) λ again answered.
                let same : target ≡ again =
                  ok_injective target again (sym named ∙ fixed id s answered.0 ∙ answered.1) in
                move_none-Alike services index e e' again locations places
                  (ap (λ f. any (outside f) locations) (sym same) ∙ h)).at
            t;
    })
  ]

  moves-Alike :
      (locations : List PushLocation) (id target : String) (s : Session R)
      → (services.action_mailbox_folder s id).0 ≡ ok target
      → Alike index
          (mark_once host (not (any (outside target) locations)) index step
            >> execute_move services e locations id)
          (mark_once host (not (any (outside target) locations)) index step
            >> execute_move services e' locations id)
  unfolding mark_once
  moves-Alike locations id target s named = elim (Bool-cases (any (outside target) locations)) [
    | inl moves ↦ rw moves (
        Alike-mark host services index step _ _
          (execute_move-Alike services index e e' agree locations id))
    | inr stays ↦ rw stays (
        Alike-after index done _ _ (Still-answer tt)
          λ a. execute_move_none locations id target s named stays)
  ]

  move_messages-Alike :
      (m : Option String)
      → Alike index
          (move_messages host services e index step m)
          (move_messages host services e' index step m)
  unfolding move_messages
  move_messages-Alike none = Alike-refl index _
  move_messages-Alike (some id) =
      Alike-after index (action_locations services step) _ _ (Still-action_locations services step)
        λ locations.
          Alike-then index (ask (λ s. services.action_mailbox_folder s id)) _ _ (Still-ask _)
            λ target answered. moves-Alike locations id target answered.0 answered.1

  -- What an action with the second effects does to the states of the steps.
  abbrev Steady : {A : Type 0} → Exec R A → Type 0
  Steady m = Keeps (SamePresence index) m

  abbrev frame : IsFrame (SamePresence index)
  frame = SamePresence-IsFrame index

  abbrev lost :
      (x : PushItem) (t : String)
      → SamePresence index x (mark_step_remote_outcome_unknown index step none t x)
  lost = lost-SamePresence index index step

  abbrev got : (x : PushItem) (r : SendReceipt) → SamePresence index x (received index r x)
  got = got-SamePresence index index

  execute_message_step-Alike :
      Alike index
        (execute_message_step host services e index step)
        (execute_message_step host services e' index step)
  unfolding execute_message_step
  execute_message_step-Alike =
      Alike-after index (execute_add_flags services step) _ _ (Still-add_flags services step) λ a.
        Alike-bind index _ (move_messages host services e' index step step.move_to_mailbox_id) _ _
          (move_messages-Alike step.move_to_mailbox_id)
          (Own-move_messages (SamePresence index) frame host services e' index step lost got
            step.move_to_mailbox_id)
          λ b.
            Alike-bind index _
              (append_messages host services e' index step step.append_to_mailbox_id) _ _
              (append_messages-Alike host services index step e e' agree step.append_to_mailbox_id)
              (Own-append_messages (SamePresence index) frame host services e' index step lost got
                step.append_to_mailbox_id)
              λ c. Alike-refl index (refuse_send (is_send step))

  -- One of the sends, if the step asks for it.
  perform_if-Alike :
      {B : Type 0} (b : Bool) (m m' : Exec R (Unit {0})) (f g : Exec R B)
      → Alike index m m'
      → Steady m'
      → Alike index f g
      → Alike index (perform_if b m >> f) (perform_if b m' >> g)
  perform_if-Alike b m m' f g h k q =
      Alike-bind index (perform_if b m) (perform_if b m') _ _ (Alike-perform_if index b m m' h)
        (Own-perform_if (SamePresence index) frame host services e' index step lost got b m' k)
        λ a. q

  moved_last-Alike :
      Alike index
        (execute_add_flags services step
          >> perform_if
              (is_some step.move_to_mailbox_id)
              (execute_message_step host services e index step))
        (execute_add_flags services step
          >> perform_if
              (is_some step.move_to_mailbox_id)
              (execute_message_step host services e' index step))
  moved_last-Alike =
      Alike-after index (execute_add_flags services step) _ _ (Still-add_flags services step)
        λ a. Alike-perform_if index (is_some step.move_to_mailbox_id) _ _ execute_message_step-Alike

  required-Still : Still (require_outbound {R = R})
  unfolding require_outbound
  required-Still = record {
    item = λ s. (Still-require _ s.item.planned_outbound).item s;
    queue = λ s. (Still-require _ s.item.planned_outbound).queue s;
  }

  execute_outbound_step-Alike :
      Alike index
        (execute_outbound_step host services e index step)
        (execute_outbound_step host services e' index step)
  unfolding execute_outbound_step
  execute_outbound_step-Alike = Alike-after index require_outbound _ _ required-Still λ a.
      Alike-after index (prepare_current_outbound services) _ _
        (Still-prepare_current_outbound services)
        λ p.
          perform_if-Alike (is_some step.file_send) _ _ _ _
            (send_file-Alike host services index step e e' agree p)
            (Own-send_file (SamePresence index) frame host services e' index step lost got p)
            (perform_if-Alike (is_some step.cloudflare_send) _ _ _ _
              (send_cloudflare-Alike host services index step e e' agree p)
              (Own-send_cloudflare (SamePresence index) frame host services e' index step lost got
                p)
              (perform_if-Alike (is_some step.smtp_send) _ _ _ _
                (send_smtp-Alike host services index step e e' agree p)
                (Own-send_smtp (SamePresence index) frame host services e' index step lost got p)
                (Alike-bind index _ _ _ _
                  (append_prepared-Alike host services index step e e' agree p
                    step.append_to_mailbox_id)
                  (Own-append_prepared (SamePresence index) frame host services e' index step lost
                    got p step.append_to_mailbox_id)
                  λ f. moved_last-Alike)))

  -- If the folder of a mailbox id stays the same, and the item has a state of the step, both executors
  -- start a publication, a send, an append or a move only in a session where the queue directory has
  -- the item with a state of this step, its outcome unknown: with two sets of effects that agree on
  -- those sessions they give the same.
  pub effects_after_mark :
      (s : Session R)
      → any (has_index index) s.item.step_states ≡ true
      → (execute_message_step host services e index step s
          ≡ execute_message_step host services e' index step s)
        × (execute_outbound_step host services e index step s
            ≡ execute_outbound_step host services e' index step s)
  effects_after_mark s there =
      (execute_message_step-Alike.at s there, execute_outbound_step-Alike.at s there)
