-- ===== src/Push/Perform/Executors/Quiet.antt =====
-- src/push_queue/execute.rs: what the executors do between the mark and its effects leaves the item
-- and its file alone.
use agent_first_mail.Prelude.{
  String, refl, Option, none, some, List, [], ◌∷◌, AppError, Bool-cases, inl, inr,
}
use agent_first_mail.Push.Mail.{PreparedOutbound}
use agent_first_mail.Push.Item.{
  ActionStep, ActionStepOn, reply_to_message, is_nil, OutboundPush, PushLocation, message_ids,
  item_reply_to,
}
use agent_first_mail.Push.Session.{◌>>=◌, ask}
use agent_first_mail.Push.Perform.{
  Services, Effects, Places, require, reply_to_of_draft, reply_to_message_id, locations_on,
  action_locations, add_all, execute_add_flags, read_places, move_all, move_one, move_listed,
  execute_move, planned_or_prepared, prepare_current_outbound,
}
use agent_first_mail.Push.Perform.Still.{Still, Still-answer, Still-refuse, Still-ask, Still-bind}
use agent_first_mail.Push.Perform.Executors.Moves.{Still-read_places, Still-move_one}

module _ {R : Type 0} where
  pub Still-require : {A : Type 0} (e : AppError) (o : Option A) → Still (require {R = R} e o)
  unfolding require
  Still-require e none = Still-refuse e
  Still-require e (some a) = Still-answer a

  module _ (services : Services R) where
    Still-reply_to :
        (id : Option String) (outbound : Option OutboundPush)
        → Still (reply_to_message_id services id outbound)
    unfolding reply_to_message_id reply_to_of_draft
    Still-reply_to (some id) outbound = Still-answer id
    Still-reply_to none outbound =
        Still-bind (require _ outbound) _ (Still-require _ outbound) λ draft.
          Still-bind (ask (λ s. services.draft_reply_to s draft)) _ (Still-ask _)
            λ id. Still-require _ id

    Still-located :
        (id : Option String) (outbound : Option OutboundPush)
        → Still (
            reply_to_message_id services id outbound >>= λ found.
            ask (λ t. services.message_remote_locations_any t found))
    Still-located id outbound =
        Still-bind (reply_to_message_id services id outbound) _ (Still-reply_to id outbound)
          λ found. Still-ask _

    Still-locations_on : (on : Option ActionStepOn) → Still (locations_on services on)
    unfolding locations_on
    Still-locations_on none = record { item = λ s. refl; queue = λ s. refl }
    Still-locations_on (some reply_to_message) = record {
      item = λ s. (Still-located (item_reply_to s.item) s.item.planned_outbound).item s;
      queue = λ s. (Still-located (item_reply_to s.item) s.item.planned_outbound).queue s;
    }

    pub Still-action_locations : (step : ActionStep) → Still (action_locations services step)
    unfolding action_locations
    Still-action_locations step = Still-locations_on step.on

    Still-add_all :
        (flags : List String) (ls : List PushLocation) → Still (add_all services flags ls)
    unfolding add_all
    Still-add_all flags [] = Still-answer tt
    Still-add_all flags (l ∷ ls) =
        Still-bind (ask (λ s. services.add_flags s l flags)) _ (Still-ask _) λ a.
          Still-bind (ask (λ s. services.add_remote_flags s l flags)) _ (Still-ask _)
            λ b. Still-add_all flags ls

    pub Still-add_flags : (step : ActionStep) → Still (execute_add_flags services step)
    unfolding execute_add_flags
    Still-add_flags step = elim (Bool-cases (is_nil step.add_flags)) [
      | inl nothing ↦ rw nothing (Still-answer tt)
      | inr listed ↦ rw listed (
          Still-bind (action_locations services step) _ (Still-action_locations step)
            (Still-add_all step.add_flags))
    ]

    Still-prepared : (o : Option PreparedOutbound) → Still (planned_or_prepared services o)
    unfolding planned_or_prepared
    Still-prepared none = Still-ask _
    Still-prepared (some p) = Still-answer p

    pub Still-prepare_current_outbound : Still (prepare_current_outbound services)
    unfolding prepare_current_outbound
    Still-prepare_current_outbound = record {
      item = λ s. (Still-prepared s.item.planned_outbound_message).item s;
      queue = λ s. (Still-prepared s.item.planned_outbound_message).queue s;
    }

    module _ (effects : Effects R) where
      Still-move_all :
          (target : String) (ls : List PushLocation) (places : Places)
          → Still (move_all services effects target ls places)
      unfolding move_all
      Still-move_all target [] places = Still-answer tt
      Still-move_all target (l ∷ ls) places =
          Still-bind (move_one services effects target l places) _
            (Still-move_one services effects target l places) (Still-move_all target ls)

      Still-listed :
          (ids : List String) (ls : List PushLocation) (id : String) (start : Places)
          → Still (
              read_places services ids start >>= λ places.
              ask (λ t. services.action_mailbox_folder t id) >>= λ target.
              move_all services effects target ls places)
      Still-listed ids ls id start =
          Still-bind (read_places services ids start) _ (Still-read_places services ids start)
            λ places.
              Still-bind (ask (λ t. services.action_mailbox_folder t id)) _ (Still-ask _)
                λ target. Still-move_all target ls places

      pub Still-execute_move :
          (ls : List PushLocation) (id : String) → Still (execute_move services effects ls id)
      unfolding execute_move move_listed
      Still-execute_move ls id = elim (Bool-cases (is_nil ls)) [
        | inl nothing ↦ rw nothing (Still-answer tt)
        | inr listed ↦ rw listed (record {
          item = λ s.
              (Still-listed (message_ids s.item) ls id
                  (record { rfc822_ids = []; active = [] })).item
                s;
          queue = λ s.
              (Still-listed (message_ids s.item) ls id
                  (record { rfc822_ids = []; active = [] })).queue
                s;
        })
      ]
