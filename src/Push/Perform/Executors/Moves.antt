-- ===== src/Push/Perform/Executors/Moves.antt =====
-- src/push_queue/execute.rs: execute_move starts a move only for a location outside the target, and
-- the executors mark the step before such a move.
use agent_first_mail.Prelude.{
  ℕ, String, ◌≡◌, Bool, true, false, not, Option, none, some, List, [], ◌∷◌, arith, any, str_eq,
  lookup, Bool-cases, inl, inr,
}
use agent_first_mail.Push.Mail.{RemoteLocation}
use agent_first_mail.Push.Item.{is_nil, PushLocation, message_ids}
use agent_first_mail.Push.Session.{Session, done, ask}
use agent_first_mail.Push.Perform.{
  Services, Effects, Places, answer, read_one, read_places, move_known, needs_move, relocate,
  move_one, move_all, move_listed, execute_move, moved_places, add_message,
}
use agent_first_mail.Push.Perform.Still.{
  Still, Still-answer, Still-refuse, Still-ask, Still-bind, Alike, AlikeMarked, Alike-refl,
  Alike-after, AlikeMarked-refl, AlikeMarked-bind, AlikeMarked-ask,
}
use agent_first_mail.Push.Perform.Executors.Marked.{Agree}

-- A location outside the target.
abbrev pub outside : String → PushLocation → Bool
outside target location = not (str_eq location.mailbox_name target)

-- The folder of a mailbox id is the same whenever it is asked for.
abbrev pub FixedFolders : {R : Type 0} → Services R → Type 0
FixedFolders {R} services =
    (id : String) (s t : Session R)
    → (services.action_mailbox_folder s id).0 ≡ (services.action_mailbox_folder t id).0

module _ {R : Type 0} (services : Services R) where
  Still-read_one :
      (id : String) (places : Places) (o : Option (List RemoteLocation))
      → Still (read_one services id places o)
  unfolding read_one
  Still-read_one id places (some known) = Still-answer places
  Still-read_one id places none =
      Still-bind (ask (λ s. services.read_message_by_id s id)) _ (Still-ask _)
        λ message. Still-answer (add_message id message places)

  pub Still-read_places :
      (ids : List String) (places : Places) → Still (read_places services ids places)
  unfolding read_places
  Still-read_places [] places = Still-answer places
  Still-read_places (id ∷ ids) places =
      Still-bind (read_one services id places (lookup id places.active)) _
        (Still-read_one id places (lookup id places.active)) (Still-read_places ids)

  Still-relocate :
      (l : PushLocation) (places : Places) (target : Option RemoteLocation)
      (existing : Option (List RemoteLocation))
      → Still (relocate services l places target existing)
  unfolding relocate
  Still-relocate l places none existing = Still-refuse _
  Still-relocate l places (some target) none = Still-refuse _
  Still-relocate l places (some target) (some existing) =
      Still-bind
        (ask (λ s. services.relocate_message s l.message_id (moved_places l target existing))) _
        (Still-ask _) λ a. Still-answer _

  module _ (effects : Effects R) where
    Still-move_known :
        (target : String) (l : PushLocation) (places : Places) (id : Option (Option String))
        → Still (move_known services effects target l places id)
    unfolding move_known
    Still-move_known target l places none = Still-refuse _
    Still-move_known target l places (some id) =
        Still-bind (ask (λ s. effects.move_message s l target id)) _ (Still-ask _)
          λ outcome. Still-relocate l places outcome (lookup l.message_id places.active)

    pub Still-move_one :
        (target : String) (l : PushLocation) (places : Places)
        → Still (move_one services effects target l places)
    unfolding move_one
    Still-move_one target l places = elim (Bool-cases (needs_move services target l places)) [
      | inl moves ↦
          rw moves (Still-move_known target l places (lookup l.message_id places.rfc822_ids))
      | inr stays ↦ rw stays (Still-answer places)
    ]

  module _ (index : ℕ) (e e' : Effects R) where
    -- With every location in the target, no move is started.
    pub move_none-Alike :
        (target : String) (locations : List PushLocation) (places : Places)
        → any (outside target) locations ≡ false
        → Alike index
            (move_all services e target locations places)
            (move_all services e' target locations places)
    unfolding move_all move_one any
    move_none-Alike target [] places h = Alike-refl index _
    move_none-Alike target (l ∷ locations) places h =
        let here : str_eq l.mailbox_name target ≡ true = ground arith in
        rw here (
          Alike-after index (answer places) _ _ (Still-answer places)
            λ moved. move_none-Alike target locations moved (ground arith))

    module _ (agree : Agree index e e') where
      move_known-Alike :
          (target : String) (l : PushLocation) (places : Places) (id : Option (Option String))
          → AlikeMarked index
              (move_known services e target l places id)
              (move_known services e' target l places id)
      unfolding move_known
      move_known-Alike target l places none = AlikeMarked-refl index _
      move_known-Alike target l places (some id) =
          AlikeMarked-bind index _ _ _ _
            (AlikeMarked-ask index _ _ (λ t. agree.move_message t l target id)) (Still-ask _)
            λ outcome. AlikeMarked-refl index _

      move_one-Alike :
          (target : String) (l : PushLocation) (places : Places)
          → AlikeMarked index
              (move_one services e target l places)
              (move_one services e' target l places)
      unfolding move_one
      move_one-Alike target l places = elim (Bool-cases (needs_move services target l places)) [
        | inl moves ↦
            rw moves (move_known-Alike target l places (lookup l.message_id places.rfc822_ids))
        | inr stays ↦ rw stays (AlikeMarked-refl index (answer places))
      ]

      move_all-Alike :
          (target : String) (locations : List PushLocation) (places : Places)
          → AlikeMarked index
              (move_all services e target locations places)
              (move_all services e' target locations places)
      unfolding move_all
      move_all-Alike target [] places = AlikeMarked-refl index _
      move_all-Alike target (l ∷ locations) places =
          AlikeMarked-bind index _ _ _ _ (move_one-Alike target l places)
            (Still-move_one e' target l places) λ moved. move_all-Alike target locations moved

      -- After the mark.
      move_listed-Alike :
          (locations : List PushLocation) (id : String)
          → AlikeMarked index
              (move_listed services e locations id)
              (move_listed services e' locations id)
      unfolding move_listed
      move_listed-Alike locations id = record {
        at = λ s h.
            let start : Places = record { rfc822_ids = []; active = [] } in
            let read = read_places services (message_ids s.item) start in
            let folder = ask (λ t. services.action_mailbox_folder t id) in
            (AlikeMarked-bind index read read _ _ (AlikeMarked-refl index read)
                (Still-read_places (message_ids s.item) start)
                λ places.
                  AlikeMarked-bind index folder folder _ _ (AlikeMarked-refl index folder)
                    (Still-ask _) λ target. move_all-Alike target locations places).at
              s h;
      }

      pub execute_move-Alike :
          (locations : List PushLocation) (id : String)
          → AlikeMarked index
              (execute_move services e locations id)
              (execute_move services e' locations id)
      unfolding execute_move
      execute_move-Alike locations id = elim (Bool-cases (is_nil locations)) [
        | inl nothing ↦ rw nothing (AlikeMarked-refl index done)
        | inr listed ↦ rw listed (move_listed-Alike locations id)
      ]
