-- ===== src/Push/Perform/Executors/Marked.antt =====
-- src/push_queue/execute.rs: an effect is started only once the item is on disk with the outcome of
-- the step unknown.
use agent_first_mail.Prelude.{
  ℕ, suc, String, ◌≡◌, refl, ap, Bool, true, false, Option, none, some, List, [], ◌∷◌, arith, any,
  insert, lookup-insert, eq_refl, Result, AppError, Bool-cases, inl, inr,
}
use agent_first_mail.Push.Mail.{Bytes, PreparedOutbound, PreparedEmail, prepared_email, is_file}
use agent_first_mail.Push.Item.{ActionStep, PushLocation, stored, message_ids}
use agent_first_mail.Push.Steps.{
  has_index, unknown_at, step_remote_outcome_unknown, lose, mark_step_remote_outcome_unknown,
}
use agent_first_mail.Push.Steps.Marks.{any-update_first_self}
use agent_first_mail.Push.Execute.Present.{find-changed}
use agent_first_mail.Push.Session.{
  Session, Exec, Host, continue, ◌>>◌, done, written, write_item, ask,
}
use agent_first_mail.Push.Execute.{persist_remote_outcome_unknown}
use agent_first_mail.Push.Perform.{Services, Effects, lift, raw_of}
use agent_first_mail.Push.Perform.Still.{
  Still-lift, Still-raw_of, IsMarked, Still-answer, Still-ask, Alike, AlikeMarked, Alike-refl,
  Alike-after, AlikeMarked-refl, AlikeMarked-bind, AlikeMarked-ask,
}
use agent_first_mail.Push.Perform.Executors.{
  soften, append_one, append_all, append_messages, publish_marked, send_file, send_cloudflare,
  send_smtp, append_prepared,
}

-- Two sets of effects that do the same in every session where the step is marked.
pub record Agree {R : Type 0} (index : ℕ) (e e' : Effects R) : Type 0 where
  pub publish :
      (t : Session R) (p : PreparedOutbound) → IsMarked index t → e.publish t p ≡ e'.publish t p
  pub send_cloudflare_raw_message :
      (t : Session R) (p : PreparedOutbound)
      → IsMarked index t
      → e.send_cloudflare_raw_message t p ≡ e'.send_cloudflare_raw_message t p
  pub send_raw_message :
      (t : Session R) (m : PreparedEmail)
      → IsMarked index t
      → e.send_raw_message t m ≡ e'.send_raw_message t m
  pub append_message :
      (t : Session R) (folder : String) (raw : Bytes) (draft : Bool)
      → IsMarked index t
      → e.append_message t folder raw draft ≡ e'.append_message t folder raw draft
  pub move_message :
      (t : Session R) (l : PushLocation) (target : String) (id : Option String)
      → IsMarked index t
      → e.move_message t l target id ≡ e'.move_message t l target id

IsMarked-persisted :
    {R : Type 0} (index : ℕ) (step : ActionStep) (time later : String) (s : Session R) (tick : ℕ)
    → any (has_index index) s.item.step_states ≡ true
    → let item = record (mark_step_remote_outcome_unknown index step none time s.item) {
      updated_rfc3339 = later;
      last_error = none;
    } in
      IsMarked index
        (record s { item = item; queue = insert item.push_id (stored item) s.queue; tick = tick })
unfolding mark_step_remote_outcome_unknown step_remote_outcome_unknown
IsMarked-persisted index step time later s tick there = record {
  on_disk = rw lookup-insert (rw eq_refl);
  unknown =
      let (old, e) =
        find-changed index (lose step none time) (λ st. refl) s.item.step_states there in
      (lose step none time old, e, refl);
  seen =
      any-update_first_self index (lose step none time) (unknown_at index)
        (λ state e. ground (arith, e)) s.item.step_states there;
}

module _ {R : Type 0} (host : Host) (services : Services R) (index : ℕ) (step : ActionStep) where
  written_same :
      {A : Type 0} (k k' : Exec R A) (o : Option AppError) (s : Session R)
      → (o ≡ none → k (written o s).1 ≡ k' (written o s).1)
      → continue (written o s).0 (λ _. k) (written o s).1
        ≡ continue (written o s).0 (λ _. k') (written o s).1
  written_same k k' none s h = h refl
  written_same k k' (some e) s h = refl

  -- What follows the mark may use that the step is marked.
  pub Alike-mark :
      {A : Type 0} (k k' : Exec R A)
      → AlikeMarked index k k'
      → Alike index
          (persist_remote_outcome_unknown host index step >> k)
          (persist_remote_outcome_unknown host index step >> k')
  unfolding persist_remote_outcome_unknown write_item
  Alike-mark k k' h = record {
    at = λ s there. written_same k k' (host.write_error (suc (suc s.tick))) _ λ e. rw e (
        h.at _ (
          IsMarked-persisted index step (host.time s.tick) (host.time (suc s.tick)) s
            (suc (suc (suc s.tick))) there));
  }

  module _ (e e' : Effects R) (agree : Agree index e e') where
    publish_marked-Alike :
        (p : PreparedOutbound)
        → Alike index
            (publish_marked host services e index step p)
            (publish_marked host services e' index step p)
    unfolding publish_marked
    publish_marked-Alike p =
        Alike-after index (ask (λ s. services.output_confirmed s p)) _ _ (Still-ask _)
          λ a. Alike-mark _ _ (AlikeMarked-ask index _ _ (λ t. agree.publish t p))

    pub send_file-Alike :
        (p : PreparedOutbound)
        → Alike index
            (send_file host services e index step p)
            (send_file host services e' index step p)
    unfolding send_file
    send_file-Alike p = elim (Bool-cases (is_file p.delivery)) [
      | inl file ↦ rw file (publish_marked-Alike p)
      | inr mail ↦ rw mail (Alike-refl index _)
    ]

    pub send_cloudflare-Alike :
        (p : PreparedOutbound)
        → Alike index
            (send_cloudflare host services e index step p)
            (send_cloudflare host services e' index step p)
    unfolding send_cloudflare
    send_cloudflare-Alike p =
        Alike-after index (ask (λ s. services.prepare_cloudflare_send s p)) _ _ (Still-ask _) λ a.
          Alike-mark _ _ (
            AlikeMarked-bind index _ _ _ _
              (AlikeMarked-ask index _ _ (λ t. agree.send_cloudflare_raw_message t p)) (Still-ask _)
              (λ receipt. AlikeMarked-refl index _))

    pub send_smtp-Alike :
        (p : PreparedOutbound)
        → Alike index
            (send_smtp host services e index step p)
            (send_smtp host services e' index step p)
    unfolding send_smtp
    send_smtp-Alike p =
        let validate = ask (λ s. services.validate_smtp_send_attempt s p) in
        Alike-after index validate _ _ (Still-ask _) λ a.
          Alike-after index (lift (prepared_email p)) _ _ (Still-lift (prepared_email p)) λ mail.
            let prepare = ask (λ s. services.prepare_send s mail) in
            Alike-after index prepare _ _ (Still-ask _)
              λ b. Alike-mark _ _ (AlikeMarked-ask index _ _ (λ t. agree.send_raw_message t mail))

    pub append_prepared-Alike :
        (p : PreparedOutbound) (m : Option String)
        → Alike index
            (append_prepared host services e index step p m)
            (append_prepared host services e' index step p m)
    unfolding append_prepared
    append_prepared-Alike p none = Alike-refl index _
    append_prepared-Alike p (some id) =
        Alike-after index (ask (λ s. services.action_mailbox_folder s id)) _ _ (Still-ask _)
          λ folder. Alike-mark _ _ (
            AlikeMarked-ask index _ _
              (λ t. agree.append_message t folder p.raw (services.is_drafts id)))

    append_one-Alike :
        (folder : String) (raw : Bytes) (again : Bool)
        → AlikeMarked index
            (append_one host services e folder raw again)
            (append_one host services e' folder raw again)
    unfolding append_one
    append_one-Alike folder raw again = AlikeMarked-ask index _ _ λ t h.
        ap (λ (p : Result (Unit {0}) × R). (soften again p.0, p.1))
          (agree.append_message t folder raw false h)

    append_rest-Alike :
        (folder : String) (ids : List String)
        → AlikeMarked index
            (append_all host services e index step folder true ids)
            (append_all host services e' index step folder true ids)
    unfolding append_all
    append_rest-Alike folder [] = AlikeMarked-refl index _
    append_rest-Alike folder (id ∷ ids) =
        AlikeMarked-bind index _ _ _ _ (AlikeMarked-refl index (raw_of services id))
          (Still-raw_of services id)
          λ raw. AlikeMarked-bind index _ _ _ _ (AlikeMarked-refl index done) (Still-answer tt) λ a.
            AlikeMarked-bind index _ _ _ _ (append_one-Alike folder raw true)
              (unfold append_one in Still-ask _) λ b. append_rest-Alike folder ids

    append_all-Alike :
        (folder : String) (ids : List String)
        → Alike index
            (append_all host services e index step folder false ids)
            (append_all host services e' index step folder false ids)
    unfolding append_all
    append_all-Alike folder [] = Alike-refl index _
    append_all-Alike folder (id ∷ ids) =
        Alike-after index (raw_of services id) _ _ (Still-raw_of services id) λ raw.
          Alike-mark _ _ (
            AlikeMarked-bind index _ _ _ _ (append_one-Alike folder raw false)
              (unfold append_one in Still-ask _) λ b. append_rest-Alike folder ids)

    pub append_messages-Alike :
        (m : Option String)
        → Alike index
            (append_messages host services e index step m)
            (append_messages host services e' index step m)
    unfolding append_messages
    append_messages-Alike none = Alike-refl index _
    append_messages-Alike (some id) =
        Alike-after index (ask (λ s. services.action_mailbox_folder s id)) _ _ (Still-ask _)
          λ folder. record { at = λ s h. (append_all-Alike folder (message_ids s.item)).at s h }
