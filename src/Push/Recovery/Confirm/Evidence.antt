-- ===== src/Push/Recovery/Confirm/Evidence.antt =====
-- src/push_queue/recovery.rs: what the mailboxes said of the copies of an append.
use mathlib.Core.Path.{subst}
use agent_first_mail.Prelude.{
  String, ◌≡◌, ◌⊎◌, refl, true, false, Bool-cases, Option, none, some, List, [], ◌∷◌, arith, any,
  is_some, str_eq, eq_iff, Result, ok, err, AppError, All, inl, inr,
}
use agent_first_mail.Push.Mail.{RemoteLocation}
use agent_first_mail.Push.Session.{Session, Exec, continue}
use agent_first_mail.Push.Recovery.Confirm.{
  Found, Inquiry, not_found, find_copy, copies_in, no_sent_copy,
}

-- A folder that a mailbox id with the special use Drafts was resolved to.
pub record IsDraftsFolder {R : Type 0} (i : Inquiry R) (folder : String) : Type 0 where
  pub mailbox_id : String
  pub drafts : i.services.is_drafts mailbox_id ≡ true
  pub session : Session R
  pub resolved : (i.services.action_mailbox_folder session mailbox_id).0 ≡ ok folder

module _ {R : Type 0} (i : Inquiry R) (id : String) where
  -- The folder was searched for the Message-ID, and nothing was there: it answered so, or with the
  -- error for a missing UID.
  pub record Absent (folder : String) : Type 0 where
    pub session : Session R
    pub nothing :
        ((i.find_by_message_id session folder id).0 ≡ ok none)
        ⊎ ((e : AppError) × ((i.find_by_message_id session folder id).0 ≡ err e)
            × (e.error_code ≡ "imap_uid_missing"))

  -- The folder was searched for the Message-ID, and a message was at the place.
  pub record Located (folder : String) (place : RemoteLocation) : Type 0 where
    pub session : Session R
    pub there : (i.find_by_message_id session folder id).0 ≡ ok (some place)

  not_found-none :
      (r : Result (Option RemoteLocation))
      → not_found r ≡ ok none
      → (r ≡ ok none) ⊎ ((e : AppError) × (r ≡ err e) × (e.error_code ≡ "imap_uid_missing"))
  not_found-none (ok o) h = inl h
  not_found-none (err e) h = elim (Bool-cases (str_eq e.error_code "imap_uid_missing")) [
    | inl missing ↦ inr (e, refl, ground (arith, missing, eq_iff e.error_code "imap_uid_missing"))
    | inr other ↦ absurd (ground (arith, h, other))
  ]

  not_found-some :
      (r : Result (Option RemoteLocation)) (l : RemoteLocation)
      → not_found r ≡ ok (some l)
      → r ≡ ok (some l)
  not_found-some (ok o) l h = h
  not_found-some (err e) l h = elim (Bool-cases (str_eq e.error_code "imap_uid_missing")) [
    | inl missing ↦ absurd (ground (arith, h, missing))
    | inr other ↦ absurd (ground (arith, h, other))
  ]

  -- What the search of a folder gave.
  unfoldable pub Answered : String → Option RemoteLocation → Type 0
  Answered folder none = Absent folder
  Answered folder (some l) = Located folder l

  pub find_copy-Answered :
      (folder : String) (o : Option RemoteLocation) (s : Session R)
      → (find_copy i folder id s).0 ≡ ok o
      → Answered folder o
  unfolding find_copy Answered
  find_copy-Answered folder none s h = record { session = s; nothing = not_found-none _ h }
  find_copy-Answered folder (some l) s h = record { session = s; there = not_found-some _ l h }

  abbrev pub Copy : Found → Type 0
  Copy copy = Answered copy.mailbox_name copy.location

  continue_known :
      {A B : Type 0} (r : Result A) (f : A → Exec R B) (t : Session R) (b : B)
      → (continue r f t).0 ≡ ok b
      → (a : A) × (r ≡ ok a) × ((f a t).0 ≡ ok b)
  continue_known (ok a) f t b h = (a, refl, h)
  continue_known (err e) f t b h = absurd (cc)

  same_copies :
      (given copies : List Found)
      → ◌≡◌ {A = Result (List Found)} (ok given) (ok copies)
      → given ≡ copies
  same_copies given copies e = cc

  pub copies_in-Answered :
      (folders : List String) (copies : List Found) (s : Session R)
      → (copies_in i id folders s).0 ≡ ok copies
      → All Copy copies
  unfolding copies_in
  copies_in-Answered [] copies s h = subst (λ cs. All Copy cs) (same_copies [] copies h) tt
  copies_in-Answered (folder ∷ folders) copies s h =
      let (r, t) = find_copy i folder id s in
      let (o, e, g) = continue_known r _ t copies h in
      let (r2, t2) = copies_in i id folders t in
      let (rest, e2, g2) = continue_known r2 _ t2 copies g in
      subst (λ cs. All Copy cs)
        (same_copies (record { mailbox_name = folder; location = o } ∷ rest) copies g2)
        (find_copy-Answered folder o s e, copies_in-Answered folders rest t e2)

  abbrev pub AllAbsent : List Found → Type 0
  AllAbsent copies =
      All (λ (copy : Found). (copy.location ≡ none) × Absent copy.mailbox_name) copies

  nothing_there :
      (folder : String) (o : Option RemoteLocation)
      → is_some o ≡ false
      → Answered folder o
      → (o ≡ none) × Absent folder
  unfolding Answered
  nothing_there folder none h a = (refl, a)
  nothing_there folder (some l) h a = absurd (cc)

  pub no_sent_copy-Absent :
      (copies : List Found) → no_sent_copy copies ≡ ok tt → All Copy copies → AllAbsent copies
  unfolding no_sent_copy any
  no_sent_copy-Absent [] h a = tt
  no_sent_copy-Absent (copy ∷ copies) h a = (
    nothing_there copy.mailbox_name copy.location (ground (arith, h)) a.0,
    no_sent_copy-Absent copies (ground (arith, h)) a.1,
  )
