-- ===== src/Push/Perform/Still.antt =====
-- src/push_queue/execute.rs: actions that leave the item and its file alone, and a step that is
-- marked on disk.
use agent_first_mail.Prelude.{
  ℕ, suc, ◌≡◌, refl, ◌∙◌, ap, Option, none, some, true, any, find, lookup, Result, ok, err,
  AppError, String,
}
use agent_first_mail.Push.Item.{remote_outcome_unknown, PushStepState, PushItem, stored}
use agent_first_mail.Push.Steps.{has_index, step_remote_outcome_unknown}
use agent_first_mail.Push.Execute.Frame.{Keeps}
use agent_first_mail.Push.Execute.Present.{SamePresence}
use agent_first_mail.Push.Session.{Session, Exec, continue, ◌>>=◌, ask}
use agent_first_mail.Push.Mail.{Bytes}
use agent_first_mail.Push.Perform.{Services, lift, answer, refuse, planned_raw, raw_of}

-- The queue directory has the item as it is, which has a state of its step `index`, and the outcome of
-- that step is unknown.
pub record IsMarked {R : Type 0} (index : ℕ) (t : Session R) : Type 0 where
  pub on_disk : lookup t.item.push_id t.queue ≡ some (stored t.item)
  pub unknown :
      (state : PushStepState) × (find (has_index index) t.item.step_states ≡ some state)
      × (state.status ≡ remote_outcome_unknown)
  pub seen : step_remote_outcome_unknown t.item index ≡ true

module _ {R : Type 0} where
  -- An action that leaves the item and the queue directory alone.
  pub record Still {A : Type 0} (m : Exec R A) : Type 0 where
    pub item : (s : Session R) → (m s).1.item ≡ s.item
    pub queue : (s : Session R) → (m s).1.queue ≡ s.queue

  pub Still-answer : {A : Type 0} (a : A) → Still (answer {R = R} a)
  Still-answer a = record { item = λ s. refl; queue = λ s. refl }

  pub Still-refuse : {A : Type 0} (e : AppError) → Still (refuse {R = R} {A = A} e)
  Still-refuse e = record { item = λ s. refl; queue = λ s. refl }

  pub Still-ask : {A : Type 0} (call : Session R → Result A × R) → Still (ask call)
  Still-ask call = record { item = λ s. refl; queue = λ s. refl }

  pub Still-lift : {A : Type 0} (r : Result A) → Still (lift {R = R} r)
  Still-lift r = record { item = λ s. refl; queue = λ s. refl }

  item_continue :
      {A B : Type 0} (f : A → Exec R B) (r : Result A) (s : Session R)
      → ((a : A) → Still (f a))
      → ((continue r f s).1.item ≡ s.item) × ((continue r f s).1.queue ≡ s.queue)
  item_continue f (ok a) s h = ((h a).item s, (h a).queue s)
  item_continue f (err e) s h = (refl, refl)

  pub Still-bind :
      {A B : Type 0} (m : Exec R A) (f : A → Exec R B)
      → Still m
      → ((a : A) → Still (f a))
      → Still (m >>= f)
  Still-bind m f km kf = record {
    item = λ s. let (r, s') = m s in (item_continue f r s' kf).0 ∙ km.item s;
    queue = λ s. let (r, s') = m s in (item_continue f r s' kf).1 ∙ km.queue s;
  }

  pub IsMarked-Still :
      {A : Type 0} (index : ℕ) (m : Exec R A) (t : Session R)
      → Still m
      → IsMarked index t
      → IsMarked index (m t).1
  IsMarked-Still index m t k h = record {
    on_disk = rw (k.item t, k.queue t) h.on_disk;
    unknown =
        let (state, e, u) = h.unknown in
        (state, ap (λ (x : PushItem). find (has_index index) x.step_states) (k.item t) ∙ e, u);
    seen = ap (λ x. step_remote_outcome_unknown x index) (k.item t) ∙ h.seen;
  }

  continue_same :
      {A B : Type 0} (f g : A → Exec R B) (r : Result A) (s : Session R)
      → ((a : A) → r ≡ ok a → f a s ≡ g a s)
      → continue r f s ≡ continue r g s
  continue_same f g (ok a) s h = h a refl
  continue_same f g (err e) s h = refl

  -- Two actions that give the same in every session with a state of the step, or in those where the
  -- step is marked.
  pub record Alike {A : Type 0} (index : ℕ) (m m' : Exec R A) : Type 0 where
    pub at : (s : Session R) → any (has_index index) s.item.step_states ≡ true → m s ≡ m' s

  pub record AlikeMarked {A : Type 0} (index : ℕ) (m m' : Exec R A) : Type 0 where
    pub at : (s : Session R) → IsMarked index s → m s ≡ m' s

  bind_at :
      {A B : Type 0} (m m' : Exec R A) (f g : A → Exec R B) (s : Session R)
      → m s ≡ m' s
      → ((a : A) → (m' s).0 ≡ ok a → f a (m' s).1 ≡ g a (m' s).1)
      → (m >>= f) s ≡ (m' >>= g) s
  bind_at m m' f g s e h =
      ap (λ (p : Result _ × Session R). continue p.0 f p.1) e
      ∙ continue_same f g (m' s).0 (m' s).1 h

  -- Two actions that give the same in every session.
  pub record Same {A : Type 0} (m m' : Exec R A) : Type 0 where
    pub at : (s : Session R) → m s ≡ m' s

  pub Same-refl : {A : Type 0} (m : Exec R A) → Same m m
  Same-refl m = record { at = λ s. refl }

  pub Same-bind :
      {A B : Type 0} (m m' : Exec R A) (f g : A → Exec R B)
      → Same m m'
      → ((a : A) → Same (f a) (g a))
      → Same (m >>= f) (m' >>= g)
  Same-bind m m' f g p q = record { at = λ s. bind_at m m' f g s (p.at s) λ a e. (q a).at (m' s).1 }

  pub Alike-refl : {A : Type 0} (index : ℕ) (m : Exec R A) → Alike index m m
  Alike-refl index m = record { at = λ s h. refl }

  pub Alike-bind :
      {A B : Type 0} (index : ℕ) (m m' : Exec R A) (f g : A → Exec R B)
      → Alike index m m'
      → Keeps (SamePresence index) m'
      → ((a : A) → Alike index (f a) (g a))
      → Alike index (m >>= f) (m' >>= g)
  Alike-bind index m m' f g p k q = record {
    at = λ s h. bind_at m m' f g s (p.at s h) λ a e. (q a).at (m' s).1 (k.at s ∙ h);
  }

  -- The answer of the first action, which leaves the item alone, is known in what follows.
  pub Alike-then :
      {A B : Type 0} (index : ℕ) (m : Exec R A) (f g : A → Exec R B)
      → Still m
      → ((a : A) → ((s : Session R) × ((m s).0 ≡ ok a)) → Alike index (f a) (g a))
      → Alike index (m >>= f) (m >>= g)
  Alike-then index m f g k q = record {
    at = λ s h. bind_at m m f g s refl λ a e.
        (q a (s, e)).at (m s).1
          (ap (λ (x : PushItem). any (has_index index) x.step_states) (k.item s) ∙ h);
  }

  pub Alike-after :
      {A B : Type 0} (index : ℕ) (m : Exec R A) (f g : A → Exec R B)
      → Still m
      → ((a : A) → Alike index (f a) (g a))
      → Alike index (m >>= f) (m >>= g)
  Alike-after index m f g k q = Alike-then index m f g k λ a e. q a

  pub AlikeMarked-refl : {A : Type 0} (index : ℕ) (m : Exec R A) → AlikeMarked index m m
  AlikeMarked-refl index m = record { at = λ s h. refl }

  pub AlikeMarked-bind :
      {A B : Type 0} (index : ℕ) (m m' : Exec R A) (f g : A → Exec R B)
      → AlikeMarked index m m'
      → Still m'
      → ((a : A) → AlikeMarked index (f a) (g a))
      → AlikeMarked index (m >>= f) (m' >>= g)
  AlikeMarked-bind index m m' f g p k q = record {
    at = λ s h.
        bind_at m m' f g s (p.at s h) λ a e. (q a).at (m' s).1 (IsMarked-Still index m' s k h);
  }

  pub AlikeMarked-ask :
      {A : Type 0} (index : ℕ) (call call' : Session R → Result A × R)
      → ((t : Session R) → IsMarked index t → call t ≡ call' t)
      → AlikeMarked index (ask call) (ask call')
  AlikeMarked-ask index call call' h = record {
    at = λ t m.
        ap (λ (p : Result _ × R). (p.0, record t { remote = p.1; tick = suc t.tick })) (h t m);
  }

  Still-planned_raw :
      (services : Services R) (id : String) (o : Option Bytes) → Still (planned_raw services id o)
  unfolding planned_raw
  Still-planned_raw services id none = Still-ask _
  Still-planned_raw services id (some raw) = Still-answer raw

  pub Still-raw_of : (services : Services R) (id : String) → Still (raw_of services id)
  unfolding raw_of
  Still-raw_of services id = record {
    item = λ s. (Still-planned_raw services id (lookup id s.item.planned_message_rfc822)).item s;
    queue = λ s. (Still-planned_raw services id (lookup id s.item.planned_message_rfc822)).queue s;
  }
