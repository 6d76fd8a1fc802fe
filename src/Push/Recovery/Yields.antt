-- ===== src/Push/Recovery/Yields.antt =====
-- src/push_queue/recovery.rs: what a sequence of actions may leave in the queue, when only its last ones
-- write.
use mathlib.Core.Path.{subst}
use agent_first_mail.Prelude.{◌≡◌, refl, ◌∙◌, ap, sym, Map, Result, ok, err, OnOk}
use agent_first_mail.Push.Item.{PushItem}
use agent_first_mail.Push.Session.{Session, Exec, Host, continue, ◌>>=◌, modify, now}
use agent_first_mail.Push.Perform.{lift}
use agent_first_mail.Push.Perform.Still.{Still}

module _ {R : Type 0} where
  -- From a session with this queue and this item, the action ends with a queue of the kind.
  pub record Yields {A : Type 0} (P : Map PushItem → Type 0) (q : Map PushItem) (x : PushItem)
      (m : Exec R A) : Type 0 where
    pub at : (s : Session R) → s.queue ≡ q → s.item ≡ x → P (m s).1.queue

  module _ (P : Map PushItem → Type 0) (q : Map PushItem) (x : PushItem) (unchanged : P q) where
    pub continue-Yields :
        {A B : Type 0} (r : Result A) (f : A → Exec R B) (t : Session R)
        → ((a : A) → r ≡ ok a → Yields P q x (f a))
        → t.queue ≡ q
        → t.item ≡ x
        → P (continue r f t).1.queue
    continue-Yields (ok a) f t h e g = (h a refl).at t e g
    continue-Yields (err x) f t h e g = subst P (sym e) unchanged

    pub Yields-Still : {A : Type 0} (m : Exec R A) → Still m → Yields P q x m
    Yields-Still m k = record { at = λ s e g. subst P (sym (k.queue s ∙ e)) unchanged }

    pub Yields-bind :
        {A B : Type 0} (m : Exec R A) (f : A → Exec R B)
        → Still m
        → ((a : A) → Yields P q x (f a))
        → Yields P q x (m >>= f)
    Yields-bind m f k h = record {
      at = λ s e g.
          let (r, t) = m s in continue-Yields r f t (λ a p. h a) (k.queue s ∙ e) (k.item s ∙ g);
    }

    -- The answer of the first action is known in what follows.
    pub Yields-known :
        {A B : Type 0} (m : Exec R A) (f : A → Exec R B)
        → Still m
        → ((a : A) → ((t : Session R) × ((m t).0 ≡ ok a)) → Yields P q x (f a))
        → Yields P q x (m >>= f)
    Yields-known m f k h = record {
      at = λ s e g.
          let (r, t) = m s in
          continue-Yields r f t (λ a p. h a (s, p)) (k.queue s ∙ e) (k.item s ∙ g);
    }

    -- A check that reads the session.
    pub Yields-check :
        {A B : Type 0} (r : Session R → Result A) (f : A → Exec R B)
        → ((s : Session R) → s.item ≡ x → OnOk (λ a. Yields P q x (f a)) (r s))
        → Yields P q x ((λ s. (r s, s)) >>= f)
    Yields-check r f h = record {
      at = λ s e g. continue-Yields (r s) f s (λ a p. (h s g).at a p) e g;
    }

    pub Yields-modify :
        {B : Type 0} (f : PushItem → PushItem) (m : Exec R B)
        → Yields P q (f x) m
        → Yields P q x (modify f >>= λ u. m)
    Yields-modify f m h = record { at = λ s e g. h.at (record s { item = f s.item }) e (ap f g) }

  pub then_queue :
      {A B : Type 0} (P : Map PushItem → Type 0) (f : A → Exec R B) (r : Result A) (t : Session R)
      → ((a : A) → Still (f a))
      → P t.queue
      → P (continue r f t).1.queue
  then_queue P f (ok a) t k h = subst P (sym ((k a).queue t)) h
  then_queue P f (err e) t k h = h

  pub Yields-then :
      {A B : Type 0} (P : Map PushItem → Type 0) (q : Map PushItem) (x : PushItem) (m : Exec R A)
      (f : A → Exec R B)
      → Yields P q x m
      → ((a : A) → Still (f a))
      → Yields P q x (m >>= f)
  Yields-then P q x m f h k = record {
    at = λ s e g. let (r, t) = m s in then_queue P f r t k (h.at s e g);
  }

  pub lift-Still : {A : Type 0} (r : Result A) → Still (lift {R = R} r)
  lift-Still r = record { item = λ s. refl; queue = λ s. refl }

  pub now-Still : (host : Host) → Still (now {R = R} host)
  now-Still host = record { item = λ s. refl; queue = λ s. refl }
