-- ===== src/Push/Session.antt =====
-- src/push_queue/io.rs and execute.rs: the session in which an item is worked on. It holds the item
-- under way, the queue directory (a file for each push id), a count of the events so far, and the
-- remote side with the local mail.
use agent_first_mail.Prelude.{
  ℕ, suc, String, Option, none, some, Map, insert, Result, ok, err, AppError,
}
use agent_first_mail.Push.Item.{PushItem, stored}

pub record Session (R : Type 0) : Type 0 where
  pub item : PushItem
  pub queue : Map PushItem
  pub tick : ℕ
  pub remote : R

-- What was done before an error stays done: the session comes back beside the error.
abbrev pub Exec : Type 0 → Type 0 → Type 0
Exec R A = Session R → Result A × Session R

-- The clock and the file system: the time, and the failure of a write, at each event.
pub record Host : Type 0 where
  pub time : ℕ → String
  pub write_error : ℕ → Option AppError

module _ {R A B : Type 0} where
  abbrev pub continue : Result A → (A → Exec R B) → Exec R B
  continue (ok a) f s = f a s
  continue (err e) f s = (err e, s)

  infixl 10 ◌>>=◌ ◌>>◌
  abbrev pub ◌>>=◌ : Exec R A → (A → Exec R B) → Exec R B
  ◌>>=◌ m f s = let (r, s') = m s in continue r f s'

  abbrev pub ◌>>◌ : Exec R A → Exec R B → Exec R B
  m >> n = m >>= λ _. n

module _ {R : Type 0} where
  abbrev pub done : Exec R (Unit {0})
  done s = (ok tt, s)

  abbrev pub raise : AppError → Exec R (Unit {0})
  raise e s = (err e, s)

  abbrev pub modify : (PushItem → PushItem) → Exec R (Unit {0})
  modify f s = (ok tt, record s { item = f s.item })

  -- `crate::store::now_rfc3339()`
  abbrev pub now : Host → Exec R String
  now host s = (ok (host.time s.tick), record s { tick = suc s.tick })

  abbrev pub written : Option AppError → Exec R (Unit {0})
  written none s =
      (ok tt, record s { queue = insert s.item.push_id (stored s.item) s.queue; tick = suc s.tick })
  written (some e) s = (err e, record s { tick = suc s.tick })

  -- `write_item` of src/push_queue/io.rs: the write is atomic, so a failure leaves the old file.
  unfoldable pub write_item : Host → Exec R (Unit {0})
  write_item host s = written (host.write_error s.tick) s

-- A call that may change the remote side, and nothing else of the session.
abbrev pub ask : {R A : Type 0} → (Session R → Result A × R) → Exec R A
ask call s = let (r, remote) = call s in (r, record s { remote = remote; tick = suc s.tick })
