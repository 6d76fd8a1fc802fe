-- ===== src/Consumer/Promise.antt =====
-- src/sources/cloudflare/journal.rs: what a valid journal promises of its active batch.
use Prim.Native.String.{len}
use text.Mathlib.Text.{starts_with}
use agent_first_mail.Prelude.{
  ℕ, zero, suc, ◌≤◌, String, ◌≡◌, ◌↔◌, ◌⊎◌, ◌≢◌, refl, ap, true, false, Option, none, some, List,
  [], ◌∷◌, arith, all, All, get_elem?, Map, lookup, ok, eq_iff, str_eq, Bool-cases, inl, inr,
}
use agent_first_mail.Consumer.{
  Task, TaskStatus, pending, Batch, Journal, has_key, distinct, is_pending, has_status, codes,
  safe_byte, safe_task_id, validate_batch, validate_active,
}
use agent_first_mail.Consumer.Valid.{IsReady, IsReady-of_valid, valid-of_IsReady}

-- A digit, a letter, an underscore or a hyphen of ASCII.
abbrev pub IsSafe : ℕ → Type 0
IsSafe b =
    ((48 ≤ b) × (b ≤ 57))
    ⊎ (((65 ≤ b) × (b ≤ 90)) ⊎ (((97 ≤ b) × (b ≤ 122)) ⊎ ((b ≡ 95) ⊎ (b ≡ 45))))

-- No key stands at two places.
abbrev pub NoRepeat : List String → Type 0
NoRepeat keys =
    (i j : ℕ) (k : String) → get_elem? keys i ≡ some k → get_elem? keys j ≡ some k → i ≡ j

pub record Promised (tasks : Map Task) (b : Batch) : Type 0 where
  pub named : starts_with b.task_id "mail_" ≡ true
  pub short : len b.task_id ≤ 128
  pub plain : All IsSafe (codes b.task_id)
  pub nonempty : b.content_keys ≢ []
  pub no_repeat : NoRepeat b.content_keys
  pub waiting :
      (i : ℕ) (k : String)
      → get_elem? b.content_keys i ≡ some k
      → (t : Task) × (lookup k tasks ≡ some t) × (t.status ≡ pending)

place_of :
    (k : String) (keys : List String)
    → has_key k keys ≡ true
    → (i : ℕ) × (get_elem? keys i ≡ some k)
place_of k [] h = absurd (cc)
place_of k (j ∷ keys) h = elim (Bool-cases (str_eq j k)) [
  | inl same ↦ (zero, ap some (ground (arith, same, eq_iff j k)))
  | inr other ↦ let (i, e) = place_of k keys (ground (arith, h, other)) in (suc i, e)
]

has_key-at :
    (k : String) (keys : List String) (i : ℕ) → get_elem? keys i ≡ some k → has_key k keys ≡ true
has_key-at k [] i e = absurd (cc)
has_key-at k (j ∷ keys) zero e = ground (arith, e, eq_iff j k)
has_key-at k (j ∷ keys) (suc i) e = ground (arith, has_key-at k keys i e)

NoRepeat-distinct : (keys : List String) → distinct keys ≡ true → NoRepeat keys
NoRepeat-distinct [] h i j k e g = absurd (cc)
NoRepeat-distinct (x ∷ keys) h zero zero k e g = refl
NoRepeat-distinct (x ∷ keys) h zero (suc j) k e g =
    absurd (ground (arith, h, e, has_key-at k keys j g))
NoRepeat-distinct (x ∷ keys) h (suc i) zero k e g =
    absurd (ground (arith, h, g, has_key-at k keys i e))
NoRepeat-distinct (x ∷ keys) h (suc i) (suc j) k e g =
    ap suc (NoRepeat-distinct keys (ground (arith, h)) i j k e g)

fresh_first : (x : String) (keys : List String) → NoRepeat (x ∷ keys) → has_key x keys ≡ false
fresh_first x keys h = elim (Bool-cases (has_key x keys)) [
  | inl held ↦ let (i, e) = place_of x keys held in absurd (omega (arith, h zero (suc i) x refl e))
  | inr new ↦ new
]

distinct-NoRepeat : (keys : List String) → NoRepeat keys → distinct keys ≡ true
distinct-NoRepeat [] h = refl
distinct-NoRepeat (x ∷ keys) h =
    let rest = distinct-NoRepeat keys (λ i j k e g. omega (arith, h (suc i) (suc j) k e g)) in
    ground (arith, fresh_first x keys h, rest)

pending_status : (s : TaskStatus) → is_pending s ≡ true → s ≡ pending
pending_status s h = ground arith

waits_as :
    (o : Option Task)
    → has_status is_pending o ≡ true
    → (t : Task) × (o ≡ some t) × (t.status ≡ pending)
waits_as none h = absurd (cc)
waits_as (some t) h = (t, refl, pending_status t.status h)

plain_codes : (bs : List ℕ) → all safe_byte bs ≡ true → All IsSafe bs
unfolding all safe_byte
plain_codes [] h = tt
plain_codes (b ∷ bs) h = (ground arith, plain_codes bs (ground arith))

all_plain : (bs : List ℕ) → All IsSafe bs → all safe_byte bs ≡ true
unfolding all safe_byte
all_plain [] h = refl
all_plain (b ∷ bs) h = ground (arith, h.0, all_plain bs h.1)

Promised-IsReady : (tasks : Map Task) (b : Batch) → IsReady tasks b → Promised tasks b
unfolding safe_task_id
Promised-IsReady tasks b r = record {
  named = ground (arith, r.safe);
  short = ground (arith, r.safe);
  plain = plain_codes (codes b.task_id) (ground (arith, r.safe));
  nonempty = r.nonempty;
  no_repeat = NoRepeat-distinct b.content_keys r.no_repeat;
  waiting = λ i k e. waits_as (lookup k tasks) (r.waiting k (has_key-at k b.content_keys i e));
}

IsReady-Promised : (tasks : Map Task) (b : Batch) → Promised tasks b → IsReady tasks b
unfolding safe_task_id
IsReady-Promised tasks b p = record {
  safe = ground (arith, p.named, p.short, all_plain (codes b.task_id) p.plain);
  nonempty = p.nonempty;
  no_repeat = distinct-NoRepeat b.content_keys p.no_repeat;
  waiting = λ k held.
      let (i, e) = place_of k b.content_keys held in
      let (t, found, waits) = p.waiting i k e in rw found (rw waits refl);
}

validate_batch_iff :
    (tasks : Map Task) (a : Option Batch)
    → (validate_batch tasks a ≡ ok tt)
      ↔ ((a ≡ none) ⊎ ((b : Batch) × (a ≡ some b) × Promised tasks b))
validate_batch_iff tasks none = (λ _. inl refl, λ _. unfold validate_batch in refl)
validate_batch_iff tasks (some b) = (
  λ h. inr (b, refl, Promised-IsReady tasks b (IsReady-of_valid tasks b h)),
  elim [
    | inl e ↦ absurd (cc)
    | inr (b', e, p) ↦ rw e (valid-of_IsReady tasks b' (IsReady-Promised tasks b' p))
  ],
)

-- The check that `load` and `apply_completed` make accepts exactly the journals with no active batch,
-- and those whose batch has an id of at most 128 characters that starts with mail_ and has ASCII
-- letters, digits, underscores and hyphens only, and keys, at least one and none at two places, each of
-- a waiting task.
pub validate_active_iff :
    (j : Journal)
    → (validate_active j ≡ ok tt)
      ↔ ((j.active ≡ none) ⊎ ((b : Batch) × (j.active ≡ some b) × Promised j.tasks b))
unfolding validate_active
validate_active_iff j = validate_batch_iff j.tasks j.active
