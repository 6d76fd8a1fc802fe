-- ===== src/References/Scan.antt =====
-- src/store/refs.rs: the index answers as a scan of the cases does.
use mathlib.Core.Path.{subst}
use agent_first_mail.Prelude.{
  is_nil, ◌&&◌, ℕ, suc, String, ◌≡◌, refl, ◌∙◌, ap, sym, Bool, true, false, ◌||◌, Bool-cases, List,
  [], ◌∷◌, ◌++◌, any, str_eq, str_lt, eq_iff, arith, Map, lookup, insert, lookup-insert, inl, inr,
}
use agent_first_mail.References.{
  place_id, member, set_insert, id_set, CaseIndexEntry, or_default, index_ids,
}

-- No key stands twice.
unfoldable pub Distinct : List String → Type 0
Distinct [] = Unit {0}
Distinct (key ∷ keys) = (member key keys ≡ false) × Distinct keys

member-place_id :
    (asked key : String) (keys : List String)
    → member asked (place_id key keys) ≡ (str_eq key asked || member asked keys)
unfolding place_id any
member-place_id asked key [] = refl
member-place_id asked key (first ∷ rest) = ground (arith, member-place_id asked key rest)

place_id-Distinct :
    (key : String) (keys : List String)
    → member key keys ≡ false
    → Distinct keys
    → Distinct (place_id key keys)
unfolding place_id any Distinct
place_id-Distinct key [] n d = (refl, tt)
place_id-Distinct key (first ∷ rest) n d = elim (Bool-cases (str_lt key first)) [
  | inl below ↦ rw below (n, d)
  | inr above ↦ rw above (
    member-place_id first key rest ∙ ground (arith, n, d.0, eq_iff first key, eq_iff key first),
    place_id-Distinct key rest (ground (arith, n)) d.1,
  )
]

pub id_set-Distinct : (ids keys : List String) → Distinct keys → Distinct (id_set ids keys)
unfolding id_set set_insert
id_set-Distinct [] keys d = d
id_set-Distinct (id ∷ ids) keys d = elim (Bool-cases (member id keys)) [
  | inl there ↦ rw there (id_set-Distinct ids keys d)
  | inr fresh ↦
      rw fresh (id_set-Distinct ids (place_id id keys) (place_id-Distinct id keys fresh d))
]

abbrev pub once_if : Bool → ℕ → List ℕ
once_if true i = i ∷ []
once_if false i = []

-- The places of the entries that list the message, from place i on.
unfoldable pub places_of : String → ℕ → List CaseIndexEntry → List ℕ
places_of id i [] = []
places_of id i (entry ∷ entries) =
    once_if (member id entry.message_ids) i ++ places_of id (suc i) entries

pub append_nil : {A : Type 0} (xs : List A) → xs ++ [] ≡ xs
append_nil [] = refl
append_nil (x ∷ xs) = ap (λ ys. x ∷ ys) (append_nil xs)

pub append_assoc : {A : Type 0} (xs ys zs : List A) → (xs ++ ys) ++ zs ≡ xs ++ (ys ++ zs)
append_assoc [] ys zs = refl
append_assoc (x ∷ xs) ys zs = ap (λ us. x ∷ us) (append_assoc xs ys zs)

pub lookup-index_ids :
    (id : String) (i : ℕ) (ids : List String) (index : Map (List ℕ))
    → Distinct ids
    → or_default (lookup id (index_ids i ids index))
      ≡ or_default (lookup id index) ++ once_if (member id ids) i
unfolding index_ids any Distinct
lookup-index_ids id i [] index d = sym (append_nil (or_default (lookup id index)))
lookup-index_ids id i (first ∷ ids) index d =
    let next = insert first (or_default (lookup first index) ++ i ∷ []) index in
    lookup-index_ids id i ids next d.1 ∙ after_first
  where
    after_first :
        or_default (lookup id (insert first (or_default (lookup first index) ++ i ∷ []) index))
          ++ once_if (member id ids) i
        ≡ or_default (lookup id index) ++ once_if (str_eq first id || member id ids) i
    after_first = elim (Bool-cases (str_eq first id)) [
      | inl same ↦
          let at : first ≡ id = ground (arith, eq_iff first id) in
          let others : member id ids ≡ false = subst (λ k. member k ids ≡ false) at d.0 in
          rw lookup-insert (
            rw (same, others)
              (append_nil (or_default (lookup first index) ++ i ∷ [])
                ∙ ap (λ k. or_default (lookup k index) ++ i ∷ []) at))
      | inr differs ↦ rw lookup-insert (rw differs refl)
    ]

is_nil-set_insert : (id : String) (keys : List String) → is_nil (set_insert id keys) ≡ false
unfolding set_insert place_id any
is_nil-set_insert id [] = refl
is_nil-set_insert id (first ∷ rest) = ground arith

pub is_nil-id_set :
    (ids keys : List String) → is_nil (id_set ids keys) ≡ (is_nil ids && is_nil keys)
unfolding id_set
is_nil-id_set [] keys = refl
is_nil-id_set (id ∷ ids) keys =
    is_nil-id_set ids (set_insert id keys)
    ∙ ap (λ b. is_nil ids && b) (is_nil-set_insert id keys)
    ∙ ground arith
