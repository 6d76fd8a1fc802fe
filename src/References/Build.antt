-- ===== src/References/Build.antt =====
-- src/store/refs.rs: what the index that is built answers.
use agent_first_mail.Prelude.{
  ℕ, suc, String, ◌≡◌, refl, ◌∙◌, ap, sym, Bool, true, false, not, ◌||◌, Bool-cases, some, List, [],
  ◌∷◌, ◌++◌, length, length-append, any, retain, get_elem?, arith, is_some, if◌then◌else◌, Map,
  lookup, insert, lookup-insert, Result, inl, inr, All, OnOk, ok-OnOk, err-OnOk, bind-OnOk,
  refuse_if, AppError, ◌>>◌,
}
use agent_first_mail.References.{
  member, CaseIndexEntry, CaseIndex, CaseFolder, is_active_status, is_archived_status, read_entry,
  read_entries, entry_of, or_default, index_ids, index_entries, build, entries_at, cons_some,
  entries_for_message, has_any_reference, has_active_reference, has_archived_reference,
  active_invalid, archived_invalid,
}
use agent_first_mail.References.Scan.{
  Distinct, id_set-Distinct, places_of, once_if, append_nil, append_assoc, lookup-index_ids,
}

abbrev lists : String → CaseIndexEntry → Bool
lists id entry = member id entry.message_ids

lookup-index_entries :
    (id : String) (i : ℕ) (entries : List CaseIndexEntry) (index : Map (List ℕ))
    → All (λ entry. Distinct entry.message_ids) entries
    → or_default (lookup id (index_entries i entries index))
      ≡ or_default (lookup id index) ++ places_of id i entries
unfolding index_entries places_of
lookup-index_entries id i [] index d = sym (append_nil (or_default (lookup id index)))
lookup-index_entries id i (entry ∷ entries) index d =
    lookup-index_entries id (suc i) entries (index_ids i entry.message_ids index) d.1
    ∙ ap (λ xs. xs ++ places_of id (suc i) entries)
        (lookup-index_ids id i entry.message_ids index d.0)
    ∙ append_assoc (or_default (lookup id index)) (once_if (lists id entry) i)
        (places_of id (suc i) entries)

listed-index_ids :
    (id : String) (i : ℕ) (ids : List String) (index : Map (List ℕ))
    → is_some (lookup id (index_ids i ids index)) ≡ (member id ids || is_some (lookup id index))
unfolding index_ids any
listed-index_ids id i [] index = refl
listed-index_ids id i (first ∷ ids) index =
    listed-index_ids id i ids (insert first (or_default (lookup first index) ++ i ∷ []) index)
    ∙ rw lookup-insert (ground arith)

listed-index_entries :
    (id : String) (i : ℕ) (entries : List CaseIndexEntry) (index : Map (List ℕ))
    → is_some (lookup id (index_entries i entries index))
      ≡ (any (lists id) entries || is_some (lookup id index))
unfolding index_entries any
listed-index_entries id i [] index = refl
listed-index_entries id i (entry ∷ entries) index =
    listed-index_entries id (suc i) entries (index_ids i entry.message_ids index)
    ∙ rw (listed-index_ids id i entry.message_ids index) (ground arith)

at_end :
    (before after : List CaseIndexEntry) (entry : CaseIndexEntry)
    → get_elem? (before ++ entry ∷ after) (length before) ≡ some entry
at_end [] after entry = refl
at_end (first ∷ before) after entry = at_end before after entry

entries_at-places :
    (id : String) (before entries : List CaseIndexEntry) (i : ℕ)
    → length before ≡ i
    → entries_at (before ++ entries) (places_of id i entries) ≡ retain (lists id) entries
unfolding entries_at places_of retain
entries_at-places id before [] i h = refl
entries_at-places id before (entry ∷ entries) i h =
    let rest =
      entries_at-places id (before ++ entry ∷ []) entries (suc i)
        (length-append before (entry ∷ []) ∙ omega (arith, h)) in
    let later : entries_at (before ++ entry ∷ entries) (places_of id (suc i) entries)
        ≡ retain (lists id) entries =
      ap (λ es. entries_at es (places_of id (suc i) entries))
        (sym (append_assoc before (entry ∷ []) entries))
      ∙ rest in
    elim (Bool-cases (lists id entry)) [
      | inl listed ↦ rw listed (
          ap
            (λ o.
              cons_some o (entries_at (before ++ entry ∷ entries) (places_of id (suc i) entries)))
            (ap (get_elem? (before ++ entry ∷ entries)) (sym h) ∙ at_end before entries entry)
          ∙ ap (λ es. entry ∷ es) later)
      | inr other ↦ rw other later
    ]

abbrev Good : (String → Bool) → CaseIndexEntry → Type 0
Good valid entry = Distinct entry.message_ids × (valid entry.status ≡ true)

refused-OnOk :
    {A : Type 0} (P : A → Type 0) (b : Bool) (e : AppError) (m : Result A)
    → (b ≡ true → OnOk P m)
    → OnOk P (refuse_if (not b) e >> m)
refused-OnOk P true e m h = h refl
refused-OnOk P false e m h = err-OnOk P e

chosen-OnOk :
    {A : Type 0} (P : A → Type 0) (b : Bool) (first second : Result A)
    → OnOk P first
    → OnOk P second
    → OnOk P (if b then first else second)
chosen-OnOk P true first second h g = h
chosen-OnOk P false first second h g = g

read_entries-Good :
    (valid : String → Bool) (invalid : CaseFolder → String → AppError) (folders : List CaseFolder)
    → OnOk (All (Good valid)) (read_entries valid invalid folders)
unfolding read_entries Distinct
read_entries-Good valid invalid [] = ok-OnOk (All (Good valid)) [] tt
read_entries-Good valid invalid (folder ∷ folders) =
    let P = All (Good valid) in
    let rest = read_entries valid invalid folders in
    let later = read_entries-Good valid invalid folders in
    chosen-OnOk P folder.has_json (read_entry valid invalid folder rest) rest
      (bind-OnOk P folder.messages _ λ messages e.
        refused-OnOk P (valid messages.status) (invalid folder messages.status) _ λ v.
          bind-OnOk P rest _ λ entries g.
            ok-OnOk P (entry_of folder messages ∷ entries)
              ((id_set-Distinct messages.message_ids [] tt, v), later.at entries g))
      later

-- An archived status is no active one, and the entries of a workspace have one or the other.
abbrev known : CaseIndexEntry → Bool
known entry = is_active_status entry.status || is_archived_status entry.status

All-known :
    (valid : String → Bool) (entries : List CaseIndexEntry)
    → ((status : String)
        → valid status ≡ true
        → (is_active_status status || is_archived_status status) ≡ true)
    → All (Good valid) entries
    → All (λ entry. Distinct entry.message_ids × (known entry ≡ true)) entries
All-known valid [] h g = tt
All-known valid (entry ∷ entries) h g =
    ((g.0.0, h entry.status g.0.1), All-known valid entries h g.1)

All-append : {A : Type 0} (P : A → Type 0) (xs ys : List A) → All P xs → All P ys → All P (xs ++ ys)
All-append P [] ys h g = g
All-append P (x ∷ xs) ys h g = (h.0, All-append P xs ys h.1 g)

any-known :
    (id : String) (entries : List CaseIndexEntry)
    → All (λ entry. Distinct entry.message_ids × (known entry ≡ true)) entries
    → any (lists id) entries ≡ (
        any (λ (entry : CaseIndexEntry). is_active_status entry.status) (retain (lists id) entries)
        || any
            (λ (entry : CaseIndexEntry). is_archived_status entry.status)
            (retain (lists id) entries))
unfolding any retain
any-known id [] h = refl
any-known id (entry ∷ entries) h = elim (Bool-cases (lists id entry)) [
  | inl listed ↦ rw listed (ground (arith, h.0.1))
  | inr other ↦ rw other (any-known id entries h.1)
]

All-Distinct :
    (entries : List CaseIndexEntry)
    → All (λ entry. Distinct entry.message_ids × (known entry ≡ true)) entries
    → All (λ entry. Distinct entry.message_ids) entries
All-Distinct [] h = tt
All-Distinct (entry ∷ entries) h = (h.0.0, All-Distinct entries h.1)

-- The index answers as a scan of its entries does, and a message that a case lists is listed by an
-- active case or by an archived one.
pub record IsScan (index : CaseIndex) : Type 0 where
  pub entries :
      (id : String)
      → entries_for_message index id
        ≡ retain (λ (entry : CaseIndexEntry). member id entry.message_ids) index.entries
  pub referenced :
      (id : String)
      → has_any_reference index id
        ≡ any (λ (entry : CaseIndexEntry). member id entry.message_ids) index.entries
  pub split :
      (id : String)
      → has_any_reference index id
        ≡ (has_active_reference index id || has_archived_reference index id)

indexed-IsScan :
    (entries : List CaseIndexEntry)
    → All (λ entry. Distinct entry.message_ids × (known entry ≡ true)) entries
    → IsScan (record { entries = entries; entries_by_message = index_entries 0 entries [] })
unfolding entries_for_message has_any_reference has_active_reference has_archived_reference
indexed-IsScan entries h =
    let found : (id : String)
        → entries_at entries (or_default (lookup id (index_entries 0 entries [])))
          ≡ retain (lists id) entries =
      λ id.
        ap (entries_at entries) (lookup-index_entries id 0 entries [] (All-Distinct entries h))
        ∙ entries_at-places id [] entries 0 refl in
    let any_found : (id : String)
        → is_some (lookup id (index_entries 0 entries [])) ≡ any (lists id) entries =
      λ id. listed-index_entries id 0 entries [] ∙ ground arith in
    record {
      entries = found;
      referenced = any_found;
      split = λ id. any_found id ∙ any-known id entries h ∙ rw (found id) refl;
    }

-- The index of the cases, if it is built, answers as a scan of its entries does, and a message that a
-- case lists is listed by an active case or by an archived one.
pub build-IsScan : (active archived : List CaseFolder) → OnOk IsScan (build active archived)
unfolding build
build-IsScan active archived =
    bind-OnOk IsScan (read_entries is_active_status active_invalid active) _ λ first e.
      bind-OnOk IsScan (read_entries is_archived_status archived_invalid archived) _ λ second g.
        ok-OnOk IsScan _ (
          indexed-IsScan (first ++ second) (
            All-append _ first second
              (All-known is_active_status first (λ status v. ground arith)
                ((read_entries-Good is_active_status active_invalid active).at first e))
              (All-known is_archived_status second (λ status v. ground arith)
                ((read_entries-Good is_archived_status archived_invalid archived).at second g))))
