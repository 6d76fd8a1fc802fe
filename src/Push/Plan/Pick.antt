-- ===== src/Push/Plan/Pick.antt =====
-- src/push_queue/plan.rs: what one round of the loop takes out of the remaining items.
use mathlib.Core.List.{Perm, perm_middle}
use mathlib.Core.List.Perm
use mathlib.Core.Path.{subst}
use agent_first_mail.Prelude.{
  ℕ, suc, length, length-append, ◌≡◌, refl, sym, ap, Bool, true, false, some, List, [], ◌∷◌, ◌++◌,
  arith, any, retain, All, Bool-cases, inl, inr,
}
use agent_first_mail.Push.Plan.{position, remove_at, one_later, take_first}

module _ {A : Type 0} where
  -- The first element that passes the test, and the others in their order.
  pub record IsFirst (test : A → Bool) (xs : List A) (taken : A) (rest : List A) : Type 0 where
    pub skipped : List A
    pub after : List A
    pub whole : xs ≡ skipped ++ taken ∷ after
    pub left : rest ≡ skipped ++ after
    pub fails : All (λ x. test x ≡ false) skipped
    pub passes : test taken ≡ true

  position_found :
      (test : A → Bool) (xs : List A) → any test xs ≡ true → (i : ℕ) × (position test xs ≡ some i)
  unfolding position any
  position_found test [] h = absurd (cc)
  position_found test (x ∷ xs) h = elim (Bool-cases (test x)) [
    | inl hit ↦ (0, rw hit)
    | inr miss ↦
        let (i, found) = position_found test xs (ground (arith, miss)) in
        (suc i, rw miss (rw found))
  ]

  position_later :
      (test : A → Bool) (x : A) (xs : List A)
      → test x ≡ false
      → position test (x ∷ xs) ≡ one_later (position test xs)
  unfolding position
  position_later test x xs miss = rw miss

  take_first_later :
      (test : A → Bool) (x y : A) (ys : List A)
      → test x ≡ false
      → any test (y ∷ ys) ≡ true
      → take_first test x (y ∷ ys) ≡ ((take_first test y ys).0, x ∷ (take_first test y ys).1)
  unfolding remove_at
  take_first_later test x y ys miss h =
      let (i, found) = position_found test (y ∷ ys) h in
      rw (position_later test x (y ∷ ys) miss, found)

  pub take_first-IsFirst :
      (test : A → Bool) (x : A) (xs : List A)
      → any test (x ∷ xs) ≡ true
      → IsFirst test (x ∷ xs) (take_first test x xs).0 (take_first test x xs).1
  unfolding any remove_at position
  take_first-IsFirst test x [] h = elim (Bool-cases (test x)) [
    | inl hit ↦
        rw hit
          (record { skipped = []; after = []; whole = refl; left = refl; fails = tt; passes = hit })
    | inr miss ↦ absurd (ground (arith, miss))
  ]
  take_first-IsFirst test x (y ∷ ys) h = elim (Bool-cases (test x)) [
    | inl hit ↦ rw hit (record {
      skipped = [];
      after = y ∷ ys;
      whole = refl;
      left = refl;
      fails = tt;
      passes = hit;
    })
    | inr miss ↦
        let there : any test (y ∷ ys) ≡ true = ground (arith, miss) in
        let f = take_first-IsFirst test y ys there in
        rw (take_first_later test x y ys miss there) (record {
          skipped = x ∷ f.skipped;
          after = f.after;
          whole = ap (◌∷◌ x) f.whole;
          left = ap (◌∷◌ x) f.left;
          fails = (miss, f.fails);
          passes = f.passes;
        })
  ]

  pub All-append : (P : A → Type 0) (xs ys : List A) → All P (xs ++ ys) → All P xs × All P ys
  All-append P [] ys h = (tt, h)
  All-append P (x ∷ xs) ys h = let (p, q) = All-append P xs ys h.1 in ((h.0, p), q)

  pub append-All : (P : A → Type 0) (xs ys : List A) → All P xs → All P ys → All P (xs ++ ys)
  append-All P [] ys h k = k
  append-All P (x ∷ xs) ys h k = (h.0, append-All P xs ys h.1 k)

  -- The taken element and the rest have each property that all had.
  pub All-first :
      (P : A → Type 0) (test : A → Bool) (xs rest : List A) (taken : A)
      → IsFirst test xs taken rest
      → All P xs
      → P taken × All P rest
  All-first P test xs rest taken f h =
      let parts = All-append P f.skipped (taken ∷ f.after) (subst (All P) f.whole h) in
      (parts.1.0, subst (All P) (sym f.left) (append-All P f.skipped f.after parts.0 parts.1.1))

  pub length-first :
      (test : A → Bool) (xs rest : List A) (taken : A)
      → IsFirst test xs taken rest
      → length xs ≡ suc (length rest)
  length-first test xs rest taken f = omega (
    arith,
    ap length f.whole,
    ap length f.left,
    length-append f.skipped (taken ∷ f.after),
    length-append f.skipped f.after,
  )

  pub perm-first :
      (test : A → Bool) (xs rest : List A) (taken : A)
      → IsFirst test xs taken rest
      → Perm (taken ∷ rest) xs
  perm-first test xs rest taken f =
      subst (λ l. Perm (taken ∷ l) xs) (sym f.left)
        (subst (λ l. Perm (taken ∷ f.skipped ++ f.after) l) (sym f.whole)
          (Perm.symm (perm_middle f.skipped f.after)))

  pub retain-skipped :
      (p test : A → Bool) (xs ys : List A)
      → ((x : A) → p x ≡ true → test x ≡ true)
      → All (λ x. test x ≡ false) xs
      → retain p (xs ++ ys) ≡ retain p ys
  unfolding retain
  retain-skipped p test [] ys h fails = refl
  retain-skipped p test (x ∷ xs) ys h fails = elim (Bool-cases (p x)) [
    | inl kept ↦ absurd (let hit = h x kept in let miss = fails.0 in cc)
    | inr dropped ↦ rw dropped (retain-skipped p test xs ys h fails.1)
  ]

  -- Elements that pass the test keep their places among each other.
  pub retain-first :
      (p test : A → Bool) (xs rest : List A) (taken : A)
      → IsFirst test xs taken rest
      → ((x : A) → p x ≡ true → test x ≡ true)
      → retain p (taken ∷ rest) ≡ retain p xs
  unfolding retain
  retain-first p test xs rest taken f h =
      let whole = retain-skipped p test f.skipped (taken ∷ f.after) h f.fails in
      let left = retain-skipped p test f.skipped f.after h f.fails in
      rw (f.whole, whole) (rw (f.left, left))

  pub any-All : (p : A → Bool) (xs : List A) → any p xs ≡ false → All (λ x. p x ≡ false) xs
  unfolding any
  any-All p [] h = tt
  any-All p (x ∷ xs) h = (ground arith, any-All p xs (ground arith))

  pub All-any : (p : A → Bool) (xs : List A) → All (λ x. p x ≡ false) xs → any p xs ≡ false
  unfolding any
  All-any p [] h = refl
  All-any p (x ∷ xs) h = ground (arith, All-any p xs h.1)

  pub any_here : (p : A → Bool) (x : A) (xs : List A) → p x ≡ true → any p (x ∷ xs) ≡ true
  unfolding any
  any_here p x xs h = rw h

  pub any_both :
      (P : A → Type 0) (p q : A → Bool) (xs : List A)
      → ((x : A) → P x → p x ≡ true → q x ≡ true)
      → All P xs
      → any p xs ≡ true
      → any q xs ≡ true
  unfolding any
  any_both P p q [] h all found = found
  any_both P p q (x ∷ xs) h all found = elim (Bool-cases (p x)) [
    | inl here ↦ rw (h x all.0 here)
    | inr later ↦
        let rest = any_both P p q xs h all.1 (ground (arith, later)) in ground (arith, rest)
  ]
