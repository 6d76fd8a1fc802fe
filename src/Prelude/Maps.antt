-- ===== src/Prelude/Maps.antt =====
-- A `BTreeMap<String, V>` as a list of entries in the order of their keys: the first entry of a key
-- counts, and what drops an entry drops every entry of its key.
use Prim.Native.Nat.{Ordering}
use Prim.Native.String.{compare}
use Prim.Native.String.{String}
use mathlib.Core.Path.{◌≡◌, refl}
use mathlib.Core.Bool.{Bool, true, false}
use mathlib.Core.List.{List, [], ◌∷◌}
use mathlib.Core.Option.{Option, none, some}
use native.Mathlib.Omega.{arith}
use text.Mathlib.TextEquality.{eq_iff}
use agent_first_mail.Prelude.Tests.{str_eq, if◌then◌else◌}

abbrev pub Map {ℓ} : Type ℓ → Type ℓ
Map V = List (String × V)

abbrev pub keep_if {ℓ} : {V : Type ℓ} → (V → Bool) → Option V → Option V
keep_if p none = none
keep_if p (some v) = if p v then some v else none

-- The order of `String`, which is that of its bytes.
abbrev pub str_lt : String → String → Bool
str_lt a b = elim (compare a b) [ Ordering.lt ↦ true | _ ↦ false ]

module _ {ℓ} {V : Type ℓ} where
  -- `get`
  unfoldable pub lookup : String → Map V → Option V
  lookup key [] = none
  lookup key ((first, value) ∷ entries) =
      if str_eq first key then some value else lookup key entries

  -- `insert`, at the place of its key
  unfoldable pub insert : String → V → Map V → Map V
  insert key value [] = (key, value) ∷ []
  insert key value ((first, old) ∷ entries) =
      let rest = insert key value entries in
      if str_eq first key
      then (key, value) ∷ entries
      else if str_lt key first
      then (key, value) ∷ (first, old) ∷ entries
      else (first, old) ∷ rest

  -- `remove`
  unfoldable pub remove : String → Map V → Map V
  remove k [] = []
  remove k ((j, v) ∷ m) = let rest = remove k m in if str_eq j k then rest else (j, v) ∷ rest

  -- `retain`, by a test on the values
  unfoldable pub retain_values : (V → Bool) → Map V → Map V
  unfolding remove
  retain_values p [] = []
  retain_values p ((j, v) ∷ m) =
      let rest = retain_values p m in if p v then (j, v) ∷ rest else remove j rest

  -- `values`
  abbrev pub values : Map V → List V
  values [] = []
  values ((j, v) ∷ m) = v ∷ values m

  -- `keys`
  abbrev pub keys : Map V → List String
  keys [] = []
  keys ((j, v) ∷ m) = j ∷ keys m

  pub lookup-insert :
      (new asked : String) (value : V) (entries : Map V)
      → lookup asked (insert new value entries)
        ≡ (if str_eq new asked then some value else lookup asked entries)
  unfolding lookup insert
  lookup-insert new asked value [] = refl
  lookup-insert new asked value ((first, old) ∷ entries) =
      let rest = lookup-insert new asked value entries in
      ground (arith, rest, eq_iff first asked, eq_iff first new, eq_iff new asked)

  pub lookup-remove :
      (k j : String) (m : Map V) → lookup j (remove k m) ≡ (if str_eq k j then none else lookup j m)
  unfolding lookup remove
  lookup-remove k j [] = ground arith
  lookup-remove k j ((i, w) ∷ m) =
      ground (arith, eq_iff k j, eq_iff i k, eq_iff i j, lookup-remove k j m)

  pub lookup-retain_values :
      (p : V → Bool) (k : String) (m : Map V)
      → lookup k (retain_values p m) ≡ keep_if p (lookup k m)
  unfolding lookup retain_values
  lookup-retain_values p k [] = refl
  lookup-retain_values p k ((j, v) ∷ m) =
      ground (arith, eq_iff j k, lookup-retain_values p k m, lookup-remove j k (retain_values p m))
