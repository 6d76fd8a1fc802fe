-- ===== src/Prelude/Outcome.antt =====
-- src/error.rs: the error value, and results of fallible code. Of the JSON `details` the program
-- reads two Booleans back, and those are kept; hints are text for people and are left out.
use Prim.Native.String.{String}
use mathlib.Core.Path.{◌≡◌, refl, subst}
use mathlib.Core.Bool.{Bool, true, false}
use mathlib.Core.Option.{Option, none, some}

pub record Details : Type 0 where
  pub remote_calls_started : Option Bool
  pub remote_effect_rejected : Option Bool

pub record AppError : Type 0 where
  pub error_code : String
  pub message : String
  pub retryable : Bool
  pub details : Option Details

-- `AppError::new`
abbrev pub app_error : String → String → AppError
app_error code text = record {
  error_code = code;
  message = text;
  retryable = false;
  details = none;
}

-- Details that say whether calls to the remote side were started.
abbrev pub with_calls : Bool → AppError → AppError
with_calls started e = record e {
  details = some (record { remote_calls_started = some started; remote_effect_rejected = none });
}

pub data Result {ℓ} (A : Type ℓ) : Type ℓ where
  ok : A → Result A
  err : AppError → Result A

infixl 5 ◌>>=◌ ◌>>◌
abbrev pub ◌>>=◌ {ℓ κ} : {A : Type ℓ} {B : Type κ} → Result A → (A → Result B) → Result B
ok a >>= f = f a
err e >>= f = err e

abbrev pub ◌>>◌ {ℓ κ} : {A : Type ℓ} {B : Type κ} → Result A → Result B → Result B
m >> k = m >>= λ _. k

-- An early return of an error, as in `if bad { return Err(e); }`.
abbrev pub refuse_if : Bool → AppError → Result (Unit {0})
refuse_if true e = err e
refuse_if false e = ok tt

-- What holds of the value, if there is one.
pub record OnOk {ℓ κ} {A : Type ℓ} (P : A → Type κ) (r : Result A) : Type (ℓ ⊔ κ) where
  pub at : (a : A) → r ≡ ok a → P a

module _ {ℓ κ} {A : Type ℓ} (P : A → Type κ) where
  pub ok-OnOk : (a : A) → P a → OnOk P (ok a)
  ok-OnOk a h = record { at = λ b e. subst P (cc) h }

  pub err-OnOk : (e : AppError) → OnOk P (err e)
  err-OnOk e = record { at = λ b g. absurd (cc) }

pub bind-OnOk {ℓ κ μ} :
    {A : Type ℓ} {B : Type κ} (P : B → Type μ) (m : Result A) (f : A → Result B)
    → ((a : A) → m ≡ ok a → OnOk P (f a))
    → OnOk P (m >>= f)
bind-OnOk P (ok a) f h = h a refl
bind-OnOk P (err e) f h = err-OnOk P e
