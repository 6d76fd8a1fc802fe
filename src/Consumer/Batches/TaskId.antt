-- ===== src/Consumer/Batches/TaskId.antt =====
-- src/sources/cloudflare/consumer.rs: the id of a new batch is one that the journal accepts.
use Prim.Native.String.{len, ◌++◌ as str_append}
use Prim.Native.String.append
use text.Mathlib.TextPositions.{starts_with_of_prefix, len-append}
use agent_first_mail.Prelude.{
  ℕ, String, ◌≡◌, refl, true, Bool, ◌||◌, ◌&&◌, List, [], ◌∷◌, ◌++◌, arith, leb, all,
}
use agent_first_mail.Consumer.{codes, safe_byte, safe_task_id}

abbrev hex_byte : ℕ → Bool
hex_byte b = (leb b'0' b && leb b b'9') || (leb b'a' b && leb b b'f')

-- What the program relies on of the digest's text: 64 lower-case hexadecimal digits.
pub record IsHexDigest (digest : List String → String) : Type 0 where
  pub size : (keys : List String) → len (digest keys) ≡ 64
  pub hex : (keys : List String) → all hex_byte (codes (digest keys)) ≡ true

codes-append : (s t : String) → codes (str_append s t) ≡ codes s ++ codes t
codes-append String.[] t = rw append.nil
codes-append (String.◌∷◌ c s) t = rw (append.cons, codes-append s t)

all_safe-of_hex : (bs : List ℕ) → all hex_byte bs ≡ true → all safe_byte bs ≡ true
unfolding all safe_byte
all_safe-of_hex [] h = refl
all_safe-of_hex (b ∷ bs) h = ground (arith, all_safe-of_hex bs)

pub safe_task_id-mail :
    (digest : List String → String)
    → IsHexDigest digest
    → (keys : List String) → safe_task_id (str_append "mail_" (digest keys)) ≡ true
unfolding safe_task_id
safe_task_id-mail digest h keys = ground (
  arith,
  starts_with_of_prefix "mail_" (str_append "mail_" (digest keys)) (digest keys, refl),
  len-append "mail_" (digest keys),
  h.size keys,
  codes-append "mail_" (digest keys),
  all_safe-of_hex (codes (digest keys)) (h.hex keys),
)
