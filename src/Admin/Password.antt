-- ===== src/Admin/Password.antt =====
-- Passwords and their argon2 hashes (src/admin/password.rs).
pub mod Compare
use Prim.Native.Nat.{bit_or, bit_xor}
use Prim.Native.Char.{code}
use lite_agentify.Prelude.{
  ℕ, ◌+◌, ◌/◌, ◌%◌, String, Bool, true, false, Option, none, some, List, [], ◌∷◌, ◌++◌, length,
  is_some, ltb, nat_beq, if◌then◌else◌,
}
use lite_agentify.Prelude.Text.{strip_prefix, byte_len}

-- The argon2 crate: a salted hash as a PHC text, or its error; the parsing of such a text; and the
-- comparison with it.
pub record Argon2 : Type 1 where
  pub PasswordHash : Type 0
  pub hash_password : (salt : ℕ) → String → Option String
  pub parse_hash : String → Option PasswordHash
  pub verify : PasswordHash → String → Bool

unfoldable pub is_phc_hash : String → Bool
unfolding strip_prefix
is_phc_hash value = is_some (strip_prefix "$argon2" value)

-- The bytes of a code point in UTF-8.
abbrev pub utf8 : ℕ → List ℕ
utf8 c =
    if ltb c 128
    then c ∷ []
    else if ltb c 2048
    then (192 + c / 64) ∷ (128 + c % 64) ∷ []
    else if ltb c 65536
    then (224 + c / 4096) ∷ (128 + c / 64 % 64) ∷ (128 + c % 64) ∷ []
    else (240 + c / 262144) ∷ (128 + c / 4096 % 64) ∷ (128 + c / 64 % 64) ∷ (128 + c % 64) ∷ []

-- `text.as_bytes()`.
unfoldable pub as_bytes : String → List ℕ
as_bytes String.[] = []
as_bytes (String.◌∷◌ c s) = utf8 (code c) ++ as_bytes s

-- The fold over the zipped bytes.
unfoldable pub differences : ℕ → List ℕ → List ℕ → ℕ
differences acc [] bs = acc
differences acc (x ∷ xs) [] = acc
differences acc (x ∷ xs) (y ∷ ys) = differences (bit_or acc (bit_xor x y)) xs ys

unfoldable pub constant_time_eq : List ℕ → List ℕ → Bool
unfolding differences
constant_time_eq a b =
    if nat_beq (length a) (length b) then nat_beq (differences 0 a b) 0 else false

module _ (crypt : Argon2) where
  unfoldable pub verify_password : (stored submitted : String) → Bool
  unfolding is_phc_hash as_bytes constant_time_eq
  verify_password stored submitted =
      if is_phc_hash stored
      then elim (crypt.parse_hash stored) [ none ↦ false | some hash ↦ crypt.verify hash submitted ]
      else constant_time_eq (as_bytes stored) (as_bytes submitted)
