-- ===== src/Json.antt =====
-- The interface to serde_json, which the usage parser and the proxy take as a parameter: the
-- operations on `Value` that they call, and the laws of JSON objects that the proofs use.
use lite_agentify.Prelude.{ℕ, String, Bool, true, ◌≡◌, ◌≢◌, Option, none, some, List, []}
use lite_agentify.Prelude.Int.{ℤ}

abbrev pub Bytes : Type 0
Bytes = List ℕ

pub record JsonOps : Type 1 where
  pub Value : Type 0
  pub from_slice : Bytes → Option Value
  -- `std::str::from_utf8(bytes)` and `serde_json::from_str(text)`
  pub from_utf8 : Bytes → Option String
  pub from_str : String → Option Value
  pub to_vec : Value → Option Bytes
  -- `value.get(key)`; none if the value is no object or has no such key
  pub get_key : Value → String → Option Value
  -- `value.pointer(path)`
  pub pointer : Value → String → Option Value
  pub as_i64 : Value → Option ℤ
  pub as_str : Value → Option String
  -- `value.as_object_mut()` gives an object
  pub is_object : Value → Bool
  -- `object.insert(key, value)`
  pub insert_key : Value → String → Value → Value
  pub string_value : String → Value
  -- `json!({..})`
  pub object : List (String × Value) → Value

-- An object holds what was inserted last and is otherwise unchanged; only an object has keys; no
-- bytes are no JSON.
pub record JsonLaws (j : JsonOps) : Type 0 where
  pub get-insert_self :
      (v x : j.Value) (k : String)
      → j.is_object v ≡ true
      → j.get_key (j.insert_key v k x) k ≡ some x
  pub get-insert_ne :
      (v x : j.Value) (k i : String)
      → k ≢ i
      → j.is_object v ≡ true
      → j.get_key (j.insert_key v k x) i ≡ j.get_key v i
  pub object_of_key : (v x : j.Value) (k : String) → j.get_key v k ≡ some x → j.is_object v ≡ true
  pub as_str-string : (s : String) → j.as_str (j.string_value s) ≡ some s
  pub from_slice-empty : j.from_slice [] ≡ none
