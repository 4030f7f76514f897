-- ===== src/Samples.antt =====
-- Concrete parameters and data for the runs and instances of the other modules: crates replaced by
-- small functions, and a gateway with two providers.
pub mod Gateway
pub mod Accounts
use lite_agentify.Prelude.{
  ℕ, suc, ◌/◌, ◌≤◌, ◌≡◌, ◌≢◌, refl, String, Bool, true, false, ◌&&◌, Option, none, some, List, [],
  ◌∷◌, ◌==◌, string_eq, nat_eq, if◌then◌else◌, arith, eq_iff, Result, ok, err, eq_of_beq,
  Bool-cases, inl, inr, subst,
}
use lite_agentify.Prelude.Int.{ℤ, pos, negsuc}
use lite_agentify.Domain.{TokenUsage, default_usage}
use lite_agentify.Model.{Jitter, open_ai, anthropic, Provider}
use lite_agentify.Decimal.{fixed}
use lite_agentify.Json.{Bytes, JsonOps, JsonLaws}
use lite_agentify.Proxy.Headers.{HeaderOps, HeaderLaws}
use lite_agentify.Proxy.Record.{Crates}

-- JSON with texts, integers and objects; an object is a chain of entries.
pub data Json : Type 0 where
  text : String → Json
  number : ℤ → Json
  nil : Json
  entry : String → Json → Json → Json

abbrev is_object : Json → Bool
is_object (text s) = false
is_object (number z) = false
is_object nil = true
is_object (entry k v rest) = is_object rest

unfoldable pub lookup : Json → String → Option Json
lookup (text s) k = none
lookup (number z) k = none
lookup nil k = none
lookup (entry i v rest) k = if i == k then some v else lookup rest k

unfoldable pub set_key : Json → String → Json → Json
set_key (text s) k x = text s
set_key (number z) k x = number z
set_key nil k x = entry k x nil
set_key (entry i v rest) k x = if i == k then entry k x rest else entry i v (set_key rest k x)

unfoldable pub get_object_key : Json → String → Option Json
unfolding lookup
get_object_key v k = if is_object v then lookup v k else none

abbrev as_text : Json → Option String
as_text (text s) = some s
as_text (number z) = none
as_text nil = none
as_text (entry k v rest) = none

abbrev as_number : Json → Option ℤ
as_number (text s) = none
as_number (number z) = some z
as_number nil = none
as_number (entry k v rest) = none

abbrev named : String → Json
named model = entry "model" (text model) nil

abbrev counts : ℤ → ℤ → Json
counts input output =
    entry "prompt_tokens" (number input) (entry "completion_tokens" (number output) nil)

-- Three texts and their bytes: two requests, and an answer that reports usage.
abbrev from_bytes : Bytes → Option Json
from_bytes [] = none
from_bytes (b ∷ []) =
    if b == 1
    then some (named "small")
    else if b == 2
    then some (named "gpt")
    else if b == 3
    then some (entry "usage" (counts (pos 7) (pos 2)) nil)
    else none
from_bytes (b ∷ (c ∷ bs)) = none

unfoldable pub to_bytes_of : Json → Option Bytes
to_bytes_of (text s) = none
to_bytes_of (number z) = none
to_bytes_of nil = none
to_bytes_of (entry k v rest) = one_entry k v rest
  where
    one_entry : String → Json → Json → Option Bytes
    one_entry k (text m) nil = if k == "model" && m == "gpt" then some (2 ∷ []) else none
    one_entry k (text m) (text s) = none
    one_entry k (text m) (number z) = none
    one_entry k (text m) (entry i v rest) = none
    one_entry k (number z) rest = none
    one_entry k nil rest = none
    one_entry k (entry i v r) rest = none

-- The lines 4 and 5 of a stream, with or without their newline.
abbrev line_text : Bytes → Option String
line_text [] = some ""
line_text (b ∷ bs) =
    if b == 4 then some "data: {usage}\n" else if b == 5 then some "data: [DONE]\n" else none

abbrev from_text : String → Option Json
from_text s = if s == "{usage}" then some (entry "usage" (counts (pos 7) (pos 2)) nil) else none

abbrev pub sample_json : JsonOps
sample_json = record {
  Value = Json;
  from_slice = from_bytes;
  from_utf8 = line_text;
  from_str = from_text;
  to_vec = to_bytes_of;
  get_key = get_object_key;
  pointer = λ v path. none;
  as_i64 = as_number;
  as_str = as_text;
  is_object = is_object;
  insert_key = λ v k x. set_key v k x;
  string_value = text;
  object = object_of;
}
  where
    object_of : List (String × Json) → Json
    object_of [] = nil
    object_of ((k, v) ∷ entries) = entry k v (object_of entries)

is_object-set_key :
    (v x : Json) (k : String) → is_object v ≡ true → is_object (set_key v k x) ≡ true
unfolding set_key
is_object-set_key (text s) x k h = cc
is_object-set_key (number z) x k h = cc
is_object-set_key nil x k h = refl
is_object-set_key (entry i w rest) x k h = ground (arith, is_object-set_key rest x k)

lookup-set_key :
    (v x : Json) (k i : String)
    → is_object v ≡ true
    → lookup (set_key v k x) i ≡ (if k == i then some x else lookup v i)
unfolding lookup set_key
lookup-set_key (text s) x k i h = cc
lookup-set_key (number z) x k i h = cc
lookup-set_key nil x k i h = refl
lookup-set_key (entry j w rest) x k i h =
    ground (arith, lookup-set_key rest x k i, eq_iff j k, eq_iff j i, eq_iff k i)

get-set_key_self :
    (v x : Json) (k : String) → is_object v ≡ true → get_object_key (set_key v k x) k ≡ some x
unfolding get_object_key
get-set_key_self v x k h =
    ground (arith, is_object-set_key v x k h, lookup-set_key v x k k h, eq_iff k k)

get-set_key_ne :
    (v x : Json) (k i : String)
    → k ≢ i
    → is_object v ≡ true
    → get_object_key (set_key v k x) i ≡ get_object_key v i
unfolding get_object_key
get-set_key_ne v x k i ne h =
    ground (arith, is_object-set_key v x k h, lookup-set_key v x k i h, eq_iff k i)

object_of_key_json : (v x : Json) (k : String) → get_object_key v k ≡ some x → is_object v ≡ true
unfolding get_object_key
object_of_key_json v x k h = ground arith

pub sample_json_laws : JsonLaws sample_json
sample_json_laws = record {
  get-insert_self = get-set_key_self;
  get-insert_ne = get-set_key_ne;
  object_of_key = object_of_key_json;
  as_str-string = λ s. refl;
  from_slice-empty = refl;
}

abbrev pub sample_header : HeaderOps
sample_header = record { Value = String; from_str = λ s. some s; to_str = λ s. some s }

pub sample_header_laws : HeaderLaws sample_header
sample_header_laws = record { to_str-from_str = λ s v h. ground arith }

-- Half of the bound, whatever is drawn.
pub half-le : (n : ℕ) → n / 2 ≤ n
half-le n = omega arith

abbrev pub sample_jitter : Jitter
sample_jitter = record { Fraction = Bool; scale = λ n f. n / 2; scale-le = λ n f h. half-le n }

abbrev pub sample_crates : Crates
sample_crates = record {
  decimal = fixed;
  header = sample_header;
  json = sample_json;
  jitter = sample_jitter;
}
