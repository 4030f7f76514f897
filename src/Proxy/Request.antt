-- ===== src/Proxy/Request.antt =====
-- What a request to an upstream is made of (src/proxy/router.rs, src/proxy/upstream.rs).
pub mod Rewrite
pub mod Wait
use Prim.Native.Char.{code}
use Prim.Native.String.{◌++◌ as append}
use lite_agentify.Prelude.{
  ℕ, ◌+◌, ◌*◌, ◌-◌, ◌^◌, String, Bool, false, ◌&&◌, is_some, Option, none, some, List, is_empty,
  ◌==◌, string_eq, if◌then◌else◌, leb, ltb, nat_beq, and_then, Result, ok, err,
}
use lite_agentify.Prelude.Int.{ℤ, pos, negsuc}
use lite_agentify.Prelude.Text.{trim, is_empty_text}
use lite_agentify.Model.{Provider, RetryPolicy, saturating_mul, Jitter, backoff_ms, cap_delay_ms}
use lite_agentify.Build.{UriParser}
use lite_agentify.Json.{Bytes, JsonOps}
use lite_agentify.Proxy.Headers.{HeaderOps, HeaderMap, header_text}

-- `char::to_digit(10)` on a decimal digit.
abbrev is_digit : ℕ → Bool
is_digit c = leb b'0' c && leb c b'9'

-- The digits of `str::parse::<u64>`; past 2^64 - 1 the parse fails.
unfoldable pub parse_digits : ℕ → String → Option ℕ
parse_digits acc String.[] = some acc
parse_digits acc (String.◌∷◌ c s) =
    let next = acc * 10 + (code c - b'0') in
    let rest = parse_digits next s in if is_digit (code c) && ltb next (2 ^ 64) then rest else none

-- `str::parse::<u64>`: an optional plus sign and at least one digit.
unfoldable pub parse_u64 : String → Option ℕ
unfolding parse_digits
parse_u64 String.[] = none
parse_u64 (String.◌∷◌ c s) =
    if nat_beq (code c) b'+'
    then (if is_empty_text s then none else parse_digits 0 s)
    else parse_digits 0 (String.◌∷◌ c s)

-- `try_into::<u64>().ok().filter(|ms| ms > 0)`.
abbrev pub positive_ms : ℤ → Option ℕ
positive_ms (pos n) = if leb 1 n then some n else none
positive_ms (negsuc n) = none

-- `until` is `DateTime::parse_from_rfc2822` followed by the milliseconds from now to that time.
unfoldable pub parse_retry_after_ms : (until : String → Option ℤ) → Option String → Option ℕ
unfolding parse_u64
parse_retry_after_ms until none = none
parse_retry_after_ms until (some text) =
    let value = trim text in
    elim (parse_u64 value) [
      | some seconds ↦ some (saturating_mul seconds 1000)
      | none ↦ and_then (until value) positive_ms
    ]

-- `backoff_delay`, in milliseconds.
unfoldable pub backoff_delay :
    (j : Jitter) → (until : String → Option ℤ) → RetryPolicy → ℕ → Option String → j.Fraction → ℕ
unfolding backoff_ms cap_delay_ms
backoff_delay j until retry attempt retry_after jitter =
    elim (parse_retry_after_ms until retry_after) [
      | some ms ↦ cap_delay_ms retry ms
      | none ↦ backoff_ms j retry attempt jitter
    ]

-- `format!("{base_url}{path}")` with the query behind a question mark.
unfoldable pub uri_text : Provider → String → Option String → String
uri_text provider path none = append provider.base_url path
uri_text provider path (some query) = append (append (append provider.base_url path) "?") query

-- A Uri stands for its text.
unfoldable pub upstream_uri : UriParser → Provider → String → Option String → Option String
unfolding uri_text
upstream_uri parse provider path query =
    let uri = uri_text provider path query in if is_some (parse uri) then some uri else none

module _ (h : HeaderOps) where
  pub record UpstreamRequest : Type 0 where
    pub method : String
    pub uri : String
    pub headers : HeaderMap h
    pub body : Bytes

  -- A body is the sequence of its chunks, or of the error that breaks it off.
  pub record UpstreamResponse {ℓ} (E : Type ℓ) : Type ℓ where
    pub status : ℕ
    pub headers : HeaderMap h
    pub body : List (Result E Bytes)

pub record ProviderBody : Type 0 where
  pub body : Bytes
  pub requested_model : Option String
  pub upstream_model : Option String

pub data RewriteError : Type 0 where
  not_an_object not_serialized : RewriteError

module _ (j : JsonOps) where
  open j use {Value, from_slice, to_vec, get_key, as_str, is_object, insert_key, string_value}

  pub record RequestPayload : Type 0 where
    pub json : Option Value
    pub model : Option String

  -- `RequestPayload::parse`.
  unfoldable pub parse_payload : Bytes → RequestPayload
  parse_payload body =
      if is_empty body then record { json = none; model = none } else elim (from_slice body) [
        | some value ↦ record { json = some value; model = and_then (get_key value "model") as_str }
        | none ↦ record { json = none; model = none }
      ]

  -- The `model` field is set if the value is an object.
  abbrev pub with_model : Value → String → Value
  with_model value model =
      if is_object value then insert_key value "model" (string_value model) else value

  abbrev pub rewritten : Option String → String → Option Bytes → Result RewriteError ProviderBody
  rewritten requested upstream_model none = err not_serialized
  rewritten requested upstream_model (some body) =
      ok (record { body = body; requested_model = requested; upstream_model = some upstream_model })

  abbrev pub is_named : Option String → String → Bool
  is_named none name = false
  is_named (some model) name = model == name

  unfoldable pub body_for_deployment :
      Bytes → RequestPayload → String → Result RewriteError ProviderBody
  body_for_deployment body payload upstream_model =
      if is_named payload.model upstream_model
      then ok (record {
        body = body;
        requested_model = payload.model;
        upstream_model = some upstream_model;
      })
      else elim payload.json [
        | none ↦ err not_an_object
        | some value ↦
            rewritten payload.model upstream_model (to_vec (with_model value upstream_model))
      ]
