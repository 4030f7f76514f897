-- ===== src/Proxy/Headers.antt =====
-- The headers that cross the gateway (src/proxy/headers.rs). A `HeaderName` is its lower-case text,
-- as the crate keeps it, so that `eq_ignore_ascii_case` is equality.
pub mod Outbound
use lite_agentify.Prelude.{
  String, Bool, not, ◌||◌, ◌&&◌, ◌≡◌, Option, none, some, List, [], ◌∷◌, any, ◌==◌, string_eq,
  if◌then◌else◌, Result, ok, err, ◌>>=◌, and_then, is_some,
}
use lite_agentify.Prelude.Map.{Map, get, insert}
use lite_agentify.Prelude.Text.{strip_prefix}
use lite_agentify.Model.{Provider, protocol_eq, anthropic}
use lite_agentify.State.{HeaderText}
use Prim.Native.String.{◌++◌ as append}

-- `HeaderValue`: bytes that `from_str` accepts or refuses, and that `to_str` reads if they are
-- visible ASCII.
pub record HeaderOps : Type 1 where
  pub Value : Type 0
  pub from_str : String → Option Value
  pub to_str : Value → Option String

-- The documented round trip of the crate.
pub record HeaderLaws (h : HeaderOps) : Type 0 where
  pub to_str-from_str : (s : String) (v : h.Value) → h.from_str s ≡ some v → h.to_str v ≡ some s

unfoldable pub is_response_header_forwardable : String → Bool
is_response_header_forwardable name =
    not (name == "host" || name == "authorization")
    && not (name == "connection")
    && not (name == "transfer-encoding")
    && not (name == "keep-alive")
    && not (name == "proxy-authenticate")
    && not (name == "proxy-authorization")
    && not (name == "te")
    && not (name == "trailer")
    && not (name == "upgrade")

unfoldable pub is_request_header_forwardable : String → Bool
is_request_header_forwardable name =
    (name == "accept" || name == "content-type")
    || name == "anthropic-beta"
    || name == "anthropic-dangerous-direct-browser-access"
    || name == "openai-organization"
    || name == "openai-project"
    || name == "user-agent"
    || name == "x-app"
    || name == "x-claude-code-session-id"
    || name == "x-request-id"
    || is_some (strip_prefix "x-stainless-" name)

pub data HeaderError : Type 0 where
  bad_api_key bad_anthropic_key bad_version : HeaderError

-- `from_str(..).context(..)?`.
abbrev pub or_error {ℓ κ} : {E : Type ℓ} {A : Type κ} → Option A → E → Result E A
or_error none e = err e
or_error (some a) e = ok a

module _ (h : HeaderOps) where
  open h use {Value, from_str, to_str}

  -- The entries in the order of iteration; a name may have several.
  abbrev pub HeaderMap : Type 0
  HeaderMap = Map String Value

  -- `headers.get(name)` and `to_str().ok()`.
  abbrev pub header_text : HeaderMap → HeaderText
  header_text headers name = and_then (get name headers) to_str

  -- The loop of `outbound_headers`: a later entry of a name replaces the one before.
  unfoldable pub copy_forwardable : HeaderMap → HeaderMap → HeaderMap
  copy_forwardable [] headers = headers
  copy_forwardable ((name, value) ∷ inbound) headers =
      copy_forwardable inbound
        (if is_request_header_forwardable name then insert name value headers else headers)

  -- The headers of an Anthropic provider on top of the authorization.
  unfoldable pub anthropic_headers : Provider → HeaderMap → Result HeaderError HeaderMap
  anthropic_headers provider headers = do
    key ← or_error (from_str provider.api_key) bad_anthropic_key
    elim provider.anthropic_version [
      | none ↦ ok (insert "x-api-key" key headers)
      | some version ↦ or_error (from_str version) bad_version >>= λ value.
          ok (insert "anthropic-version" value (insert "x-api-key" key headers))
    ]

  unfoldable pub outbound_headers : HeaderMap → Provider → Result HeaderError HeaderMap
  unfolding copy_forwardable anthropic_headers
  outbound_headers inbound provider = do
    bearer ← or_error (from_str (append "Bearer " provider.api_key)) bad_api_key
    let headers = insert "authorization" bearer (copy_forwardable inbound [])
    if provider.protocol == anthropic then anthropic_headers provider headers else ok headers

  -- The header loop of `forward_upstream_response`; the builder appends.
  unfoldable pub forward_headers : HeaderMap → HeaderMap
  forward_headers [] = []
  forward_headers ((name, value) ∷ headers) =
      let rest = forward_headers headers in
      if is_response_header_forwardable name then (name, value) ∷ rest else rest
