-- ===== src/Proxy/Headers/Outbound.antt =====
-- What an upstream gets to see of a client's headers, `outbound_headers` in src/proxy/headers.rs.
use lite_agentify.Prelude.{
  and_then, String, true, false, ◌≡◌, ◌≢◌, refl, sym, ap, ◌∙◌, Option, none, some, [], ◌∷◌, ◌==◌,
  string_eq, if◌then◌else◌, ok, bind-ok, subst, or_else, arith, Option-cases, Bool-cases, inl, inr,
  ne_of_beq, eq_of_beq,
}
use lite_agentify.Prelude.Map.{get, insert, get-insert, get-insert_self, get-insert_ne}
use lite_agentify.Prelude.Text.{strip_prefix}
use lite_agentify.Model.{Provider, protocol_eq, anthropic}
use lite_agentify.Proxy.Headers.{
  HeaderOps, HeaderLaws, is_request_header_forwardable, HeaderError, HeaderMap, header_text,
  copy_forwardable, anthropic_headers, outbound_headers, or_error, bad_api_key, bad_anthropic_key,
  bad_version,
}
use Prim.Native.String.{◌++◌ as append}

module _ (h : HeaderOps) where
  -- Reference: the last value that the client sent under a name.
  abbrev pub last_value : String → HeaderMap h → Option h.Value
  last_value name [] = none
  last_value name ((n, v) ∷ headers) =
      or_else (last_value name headers) (if n == name then some v else none)

  -- Reference: a forwardable name has its last value, any other name has none.
  abbrev pub forwarded : String → HeaderMap h → Option h.Value
  forwarded name inbound =
      if is_request_header_forwardable name then last_value name inbound else none

  get-copy_forwardable :
      (name : String) (inbound acc : HeaderMap h)
      → get name (copy_forwardable h inbound acc) ≡ or_else (forwarded name inbound) (get name acc)
  unfolding copy_forwardable
  get-copy_forwardable name [] acc = ground arith
  get-copy_forwardable name ((n, v) ∷ inbound) acc =
      let kept = get-insert n name v acc in
      let rest = get-copy_forwardable name inbound in
      let same : n == name ≡ true
          → is_request_header_forwardable n ≡ is_request_header_forwardable name =
        λ t. ap is_request_header_forwardable (eq_of_beq n name t) in
      elim (Bool-cases (is_request_header_forwardable n)) [
        | inl f ↦ elim (Bool-cases (n == name)) [
          | inl t ↦ ground (arith, same t, rest (insert n v acc))
          | inr t ↦ ground (arith, rest (insert n v acc))
        ]
        | inr f ↦ elim (Bool-cases (n == name)) [
          | inl t ↦ ground (arith, same t, rest acc)
          | inr t ↦ ground (arith, rest acc)
        ]
      ]

  -- The texts that the provider's entry asks for.
  abbrev pub own_key_of : Provider → Option String
  own_key_of provider = if provider.protocol == anthropic then some provider.api_key else none

  abbrev pub version_of : Provider → Option String
  version_of provider = if provider.protocol == anthropic then provider.anthropic_version else none

  text-insert_self :
      (laws : HeaderLaws h) (name text : String) (v : h.Value) (headers : HeaderMap h)
      → h.from_str text ≡ some v
      → header_text h (insert name v headers) name ≡ some text
  text-insert_self laws name text v headers e =
      rw (get-insert_self name v headers) (laws.to_str-from_str text v e)

  or_error-ok {ℓ} :
      {A : Type ℓ} (o : Option A) (e : HeaderError) (a : A) → or_error o e ≡ ok a → o ≡ some a
  or_error-ok none e a eq = cc
  or_error-ok (some b) e a eq = ground arith

  abbrev IsExact : HeaderMap h → Provider → HeaderMap h → Type 0
  IsExact inbound provider headers =
      (header_text h headers "authorization" ≡ some (append "Bearer " provider.api_key))
      × (header_text h headers "x-api-key" ≡ own_key_of provider)
      × (header_text h headers "anthropic-version" ≡ version_of provider)
      × ((name : String)
          → name ≢ "authorization"
          → name ≢ "x-api-key"
          → name ≢ "anthropic-version"
          → get name headers ≡ forwarded name inbound)

  copied :
      (name : String) (inbound : HeaderMap h)
      → get name (copy_forwardable h inbound []) ≡ forwarded name inbound
  unfolding get
  copied name inbound = get-copy_forwardable name inbound [] ∙ ground arith

  module _ (laws : HeaderLaws h) (inbound : HeaderMap h) (provider : Provider) (b : h.Value)
      (eb : h.from_str (append "Bearer " provider.api_key) ≡ some b) where
    abbrev base : HeaderMap h
    base = insert "authorization" b (copy_forwardable h inbound [])

    base-other : (name : String) → name ≢ "authorization" → get name base ≡ forwarded name inbound
    base-other name ne =
        get-insert_ne "authorization" name b (copy_forwardable h inbound []) (λ q. ne (sym q))
        ∙ copied name inbound

    base-IsExact : (provider.protocol == anthropic) ≡ false → IsExact inbound provider base
    unfolding is_request_header_forwardable strip_prefix
    base-IsExact other = (
      text-insert_self laws "authorization" _ b _ eb,
      rw (other, base-other "x-api-key" (ne_of_beq "x-api-key" "authorization" refl)) refl,
      rw
          (
            other,
            base-other "anthropic-version" (ne_of_beq "anthropic-version" "authorization" refl),
          )
          refl,
      λ name not_auth not_key not_version. base-other name not_auth,
    )

    keyed-other :
        (k : h.Value) (name : String)
        → name ≢ "authorization"
        → name ≢ "x-api-key"
        → get name (insert "x-api-key" k base) ≡ forwarded name inbound
    keyed-other k name not_auth not_key =
        get-insert_ne "x-api-key" name k base (λ q. not_key (sym q)) ∙ base-other name not_auth

    keyed-IsExact :
        (k : h.Value)
        → (provider.protocol == anthropic) ≡ true
        → h.from_str provider.api_key ≡ some k
        → provider.anthropic_version ≡ none
        → IsExact inbound provider (insert "x-api-key" k base)
    unfolding is_request_header_forwardable strip_prefix
    keyed-IsExact k claude ek no_version = (
      rw (get-insert "x-api-key" "authorization" k base)
          (text-insert_self laws "authorization" _ b _ eb),
      rw (claude) (text-insert_self laws "x-api-key" _ k base ek),
      rw
          (
            claude,
            keyed-other k "anthropic-version" (ne_of_beq "anthropic-version" "authorization" refl)
                (ne_of_beq "anthropic-version" "x-api-key" refl),
          )
          (sym no_version),
      λ name not_auth not_key not_version. keyed-other k name not_auth not_key,
    )

    versioned-IsExact :
        (k w : h.Value) (version : String)
        → (provider.protocol == anthropic) ≡ true
        → h.from_str provider.api_key ≡ some k
        → provider.anthropic_version ≡ some version
        → h.from_str version ≡ some w
        → IsExact inbound provider (insert "anthropic-version" w (insert "x-api-key" k base))
    versioned-IsExact k w version claude ek ev ew = (
      rw
          (
            get-insert "anthropic-version" "authorization" w (insert "x-api-key" k base),
            get-insert "x-api-key" "authorization" k base,
          )
          (text-insert_self laws "authorization" _ b _ eb),
      rw (claude, get-insert "anthropic-version" "x-api-key" w (insert "x-api-key" k base))
          (text-insert_self laws "x-api-key" _ k base ek),
      rw (claude, ev) (text-insert_self laws "anthropic-version" version w _ ew),
      λ name not_auth not_key not_version.
          get-insert_ne "anthropic-version" name w (insert "x-api-key" k base)
            (λ q. not_version (sym q))
          ∙ keyed-other k name not_auth not_key,
    )

    anthropic_headers-IsExact :
        (headers : HeaderMap h)
        → (provider.protocol == anthropic) ≡ true
        → anthropic_headers h provider base ≡ ok headers
        → IsExact inbound provider headers
    unfolding anthropic_headers
    anthropic_headers-IsExact headers claude e =
        let (k, ek, rest) =
          bind-ok (or_error (h.from_str provider.api_key) bad_anthropic_key) _ headers e in
        let key = or_error-ok _ bad_anthropic_key k ek in
        elim (Option-cases provider.anthropic_version) [
          | inl no_version ↦
              subst (IsExact inbound provider) (ground arith)
                (keyed-IsExact k claude key no_version)
          | inr (version, ev) ↦
              let (w, ew, last) =
                bind-ok (or_error (h.from_str version) bad_version)
                  (λ value. ok (insert "anthropic-version" value (insert "x-api-key" k base)))
                  headers (ground arith) in
              subst (IsExact inbound provider) (ground arith)
                (versioned-IsExact k w version claude key ev (or_error-ok _ bad_version w ew))
        ]

  outbound_headers-IsExact :
      (laws : HeaderLaws h) (inbound : HeaderMap h) (provider : Provider) (headers : HeaderMap h)
      → outbound_headers h inbound provider ≡ ok headers
      → IsExact inbound provider headers
  unfolding outbound_headers
  outbound_headers-IsExact laws inbound provider headers e =
      let (b, accepted, rest) =
        bind-ok (or_error (h.from_str (append "Bearer " provider.api_key)) bad_api_key) _ headers
          e in
      let eb = or_error-ok _ bad_api_key b accepted in
      elim (Bool-cases (provider.protocol == anthropic)) [
        | inr other ↦
            let same : base laws inbound provider b eb ≡ headers = ground arith in
            subst (IsExact inbound provider) same (base-IsExact laws inbound provider b eb other)
        | inl claude ↦
            anthropic_headers-IsExact laws inbound provider b eb headers claude (ground arith)
      ]

  -- Reference: what a provider is sent under a name.
  abbrev pub outbound_text : HeaderMap h → Provider → String → Option String
  outbound_text inbound provider name =
      if name == "authorization"
      then some (append "Bearer " provider.api_key)
      else if name == "x-api-key"
      then own_key_of provider
      else if name == "anthropic-version"
      then version_of provider
      else and_then (forwarded name inbound) h.to_str

  -- What a provider is sent: its own key as a bearer token; as `x-api-key` its own key if it is an
  -- Anthropic provider and else nothing; as `anthropic-version` its configured version or nothing;
  -- and under any other name the client's last value if the name is forwardable, else nothing. So
  -- no credential of the client reaches an upstream.
  pub outbound_headers-exact :
      (laws : HeaderLaws h) (inbound : HeaderMap h) (provider : Provider) (headers : HeaderMap h)
      (name : String)
      → outbound_headers h inbound provider ≡ ok headers
      → header_text h headers name ≡ outbound_text inbound provider name
  outbound_headers-exact laws inbound provider headers name e =
      let (auth, key, version, other) = outbound_headers-IsExact laws inbound provider headers e in
      elim (Bool-cases (name == "authorization")) [
        | inl is_auth ↦
            subst (λ n. header_text h headers n ≡ outbound_text inbound provider n)
              (sym (eq_of_beq name "authorization" is_auth)) auth
        | inr not_auth ↦ elim (Bool-cases (name == "x-api-key")) [
          | inl is_key ↦
              subst (λ n. header_text h headers n ≡ outbound_text inbound provider n)
                (sym (eq_of_beq name "x-api-key" is_key)) key
          | inr not_key ↦ elim (Bool-cases (name == "anthropic-version")) [
            | inl is_version ↦
                subst (λ n. header_text h headers n ≡ outbound_text inbound provider n)
                  (sym (eq_of_beq name "anthropic-version" is_version)) version
            | inr not_version ↦
                rw
                  (
                    not_auth,
                    not_key,
                    not_version,
                    other name (ne_of_beq name "authorization" not_auth)
                        (ne_of_beq name "x-api-key" not_key)
                        (ne_of_beq name "anthropic-version" not_version),
                  )
                  refl
          ]
        ]
      ]
