-- ===== src/Proxy/Request/Rewrite.antt =====
-- The rewritten request body, `body_for_deployment` in src/proxy/router.rs.
use lite_agentify.Prelude.{
  ◌⊎◌, ne_of_beq, String, true, false, ◌≡◌, ◌≢◌, refl, sym, ap, ◌∙◌, none, some, [], ◌∷◌, ◌==◌,
  string_eq, ok, and_then, arith, Option-cases, Bool-cases, inl, inr, eq_of_beq,
}
use lite_agentify.Json.{Bytes, JsonOps, JsonLaws}
use lite_agentify.Proxy.Request.{
  ProviderBody, RequestPayload, parse_payload, with_model, body_for_deployment,
}

module _ (j : JsonOps) (laws : JsonLaws j) where
  parsed_body :
      (body : Bytes) (value : j.Value)
      → j.from_slice body ≡ some value
      → parse_payload j body
        ≡ record { json = some value; model = and_then (j.get_key value "model") j.as_str }
  unfolding parse_payload
  parsed_body [] value e = absurd (ground (arith, laws.from_slice-empty))
  parsed_body (b ∷ bs) value e = ground arith

  named_object :
      (value : j.Value) (model : String)
      → and_then (j.get_key value "model") j.as_str ≡ some model
      → j.is_object value ≡ true
  named_object value model e = elim (Option-cases (j.get_key value "model")) [
    | inl missing ↦ absurd (ground arith)
    | inr (x, found) ↦ laws.object_of_key value x "model" found
  ]

  -- The fields of the value that is sent for an object.
  sent_fields :
      (value : j.Value) (upstream : String)
      → j.is_object value ≡ true
      → (and_then (j.get_key (with_model j value upstream) "model") j.as_str ≡ some upstream)
        × ((k : String)
            → k ≢ "model"
            → j.get_key (with_model j value upstream) k ≡ j.get_key value k)
  sent_fields value upstream object =
      let inserted : with_model j value upstream
          ≡ j.insert_key value "model" (j.string_value upstream) =
        ground arith in
      rw inserted (
        rw (laws.get-insert_self value (j.string_value upstream) "model" object)
            (laws.as_str-string upstream),
        λ k ne.
            laws.get-insert_ne value (j.string_value upstream) "model" k (λ q. ne (sym q)) object,
      )

  broken_body : (body : Bytes) → j.from_slice body ≡ none → (parse_payload j body).model ≡ none
  unfolding parse_payload
  broken_body [] e = refl
  broken_body (b ∷ bs) e = ground arith

  kept_body :
      (body : Bytes) (p : RequestPayload j) (model upstream : String) (out : ProviderBody)
      → p.model ≡ some model
      → (model == upstream) ≡ true
      → body_for_deployment j body p upstream ≡ ok out
      → out.body ≡ body
  unfolding body_for_deployment
  kept_body body p model upstream out m same e = ground arith

  sent_body :
      (body : Bytes) (p : RequestPayload j) (value : j.Value) (model upstream : String)
      (out : ProviderBody)
      → p.json ≡ some value
      → p.model ≡ some model
      → (model == upstream) ≡ false
      → body_for_deployment j body p upstream ≡ ok out
      → j.to_vec (with_model j value upstream) ≡ some out.body
  unfolding body_for_deployment
  sent_body body p value model upstream out v m differ e =
      elim (Option-cases (j.to_vec (with_model j value upstream))) [
        | inl failed ↦ ground arith
        | inr (bytes, written) ↦ ground arith
      ]

  -- The bytes that a deployment gets: the client's own where the names agree, and else those that
  -- the sent value is serialised to.
  abbrev pub Carries :
      (model upstream : String) (body : Bytes) (value sent : j.Value) (out : Bytes) → Type 0
  Carries model upstream body value sent out =
      ((model ≡ upstream) × (sent ≡ value) × (out ≡ body))
      ⊎ ((model ≢ upstream) × (j.to_vec sent ≡ some out))

  -- A request that names a model reaches every deployment as a JSON value that has the deployment's
  -- own model name and all other top-level fields as the client sent them; where the two names
  -- agree, its bytes are passed on as they are, and else they are the serialised value.
  pub body_for_deployment-fields :
      (body : Bytes) (model upstream k : String) (out : ProviderBody)
      → k ≢ "model"
      → (parse_payload j body).model ≡ some model
      → body_for_deployment j body (parse_payload j body) upstream ≡ ok out
      → (value : j.Value) × (sent : j.Value) × (j.from_slice body ≡ some value)
        × (and_then (j.get_key sent "model") j.as_str ≡ some upstream)
        × (j.get_key sent k ≡ j.get_key value k)
        × Carries model upstream body value sent out.body
  body_for_deployment-fields body model upstream k out ne named e =
      elim (Option-cases (j.from_slice body)) [
        | inl broken ↦ absurd (ground (arith, broken_body body broken))
        | inr (value, parsed) ↦
            let payload = parsed_body body value parsed in
            let json = ap (λ p. p.json) payload in
            let named_by : and_then (j.get_key value "model") j.as_str ≡ some model =
              sym (ap (λ p. p.model) payload) ∙ named in
            elim (Bool-cases (model == upstream)) [
              | inl same ↦
                  let agree = eq_of_beq model upstream same in
                  let kept =
                    kept_body body (parse_payload j body) model upstream out named same e in
                  (value, value, parsed, named_by ∙ ap some agree, refl, inl (agree, refl, kept))
              | inr differ ↦
                  let (m, others) =
                    sent_fields value upstream (named_object value model named_by) in
                  (
                    value,
                    with_model j value upstream,
                    parsed,
                    m,
                    others k ne,
                    inr (
                      ne_of_beq model upstream differ,
                      sent_body body (parse_payload j body) value model upstream out json named
                          differ e,
                    ),
                  )
            ]
      ]
