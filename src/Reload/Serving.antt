-- ===== src/Reload/Serving.antt =====
-- What a reload may change, `store_catalog` and `reload` in src/reload.rs.
use lite_agentify.Prelude.{
  String, ◌≡◌, refl, subst, Option, none, some, [], Result, ok, err, bind-ok, Result-cases, inl,
  inr, arith,
}
use lite_agentify.Config.{RetryConfig}
use lite_agentify.Decimal.{DecimalOps}
use lite_agentify.Pricing.{pricing_map}
use lite_agentify.Catalog.{CatalogSnapshot}
use lite_agentify.Build.{UriParser, BuildError, build_providers, build_model_map, build_retry}
use lite_agentify.State.{
  Arc, GatewayState, from_parts, with_api_keys, with_granted, with_spend_counter,
}
use lite_agentify.State.Valid.{IsValid, from_parts-IsValid, from_parts-parts}
use lite_agentify.Reload.{
  ReloadError, not_configured, unreadable, invalid, SharedGatewayState, store, or_not_configured,
  or_unreadable, or_invalid, carry_over, rebuild, store_catalog, reload,
}

module _ (d : DecimalOps) {E : Type 0} (load_from_path : String → Result E RetryConfig)
    (parse_uri : UriParser) (fresh : Arc) where
  -- The parts that a rebuild leaves alone: keys, grants, the spend counter, the upstream client and
  -- the recorder.
  abbrev pub Carried : GatewayState d → GatewayState d → Type 0
  Carried before after =
      (after.api_keys ≡ before.api_keys)
      × (after.granted ≡ before.granted)
      × (after.spend_counter ≡ before.spend_counter)
      × (after.upstream ≡ before.upstream)
      × (after.usage_recorder ≡ before.usage_recorder)

  -- The state serves exactly the catalog, and is well formed.
  pub record Serves (catalog : CatalogSnapshot d) (s : GatewayState d) : Type 0 where
    pub valid : IsValid d s
    pub priced : pricing_map d catalog.pricing ≡ ok s.pricing
    pub provided : build_providers parse_uri catalog.providers [] ≡ ok s.providers
    pub modelled : build_model_map catalog.models s.providers ≡ ok s.models

  -- The retry policy is the one of the configuration file as it is now.
  abbrev pub Retried : Option String → GatewayState d → Type 0
  Retried path s =
      (file : String) × (retry : RetryConfig) × (path ≡ some file)
      × (load_from_path file ≡ ok retry)
      × (build_retry retry ≡ ok s.retry_policy)

  -- Why a rebuild fails: no file is known, the file cannot be read, or no state can be built.
  abbrev pub Fails : Option String → CatalogSnapshot d → GatewayState d → ReloadError E → Type 0
  Fails path catalog current not_configured = path ≡ none
  Fails path catalog current (unreadable e) =
      (file : String) × (path ≡ some file) × (load_from_path file ≡ err e)
  Fails path catalog current (invalid e) =
      (file : String) × (retry : RetryConfig) × (path ≡ some file)
      × (load_from_path file ≡ ok retry)
      × (from_parts d parse_uri retry catalog current.upstream current.usage_recorder fresh ≡ err e)

  rebuild-Fails :
      (path : Option String) (catalog : CatalogSnapshot d) (current : GatewayState d)
      (e : ReloadError E)
      → rebuild d load_from_path parse_uri fresh path catalog current ≡ err e
      → Fails path catalog current e
  unfolding rebuild with_api_keys with_granted with_spend_counter
  rebuild-Fails none catalog current e h =
      let why : ◌≡◌ {A = ReloadError E} not_configured e = cc in
      subst (Fails none catalog current) why refl
  rebuild-Fails (some file) catalog current e h = elim (Result-cases (load_from_path file)) [
    | inr (x, lost) ↦
        let why : unreadable x ≡ e = ground (arith, lost) in
        subst (Fails (some file) catalog current) why (file, refl, lost)
    | inl (retry, read) ↦
        elim (Result-cases
          (from_parts d parse_uri retry catalog current.upstream current.usage_recorder fresh)) [
            | inr (x, bad) ↦
                let why : invalid x ≡ e = ground (arith, read, bad) in
                subst (Fails (some file) catalog current) why (file, retry, refl, read, bad)
            | inl (built, good) ↦ ground (arith, read, good)
          ]
  ]

  or_invalid-ok :
      {A : Type 0} (r : Result BuildError A) (a : A)
      → or_invalid d load_from_path parse_uri fresh r ≡ ok a
      → r ≡ ok a
  or_invalid-ok (ok b) a e = ground arith
  or_invalid-ok (err b) a e = cc

  or_not_configured-ok :
      (path : Option String) (file : String)
      → or_not_configured d load_from_path parse_uri fresh path ≡ ok file
      → path ≡ some file
  or_not_configured-ok (some f) file e = ground arith
  or_not_configured-ok none file e = cc

  or_unreadable-ok :
      (file : String) (retry : RetryConfig)
      → or_unreadable d load_from_path parse_uri fresh (load_from_path file) ≡ ok retry
      → load_from_path file ≡ ok retry
  or_unreadable-ok file retry e = elim (Result-cases (load_from_path file)) [
    | inl (r, read) ↦ ground (arith, read)
    | inr (x, lost) ↦ ground (arith, lost)
  ]

  rebuild-Serves :
      (path : Option String) (catalog : CatalogSnapshot d) (current next : GatewayState d)
      → rebuild d load_from_path parse_uri fresh path catalog current ≡ ok next
      → Serves catalog next × Carried current next × Retried path next
  unfolding rebuild with_api_keys with_granted with_spend_counter
  rebuild-Serves path catalog current next e =
      let (file, configured, e1) =
        bind-ok (or_not_configured d load_from_path parse_uri fresh path) _ next e in
      let (retry, loaded, e2) =
        bind-ok (or_unreadable d load_from_path parse_uri fresh (load_from_path file)) _ next e1 in
      let (built, accepted, e3) =
        bind-ok
          (or_invalid d load_from_path parse_uri fresh
            (from_parts d parse_uri retry catalog current.upstream current.usage_recorder fresh))
          _ next e2 in
      let whole = or_invalid-ok _ built accepted in
      let (priced, provided, modelled, retried, client, recorder) =
        from_parts-parts d parse_uri retry catalog current.upstream current.usage_recorder fresh
          built whole in
      let sound =
        from_parts-IsValid d parse_uri retry catalog current.upstream current.usage_recorder fresh
          built whole in
      subst (λ s. Serves catalog s × Carried current s × Retried path s)
        {x = carry_over d load_from_path parse_uri fresh current built} (ground arith)
        (
          record {
            valid = record { keyed = sound.keyed; closed = sound.closed; policy = sound.policy };
            priced = priced;
            provided = provided;
            modelled = modelled;
          },
          (refl, refl, refl, client, recorder),
          (
            file,
            retry,
            or_not_configured-ok path file configured,
            or_unreadable-ok file retry loaded,
            retried,
          ),
        )

  -- The outcome of an operation that is to serve a catalog: the catalog is cached and served, with
  -- what carries over, the file's policy and the same file to reload; or nothing has changed, for a
  -- reason.
  abbrev pub Settled :
      CatalogSnapshot d
      → SharedGatewayState d
      → Result (ReloadError E) (Unit {0}) × SharedGatewayState d
      → Type 0
  Settled catalog before (err e, after) =
      (after ≡ before) × Fails before.reload_path catalog before.state e
  Settled catalog before (ok t, after) =
      (after.catalog ≡ catalog)
      × (after.reload_path ≡ before.reload_path)
      × Serves catalog after.state
      × Carried before.state after.state
      × Retried before.reload_path after.state

  -- A new catalog is either taken over as a whole: it becomes the cached catalog and is served, it
  -- and no other, from a well-formed state with the keys, grants, spend counter, client and recorder
  -- of before and the retry policy that the configuration file has now. Or it is refused, since no
  -- file is known, the file cannot be read or no state can be built from them, and then nothing
  -- changes, neither the state nor the cached catalog.
  pub store_catalog-Settled :
      (catalog : CatalogSnapshot d) (shared : SharedGatewayState d)
      → Settled catalog shared (store_catalog d load_from_path parse_uri fresh catalog shared)
  unfolding store_catalog store
  store_catalog-Settled catalog shared =
      elim (Result-cases
        (rebuild d load_from_path parse_uri fresh shared.reload_path catalog shared.state)) [
          | inl (next, e) ↦
              let (serves, carried, retried) =
                rebuild-Serves shared.reload_path catalog shared.state next e in
              rw (store_catalog, e) (refl, refl, serves, carried, retried)
          | inr (failure, e) ↦
              rw (store_catalog, e)
                (refl, rebuild-Fails shared.reload_path catalog shared.state failure e)
        ]

  -- Reading the file again keeps the cached catalog and serves it, it and no other, from a
  -- well-formed state with the keys, grants, spend counter, client and recorder of before and the
  -- retry policy that the file has now; or, since no file is known, the file cannot be read or no
  -- state can be built, it fails and changes nothing.
  pub reload-Settled :
      (shared : SharedGatewayState d)
      → Settled shared.catalog shared (reload d load_from_path parse_uri fresh shared)
  unfolding reload store
  reload-Settled shared =
      elim (Result-cases
        (rebuild d load_from_path parse_uri fresh shared.reload_path shared.catalog shared.state)) [
          | inl (next, e) ↦
              let (serves, carried, retried) =
                rebuild-Serves shared.reload_path shared.catalog shared.state next e in
              rw (reload, e) (refl, refl, serves, carried, retried)
          | inr (failure, e) ↦
              rw (reload, e)
                (refl, rebuild-Fails shared.reload_path shared.catalog shared.state failure e)
        ]
