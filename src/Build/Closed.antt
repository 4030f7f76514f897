-- ===== src/Build/Closed.antt =====
-- What the builders of src/state.rs guarantee of the parts that they return.
use lite_agentify.Prelude.{
  ℕ, ◌≤◌, String, ◌≡◌, ◌≢◌, none, some, List, [], ◌∷◌, ◌==◌, All, string_eq, ok, arith, inl, inr,
  eq_iff, find, Bool-cases, Option-cases, Result-cases, subst,
}
use lite_agentify.Prelude.Map.{get, insert, get-insert}
use lite_agentify.Model.{Provider, Deployment, ModelEntry, RetryPolicy}
use lite_agentify.Config.{RetryConfig, ProviderConfig}
use lite_agentify.Catalog.{DeploymentConfig, ModelConfig}
use lite_agentify.Build.{
  UriParser, ProviderMap, ModelMap, provider_of, build_providers, build_deployments,
  build_model_map_from, build_model_map, build_retry, status_out_of_range,
}

-- Every provider stands under its own id.
abbrev pub IsKeyed : ProviderMap → Type 0
IsKeyed providers = (id : String) (p : Provider) → get id providers ≡ some p → p.id ≡ id

insert-IsKeyed :
    (c : ProviderConfig) (m : ProviderMap) → IsKeyed m → IsKeyed (insert c.id (provider_of c) m)
unfolding provider_of
insert-IsKeyed c m k id p g =
    ground (arith, k id p, get-insert c.id id (provider_of c) m, eq_iff c.id id)

pub build_providers-IsKeyed :
    (parse_uri : UriParser) (ps : List ProviderConfig) (before after : ProviderMap)
    → IsKeyed before
    → build_providers parse_uri ps before ≡ ok after
    → IsKeyed after
unfolding build_providers
build_providers-IsKeyed parse_uri [] before after k h = λ id p g. k id p (ground arith)
build_providers-IsKeyed parse_uri (c ∷ cs) before after k h =
    build_providers-IsKeyed parse_uri cs (insert c.id (provider_of c) before) after
      (insert-IsKeyed c before k) (ground arith)

-- Every deployment names a provider of the map.
abbrev pub AllKnown : ProviderMap → List Deployment → Type 0
AllKnown providers = All (λ c. get c.provider_id providers ≢ none)

build_deployments-known :
    (name : String) (providers : ProviderMap) (cs : List DeploymentConfig) (ds : List Deployment)
    → build_deployments name providers cs ≡ ok ds
    → AllKnown providers ds
unfolding build_deployments
build_deployments-known name providers [] ds h =
    subst (AllKnown providers) {x = []} (ground arith) tt
build_deployments-known name providers (c ∷ cs) ds h =
    elim (Result-cases (build_deployments name providers cs)) [
      | inl (rest, e) ↦
          subst (AllKnown providers)
            {x = record { provider_id = c.provider_id; upstream_model = c.upstream_model } ∷ rest}
            (ground arith) (ground arith, build_deployments-known name providers cs rest e)
      | inr (failure, e) ↦ absurd (ground arith)
    ]

abbrev pub IsClosed : ProviderMap → ModelMap → Type 0
IsClosed providers models =
    (name : String) (entry : ModelEntry)
    → get name models ≡ some entry
    → AllKnown providers entry.deployments

insert-IsClosed :
    (providers : ProviderMap) (models : ModelMap) (name : String) (entry : ModelEntry)
    → IsClosed providers models
    → AllKnown providers entry.deployments
    → IsClosed providers (insert name entry models)
insert-IsClosed providers models name entry closed known j found g = elim (Bool-cases (name == j)) [
  | inl same ↦
      let e : entry ≡ found = ground (arith, get-insert name j entry models) in
      subst (λ x. AllKnown providers x.deployments) e known
  | inr other ↦ closed j found (ground (arith, get-insert name j entry models))
]

build_model_map_from-IsClosed :
    (providers : ProviderMap) (ms : List ModelConfig) (before after : ModelMap)
    → IsClosed providers before
    → build_model_map_from providers ms before ≡ ok after
    → IsClosed providers after
unfolding build_model_map_from
build_model_map_from-IsClosed providers [] before after closed h =
    subst (IsClosed providers) {x = before} (ground arith) closed
build_model_map_from-IsClosed providers (m ∷ ms) before after closed h =
    elim (Result-cases (build_deployments m.name providers m.deployments)) [
      | inl (ds, e) ↦
          build_model_map_from-IsClosed providers ms
            (insert m.name
              (record { enabled = m.enabled; created_at = m.created_at; deployments = ds }) before)
            after
            (insert-IsClosed providers before m.name
              (record { enabled = m.enabled; created_at = m.created_at; deployments = ds }) closed
              (build_deployments-known m.name providers m.deployments ds e))
            (ground arith)
      | inr (failure, e) ↦ absurd (ground arith)
    ]

-- A map that `build_model_map` returns has no dangling deployment.
pub build_model_map-IsClosed :
    (ms : List ModelConfig) (providers : ProviderMap) (models : ModelMap)
    → build_model_map ms providers ≡ ok models
    → IsClosed providers models
unfolding build_model_map get
build_model_map-IsClosed ms providers models h =
    build_model_map_from-IsClosed providers ms [] models (λ name entry g. absurd (cc g)) h

-- The retry policy that `build_retry` returns.
pub record IsPolicy (p : RetryPolicy) : Type 0 where
  pub attempts : 1 ≤ p.max_attempts
  pub delays : p.base_delay_ms ≤ p.max_delay_ms
  pub statuses : All (λ s. (100 ≤ s) × (s ≤ 599)) p.retryable_statuses

find-none : (ss : List ℕ) → find status_out_of_range ss ≡ none → All (λ s. (100 ≤ s) × (s ≤ 599)) ss
find-none [] h = tt
find-none (s ∷ ss) h = ((ground arith, ground arith), find-none ss (ground arith))

pub build_retry-IsPolicy :
    (retry : RetryConfig) (p : RetryPolicy) → build_retry retry ≡ ok p → IsPolicy p
unfolding build_retry
build_retry-IsPolicy retry p h =
    elim (Option-cases (find status_out_of_range retry.retryable_statuses)) [
      | inl fine ↦
          let all_in_range = find-none retry.retryable_statuses fine in
          record {
            attempts = ground arith;
            delays = ground arith;
            statuses =
                subst (λ ss. All (λ s. (100 ≤ s) × (s ≤ 599)) ss) {x = retry.retryable_statuses}
                  (ground arith) all_in_range;
          }
      | inr (status, bad) ↦ absurd (ground arith)
    ]
