-- ===== src/State/Tests.antt =====
-- Runs and instances for src/state.rs.
use lite_agentify.Prelude.{
  ℕ, is_some, ◌≡◌, ◌≢◌, refl, Option, none, some, List, [], ◌∷◌, ok, String, true, false, arith,
  All, any, ◌==◌, string_eq, bytes_eq, nat_eq, if◌then◌else◌, ◌↔◌,
}
use lite_agentify.Prelude.Int.{pos}
use lite_agentify.Prelude.Map.{get, keep}
use lite_agentify.Model.{open_ai, ModelEntry}
use lite_agentify.Build.{ModelMap}
use lite_agentify.Config.{default_retry}
use lite_agentify.Decimal.{fixed, fixed_laws}
use lite_agentify.Quota.{Scope, MemoryCounter, get_spend}
use lite_agentify.State.{
  HeaderText, from_parts, with_granted, with_api_keys, authorize, gateway_key_candidates, resolve,
  chain, check_quota, user_exhausted, allowed, ResolvedDeployment,
}
use lite_agentify.State.Valid.{IsValid, from_parts-IsValid}
use lite_agentify.State.Resolve.{resolve_exact, resolve-chain_sound, serving, hint, route}
use lite_agentify.State.Credit.{IsBelow, charge, check_quota_allows, refused_stays_refused}
use lite_agentify.State.Authorize.{
  Authorized, authorize_presented, authorize_refuses, authorize_bearer,
}
use lite_agentify.State.Listing.{
  IsSorted, is_recognised, is_listable, listable_models, listable_models-resolve,
}
use lite_agentify.Samples.Gateway.{any_uri, catalog, built, open_gateway, caller, digest, fast}

built_ok : from_parts fixed any_uri default_retry catalog 1 2 3 ≡ ok built
unfolding from_parts lite_agentify.Pricing.pricing_map lite_agentify.Pricing.check_entry
    lite_agentify.Prelude.Text.is_blank lite_agentify.Prelude.Text.all_ascii_uppercase get
    lite_agentify.Prelude.Map.insert lite_agentify.Build.build_providers
    lite_agentify.Build.check_provider lite_agentify.Build.build_model_map
    lite_agentify.Build.build_retry lite_agentify.Build.provider_of lite_agentify.Pricing.pricing_of
    lite_agentify.Prelude.Text.trim_trailing_slash
built_ok = refl

from_parts-IsValid_example : IsValid fixed built
from_parts-IsValid_example =
    from_parts-IsValid fixed any_uri default_retry catalog 1 2 3 built built_ok

built-IsValid : IsValid fixed built
built-IsValid = from_parts-IsValid fixed any_uri default_retry catalog 1 2 3 built built_ok

resolve_exact_example :
    resolve fixed built open_ai "small" caller
    ≡ route
        (serving built.providers open_ai (
          record { provider_id = "fast"; upstream_model = "gpt" }
          ∷ record { provider_id = "claude"; upstream_model = "haiku" }
          ∷ []))
        (hint open_ai (
          record { provider_id = "fast"; upstream_model = "gpt" }
          ∷ record { provider_id = "claude"; upstream_model = "haiku" }
          ∷ []))
unfolding get lite_agentify.Account.may_call
resolve_exact_example = resolve_exact fixed built open_ai "small" caller built-IsValid

abbrev first_hop : List ResolvedDeployment
first_hop = record { provider = fast; upstream_model = "gpt" } ∷ []

resolved : resolve fixed built open_ai "small" caller ≡ chain first_hop
unfolding resolve get lite_agentify.Account.may_call lite_agentify.State.walk_deployments
resolved = refl

resolve-chain_sound_example :
    (first_hop ≢ []) × All (λ hop. hop.provider.protocol ≡ open_ai) first_hop
resolve-chain_sound_example =
    resolve-chain_sound fixed built open_ai "small" caller first_hop resolved

abbrev used_up : MemoryCounter fixed
used_up = (Scope.user 1, pos 100000000) ∷ []

check_quota_allows_example : (check_quota fixed open_gateway used_up caller ≡ allowed) ↔ (
    (fixed.ge (get_spend fixed (Scope.user 1) used_up) (pos 100000000) ≡ false)
    × IsBelow fixed (get_spend fixed (Scope.key 2) used_up) (some (pos 50000000)))
unfolding get_spend get
check_quota_allows_example = check_quota_allows fixed open_gateway used_up caller

exhausted : check_quota fixed open_gateway used_up caller ≡ user_exhausted (pos 100000000)
unfolding check_quota get get_spend
exhausted = refl

refused : check_quota fixed open_gateway used_up caller ≢ allowed
refused e = cc (exhausted, e)

refused_stays_refused_example :
    check_quota fixed open_gateway (charge fixed ((Scope.user 1, pos 4) ∷ []) used_up) caller
    ≢ allowed
refused_stays_refused_example =
    refused_stays_refused fixed fixed_laws open_gateway used_up caller ((Scope.user 1, pos 4) ∷ [])
      (refl, tt) refused

abbrev with_bearer : HeaderText
with_bearer name = if name == "authorization" then some "Bearer sk-1" else none

admitted : authorize fixed digest open_gateway with_bearer ≡ some caller
unfolding authorize gateway_key_candidates get lite_agentify.Prelude.Text.strip_prefix
admitted = refl

authorize_presented_example :
    Authorized fixed digest open_gateway with_bearer
      (authorize fixed digest open_gateway with_bearer)
authorize_presented_example = authorize_presented fixed digest open_gateway with_bearer

authorize_refuses_example :
    (authorize fixed digest open_gateway with_bearer ≡ none)
    ↔ All (λ c. get (digest c) open_gateway.api_keys ≡ none) (gateway_key_candidates with_bearer)
authorize_refuses_example = authorize_refuses fixed digest open_gateway with_bearer

key_known : get (digest "sk-1") open_gateway.api_keys ≡ some caller
unfolding get
key_known = refl

authorize_bearer_example : authorize fixed digest open_gateway with_bearer ≡ some caller
authorize_bearer_example =
    authorize_bearer fixed digest open_gateway with_bearer "sk-1" caller refl key_known

abbrev entry_at : (created_at : ℕ) → ModelEntry
entry_at created_at = record { enabled = true; created_at = created_at; deployments = [] }

abbrev three_models : ModelMap
three_models =
    ("small", entry_at 1)
    ∷ ("large", entry_at 2)
    ∷ ("old", record (entry_at 3) { enabled = false })
    ∷ []

listed :
    listable_models fixed (record built { models = three_models }) caller
    ≡ ("large", entry_at 2) ∷ ("small", entry_at 1) ∷ []
unfolding listable_models lite_agentify.Account.may_call
listed = refl

listable_models-resolve_example :
    IsSorted (listable_models fixed (record built { models = three_models }) caller)
    × (is_some (get "old" (listable_models fixed (record built { models = three_models }) caller))
        ≡ is_recognised
            (resolve fixed (record built { models = three_models }) open_ai "old" caller))
    × (get "old" (listable_models fixed (record built { models = three_models }) caller)
        ≡ keep (is_listable fixed caller "old") (get "old" three_models))
unfolding get
listable_models-resolve_example =
    listable_models-resolve fixed (record built { models = three_models }) open_ai caller "old"
      (refl, (refl, (refl, tt)))
