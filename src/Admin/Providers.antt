-- ===== src/Admin/Providers.antt =====
-- The handlers of providers (src/admin/catalog_api.rs).
pub mod Masked
use Prim.Native.String.{◌++◌ as append}
use lite_agentify.Prelude.{
  ℕ, zero, suc, ◌-◌, String, true, false, Option, none, some, map, is_some, if◌then◌else◌, Result,
  ok, err, leb, ◌>>=◌, ◌>>◌, bail_if,
}
use lite_agentify.Prelude.Map.{Map}
use lite_agentify.Prelude.Text.{trim, is_blank, is_empty_text, strip_prefix}
use lite_agentify.Model.{protocol_text}
use lite_agentify.Config.{RetryConfig, ProviderConfig}
use lite_agentify.Decimal.{DecimalOps}
use lite_agentify.Build.{UriParser}
use lite_agentify.State.{Arc}
use lite_agentify.Account.Database.{ColumnJson, StoreError, conflict, failed, Server}
use lite_agentify.Catalog.Providers.{parse_protocol, quote, get_provider, upsert_provider}
use lite_agentify.Catalog.Models.{provider_in_use}
use lite_agentify.Catalog.Providers as Store
use lite_agentify.Session.{SessionIdentity}
use lite_agentify.Admin.{
  ProviderView, Answer, Handler, answer, done, all_providers, secret, respond, bad_request,
  not_found, conflicting, internal, for_admin, with_store, on_found, refresh_catalog_and_respond,
}

abbrev pub mask_prefix : String
mask_prefix = "__MASKED__"

-- `chars().count()` and `chars().skip(n).collect()`.
unfoldable pub count_chars : String → ℕ
count_chars String.[] = 0
count_chars (String.◌∷◌ c s) = suc (count_chars s)

unfoldable pub skip_chars : ℕ → String → String
skip_chars zero s = s
skip_chars (suc n) String.[] = ""
skip_chars (suc n) (String.◌∷◌ c s) = skip_chars n s

unfoldable pub mask_keeping_suffix : String → String
unfolding count_chars skip_chars
mask_keeping_suffix key =
    let chars = count_chars key in
    if leb 8 chars then append mask_prefix (skip_chars (chars - 4) key) else mask_prefix

pub record ProviderBody : Type 0 where
  pub protocol : String
  pub base_url : String
  pub api_key : String
  pub anthropic_version : Option String
  pub model_aliases : Map String String

-- The secret of a body: a masked one stands for the current.
abbrev pub chosen_key : String → Option String → Result String String
chosen_key given current_key =
    if is_some (strip_prefix mask_prefix given)
    then elim current_key [ none ↦ err "api_key is required" | some key ↦ ok key ]
    else ok given

abbrev pub or_error {ℓ} : {A : Type ℓ} → String → Option A → Result String A
or_error message none = err message
or_error message (some a) = ok a

-- The errors are the texts of `bad_request`.
unfoldable pub build_provider : String → ProviderBody → Option String → Result String ProviderConfig
unfolding is_blank strip_prefix
build_provider id body current_key = do
  protocol ← or_error "protocol must be 'openai' or 'anthropic'" (parse_protocol body.protocol)
  bail_if (is_blank body.base_url) "base_url cannot be empty"
  api_key ← chosen_key body.api_key current_key
  bail_if (is_blank api_key) "api_key cannot be empty"
  ok (record {
    id = id;
    protocol = protocol;
    base_url = body.base_url;
    api_key = api_key;
    anthropic_version = body.anthropic_version;
    model_aliases = body.model_aliases;
  })

module _ (d : DecimalOps) (j : ColumnJson) where
  -- `provider_json`.
  abbrev pub provider_view : ProviderConfig → ProviderView d j
  provider_view provider = record {
    id = provider.id;
    protocol = protocol_text provider.protocol;
    base_url = provider.base_url;
    api_key = mask_keeping_suffix provider.api_key;
    anthropic_version = provider.anthropic_version;
    model_aliases = provider.model_aliases;
  }

  -- The rest of a handler behind a check, whose error is the text of `bad_request`.
  abbrev pub with_checked : {A : Type 0} → Result String A → (A → Handler d j) → Handler d j
  with_checked (ok a) handler = handler a
  with_checked (err message) handler = respond d j (bad_request d j message)

  -- The answer to an error of the store.
  abbrev pub refusal : String → StoreError → Answer d j
  refusal message (conflict text) = conflicting d j text
  refusal message (failed text) = internal d j message

  module _ {E : Type 0} (load_from_path : String → Result E RetryConfig) (parse_uri : UriParser)
      (fresh_counter : Arc) (s : Server) where
    abbrev pub refreshed : ℕ → Handler d j
    refreshed status =
        refresh_catalog_and_respond d j load_from_path parse_uri fresh_counter s status done

    unfoldable pub list_providers : SessionIdentity → Handler d j
    unfolding Store.list_providers mask_keeping_suffix
    list_providers identity = for_admin d j identity (
        with_store d j (Store.list_providers d j s) λ listed. elim listed [
          | ok providers ↦
              respond d j (answer d j 200 (all_providers (map provider_view providers)))
          | err e ↦ respond d j (internal d j "failed to list providers")
        ])

    unfoldable pub create_provider : SessionIdentity → String → ProviderBody → Handler d j
    unfolding trim build_provider upsert_provider refresh_catalog_and_respond
    create_provider identity given body =
        let id = trim given in
        for_admin d j identity (
          if is_empty_text id
          then respond d j (bad_request d j "provider id cannot be empty")
          else with_checked (build_provider id body none) λ provider.
            with_store d j (upsert_provider d j s provider true) λ outcome. elim outcome [
              | ok t ↦ refreshed 201
              | err e ↦ respond d j (refusal "failed to create provider" e)
            ])

    unfoldable pub update_provider : SessionIdentity → String → ProviderBody → Handler d j
    unfolding get_provider build_provider upsert_provider refresh_catalog_and_respond
    update_provider identity id fields = for_admin d j identity (
        with_store d j (get_provider d j s id) λ found. elim found [
          | err e ↦ respond d j (internal d j "failed to load provider")
          | ok loaded ↦ elim loaded [
            | none ↦ respond d j (not_found d j "provider not found")
            | some current ↦
                with_checked (build_provider id fields (some current.api_key)) λ provider.
                  with_store d j (upsert_provider d j s provider false) λ outcome. elim outcome [
                    | ok t ↦ refreshed 200
                    | err e ↦ respond d j (internal d j "failed to update provider")
                  ]
          ]
        ])

    abbrev pub in_use : (id model : String) → String
    in_use id model =
        append (quote "provider '" id "' is still used by model '")
          (append model "'; remove that deployment first")

    unfoldable pub delete_provider : SessionIdentity → String → Handler d j
    unfolding provider_in_use Store.delete_provider refresh_catalog_and_respond
    delete_provider identity id = for_admin d j identity (
        with_store d j (provider_in_use d j s id) λ found. elim found [
          | err e ↦ respond d j (internal d j "failed to check provider usage")
          | ok usage ↦ elim usage [
            | some model ↦ respond d j (conflicting d j (in_use id model))
            | none ↦ with_store d j (Store.delete_provider d j s id) (
                on_found d j (refreshed 200) (not_found d j "provider not found")
                  (internal d j "failed to delete provider"))
          ]
        ])

    unfoldable pub reveal_provider_key : SessionIdentity → String → Handler d j
    unfolding get_provider
    reveal_provider_key identity id = for_admin d j identity (
        with_store d j (get_provider d j s id) λ found. elim found [
          | err e ↦ respond d j (internal d j "failed to load provider")
          | ok loaded ↦ elim loaded [
            | none ↦ respond d j (not_found d j "provider not found")
            | some provider ↦ respond d j (answer d j 200 (secret provider.api_key))
          ]
        ])
