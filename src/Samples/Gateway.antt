-- ===== src/Samples/Gateway.antt =====
-- A gateway with two providers, a model on both of them, and a caller with credit.
use lite_agentify.Prelude.{
  ℕ, ◌*◌, ◌++◌, String, true, none, some, List, [], ◌∷◌, ◌==◌, string_eq, nat_eq, if◌then◌else◌, ok,
  is_empty,
}
use lite_agentify.Prelude.Int.{ℤ, pos}
use lite_agentify.Model.{open_ai, anthropic, Provider}
use lite_agentify.Config.{ProviderConfig}
use lite_agentify.Decimal.{fixed}
use lite_agentify.Pricing.{PricingConfig, key_of, PricingMap}
use lite_agentify.Catalog.{ModelConfig, CatalogSnapshot}
use lite_agentify.Account.{KeyIdentity, Digest}
use lite_agentify.Build.{UriParser}
use lite_agentify.State.{GatewayState}
use lite_agentify.Proxy.Record.{UsageRecord, World, Outside}
use lite_agentify.Usage.{provider_response}
use lite_agentify.Proxy.Failover.{Request}
use lite_agentify.Samples.{sample_crates}

abbrev pub usd : ℕ → ℤ
usd n = pos (n * 1000000)

abbrev pub wildcard_rule : PricingConfig fixed
wildcard_rule = record {
  provider = "fast";
  model = "*";
  input_per_1m = usd 2;
  output_per_1m = usd 4;
  cached_input_per_1m = none;
  cache_read_per_1m = none;
  cache_write_per_1m = none;
  currency = "USD";
  pricing_source = some "list";
}

abbrev pub exact_rule : PricingConfig fixed
exact_rule = record wildcard_rule { provider = "claude"; model = "haiku"; output_per_1m = usd 6 }

abbrev pub rules : List (PricingConfig fixed)
rules = wildcard_rule ∷ exact_rule ∷ []

abbrev pub fast_config : ProviderConfig
fast_config = record {
  id = "fast";
  protocol = open_ai;
  base_url = "https://fast/";
  api_key = "k1";
  anthropic_version = none;
  model_aliases = [];
}

abbrev pub claude_config : ProviderConfig
claude_config = record {
  id = "claude";
  protocol = anthropic;
  base_url = "https://claude";
  api_key = "k2";
  anthropic_version = some "2023-06-01";
  model_aliases = [];
}

abbrev pub small_model : ModelConfig
small_model = record {
  name = "small";
  enabled = true;
  created_at = 9;
  deployments =
      record { id = 1; provider_id = "fast"; upstream_model = "gpt" }
      ∷ record { id = 2; provider_id = "claude"; upstream_model = "haiku" }
      ∷ [];
}

abbrev pub catalog : CatalogSnapshot fixed
catalog = record {
  providers = fast_config ∷ claude_config ∷ [];
  pricing = rules;
  models = small_model ∷ [];
}

-- Every text that is not empty is a URI with a host.
abbrev pub any_uri : UriParser
any_uri text = if text == "" then none else some (true, true)

abbrev pub fast : Provider
fast = record {
  id = "fast";
  protocol = open_ai;
  base_url = "https://fast";
  api_key = "k1";
  anthropic_version = none;
}

abbrev pub claude : Provider
claude = record {
  id = "claude";
  protocol = anthropic;
  base_url = "https://claude";
  api_key = "k2";
  anthropic_version = some "2023-06-01";
}

abbrev pub price_of : PricingConfig fixed → PricingMap fixed
price_of e =
    (
      key_of fixed e,
      record {
        input_per_1m = e.input_per_1m;
        output_per_1m = e.output_per_1m;
        cached_input_per_1m = e.cached_input_per_1m;
        cache_read_per_1m = e.cache_read_per_1m;
        cache_write_per_1m = e.cache_write_per_1m;
        currency = e.currency;
        pricing_source = e.pricing_source;
      },
    )
    ∷ []

abbrev pub prices : PricingMap fixed
prices = price_of wildcard_rule ++ price_of exact_rule

-- What `from_parts` makes of the catalog.
abbrev pub built : GatewayState fixed
built = record {
  api_keys = [];
  providers = ("fast", fast) ∷ ("claude", claude) ∷ [];
  models =
      (
        "small",
        record {
          enabled = true;
          created_at = 9;
          deployments =
              record { provider_id = "fast"; upstream_model = "gpt" }
              ∷ record { provider_id = "claude"; upstream_model = "haiku" }
              ∷ [];
        },
      )
      ∷ [];
  granted = [];
  spend_counter = 3;
  upstream = 1;
  usage_recorder = 2;
  pricing = prices;
  retry_policy = record {
    retryable_statuses = 429 ∷ 529 ∷ [];
    max_attempts = 4;
    base_delay_ms = 1000;
    max_delay_ms = 8000;
  };
}

abbrev pub caller : KeyIdentity fixed
caller = record {
  user_id = 1;
  api_key_id = 2;
  allowed_models = none;
  spend_cap_usd = some (usd 50);
}

-- A digest for runs.
abbrev pub digest : String → Digest
digest key = if key == "sk-1" then 7 ∷ [] else 0 ∷ []

abbrev pub open_gateway : GatewayState fixed
open_gateway = record built { api_keys = (7 ∷ [], caller) ∷ []; granted = (1, usd 100) ∷ [] }

abbrev pub idle : World sample_crates
idle = record { spend_counter = []; records = []; sent = []; slept = [] }

-- The first request is rate-limited, every later one is answered.
abbrev pub limited_once : Outside sample_crates
limited_once = record {
  Error = String;
  send = λ w q.
      if is_empty w.sent
      then ok (record { status = 429; headers = ("retry-after", "2") ∷ []; body = [] })
      else ok (record {
        status = 200;
        headers = ("te", "x") ∷ ("x-id", "y") ∷ [];
        body = ok (3 ∷ []) ∷ [];
      });
  now = λ w. 100;
  elapsed_ms = λ w. pos 5;
  until = λ w s. none;
  jitter_fraction = λ w. true;
  new_id = λ w. "id";
  parse_uri = any_uri;
}

abbrev pub chat : Request sample_crates limited_once
chat = record {
  method = "POST";
  path = "/v1/chat/completions";
  query = none;
  headers = ("authorization", "Bearer sk-1") ∷ ("accept", "json") ∷ ("cookie", "secret") ∷ [];
  body = ok (1 ∷ []) ∷ [];
}

-- The record of the answered request.
abbrev pub noted : UsageRecord sample_crates
noted = record {
  request_id = "id";
  created_at = 100;
  provider_id = "fast";
  protocol = open_ai;
  path = "/v1/chat/completions";
  user_id = some 1;
  api_key_id = some 2;
  requested_model = some "small";
  upstream_model = some "gpt";
  status = 200;
  latency_ms = pos 5;
  input_tokens = some (pos 7);
  output_tokens = some (pos 2);
  cached_input_tokens = none;
  cache_read_tokens = none;
  cache_write_tokens = none;
  total_tokens = some (pos 9);
  estimated_cost = some (pos 22);
  currency = some "USD";
  usage_source = provider_response;
  pricing_source = some "list";
}
