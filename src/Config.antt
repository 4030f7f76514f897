-- ===== src/Config.antt =====
-- The sections of the configuration file that reach the gateway state (src/config.rs).
use lite_agentify.Prelude.{ℕ, String, Option, List, [], ◌∷◌}
use lite_agentify.Prelude.Map.{Map}
use lite_agentify.Model.{Protocol}

pub record RetryConfig : Type 0 where
  pub retryable_statuses : List ℕ
  pub max_attempts : ℕ
  pub base_delay_ms : ℕ
  pub max_delay_ms : ℕ

-- `RetryConfig::default()`.
abbrev pub default_retry : RetryConfig
default_retry = record {
  retryable_statuses = 429 ∷ 529 ∷ [];
  max_attempts = 4;
  base_delay_ms = 1000;
  max_delay_ms = 8000;
}

pub record ProviderConfig : Type 0 where
  pub id : String
  pub protocol : Protocol
  pub base_url : String
  pub api_key : String
  pub anthropic_version : Option String
  pub model_aliases : Map String String

pub record RouteConfig : Type 0 where
  pub path_prefix : String
  pub providers : List String
