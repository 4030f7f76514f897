-- ===== src/Model.antt =====
-- Providers, catalog entries and the retry policy (src/model.rs).
pub mod Retry
mod Tests
use lite_agentify.Prelude.{
  ℕ, ◌*◌, ◌-◌, ◌^◌, min, String, Bool, true, false, Option, none, some, List, ◌||◌, any, ◌==◌,
  if◌then◌else◌, Eq, string_eq, nat_eq, arith, ◌≡◌, ◌↔◌, ◌≤◌,
}

pub data Protocol : Type 0 where
  open_ai anthropic : Protocol

-- `Protocol::fmt`.
abbrev pub protocol_text : Protocol → String
protocol_text open_ai = "openai"
protocol_text anthropic = "anthropic"

abbrev pub protocol_beq : Protocol → Protocol → Bool
protocol_beq open_ai open_ai = true
protocol_beq anthropic anthropic = true
protocol_beq _ _ = false

pub protocol_beq_iff : (a b : Protocol) → (protocol_beq a b ≡ true) ↔ (a ≡ b)
protocol_beq_iff a b = ground arith

-- The derived `PartialEq`.
instance abbrev pub protocol_eq : Eq Protocol
protocol_eq = record { agrees = protocol_beq; agrees_iff = protocol_beq_iff }

-- A UUID and a time stamp are only carried and compared.
abbrev pub Uuid : Type 0
Uuid = ℕ

abbrev pub DateTime : Type 0
DateTime = ℕ

pub record Provider : Type 0 where
  pub id : String
  pub protocol : Protocol
  pub base_url : String
  pub api_key : String
  pub anthropic_version : Option String

pub record Deployment : Type 0 where
  pub provider_id : String
  pub upstream_model : String

pub record ModelEntry : Type 0 where
  pub enabled : Bool
  pub created_at : DateTime
  pub deployments : List Deployment

unfoldable pub protocol_of : String → Option Protocol
protocol_of path =
    if path == "/v1/chat/completions" || path == "/v1/responses"
    then some open_ai
    else if path == "/v1/messages"
    then some anthropic
    else none

pub record RetryPolicy : Type 0 where
  pub retryable_statuses : List ℕ
  pub max_attempts : ℕ
  pub base_delay_ms : ℕ
  pub max_delay_ms : ℕ

unfoldable pub is_retryable : RetryPolicy → ℕ → Bool
is_retryable p status = any (λ s. s == status) p.retryable_statuses

-- `u64::saturating_mul`.
abbrev pub saturating_mul : ℕ → ℕ → ℕ
saturating_mul a b = min (a * b) (2 ^ 64 - 1)

-- The bound of the wait; `1u64 << attempt.min(63)` never overflows.
unfoldable pub backoff_ceiling : RetryPolicy → ℕ → ℕ
backoff_ceiling p attempt = min (saturating_mul p.base_delay_ms (2 ^ min attempt 63)) p.max_delay_ms

-- The f64 product of `backoff_ms`: `(ceiling as f64 * jitter.clamp(0.0, 1.0)) as u64`. An integer
-- up to 2^53 is exact in an f64, and a product by a fraction does not exceed it.
pub record Jitter : Type 1 where
  pub Fraction : Type 0
  pub scale : ℕ → Fraction → ℕ
  pub scale-le : (n : ℕ) (f : Fraction) → n ≤ 2 ^ 53 → scale n f ≤ n

unfoldable pub backoff_ms : (j : Jitter) → RetryPolicy → ℕ → j.Fraction → ℕ
unfolding backoff_ceiling
backoff_ms j p attempt jitter = j.scale (backoff_ceiling p attempt) jitter

unfoldable pub cap_delay_ms : RetryPolicy → ℕ → ℕ
cap_delay_ms p delay_ms = min delay_ms p.max_delay_ms
