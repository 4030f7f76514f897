-- ===== src/Domain.antt =====
-- Token counts (src/domain/token.rs). An i64 is the integer that it stands for.
pub mod Total
pub mod Merge
mod Tests
use lite_agentify.Prelude.{
  Bool, ◌||◌, Option, none, some, List, [], ◌∷◌, is_some, any, if◌then◌else◌,
}
use lite_agentify.Prelude.Int.{ℤ, pos, ◌+ℤ◌, wrap_i64}

pub record TokenUsage : Type 0 where
  pub input_tokens : Option ℤ
  pub output_tokens : Option ℤ
  pub cached_input_tokens : Option ℤ
  pub cache_read_tokens : Option ℤ
  pub cache_write_tokens : Option ℤ
  pub total_tokens : Option ℤ

-- `TokenUsage::default()`.
abbrev pub default_usage : TokenUsage
default_usage = record {
  input_tokens = none;
  output_tokens = none;
  cached_input_tokens = none;
  cache_read_tokens = none;
  cache_write_tokens = none;
  total_tokens = none;
}

unfoldable pub has_tokens : TokenUsage → Bool
has_tokens u =
    is_some u.input_tokens
    || is_some u.output_tokens
    || is_some u.cached_input_tokens
    || is_some u.cache_read_tokens
    || is_some u.cache_write_tokens
    || is_some u.total_tokens

-- `components.into_iter().flatten().sum()`, which wraps around in a release build.
unfoldable pub sum_from : ℤ → List (Option ℤ) → ℤ
sum_from acc [] = acc
sum_from acc (none ∷ xs) = sum_from acc xs
sum_from acc (some x ∷ xs) = sum_from (wrap_i64 (acc +ℤ x)) xs

abbrev pub components : TokenUsage → List (Option ℤ)
components u = u.input_tokens ∷ u.output_tokens ∷ u.cache_read_tokens ∷ u.cache_write_tokens ∷ []

unfoldable pub ensure_total : TokenUsage → TokenUsage
ensure_total u =
    if is_some u.total_tokens
    then u
    else if any is_some (components u)
    then record u { total_tokens = some (sum_from (pos 0) (components u)) }
    else u

-- A field that `other` reports replaces the one of `self`.
abbrev pub prefer : Option ℤ → Option ℤ → Option ℤ
prefer mine theirs = if is_some theirs then theirs else mine

unfoldable pub merge_from : TokenUsage → TokenUsage → TokenUsage
merge_from u other = record {
  input_tokens = prefer u.input_tokens other.input_tokens;
  output_tokens = prefer u.output_tokens other.output_tokens;
  cached_input_tokens = prefer u.cached_input_tokens other.cached_input_tokens;
  cache_read_tokens = prefer u.cache_read_tokens other.cache_read_tokens;
  cache_write_tokens = prefer u.cache_write_tokens other.cache_write_tokens;
  total_tokens = prefer u.total_tokens other.total_tokens;
}
