-- ===== src/Domain/Merge.antt =====
-- The merge of stream events, `merge_from` in src/domain/token.rs.
use lite_agentify.Prelude.{◌≡◌, ◌||◌, arith}
use lite_agentify.Domain.{TokenUsage, default_usage, has_tokens, merge_from}

-- The order of the events matters and their grouping does not: the default usage is neutral on
-- both sides, merging is associative, and the result has tokens exactly if one side has.
pub merge_from-laws :
    (a b c : TokenUsage)
    → (merge_from default_usage a ≡ a)
      × (merge_from a default_usage ≡ a)
      × (merge_from (merge_from a b) c ≡ merge_from a (merge_from b c))
      × (has_tokens (merge_from a b) ≡ (has_tokens a || has_tokens b))
unfolding merge_from has_tokens
merge_from-laws a b c = (ground arith, ground arith, ground arith, ground arith)
