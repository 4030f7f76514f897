-- ===== src/Domain/Tests.antt =====
-- Runs and instances for src/domain/token.rs.
use lite_agentify.Prelude.{◌≡◌, refl, some, arith, ◌||◌}
use lite_agentify.Prelude.Int.{pos}
use lite_agentify.Domain.{TokenUsage, default_usage, has_tokens, ensure_total, merge_from}
use lite_agentify.Domain.Total.{ensure_total_exact, ensure_total_idem}
use lite_agentify.Domain.Merge.{merge_from-laws}

abbrev seen : TokenUsage
seen = record default_usage { input_tokens = some (pos 10); cache_read_tokens = some (pos 3) }

abbrev later : TokenUsage
later = record default_usage { output_tokens = some (pos 4) }

ensure_total_exact_example : ensure_total seen ≡ record seen { total_tokens = some (pos 13) }
ensure_total_exact_example = ensure_total_exact seen (refl, (tt, (refl, (tt, tt)))) (omega arith)

ensure_total_idem_example : ensure_total (ensure_total seen) ≡ ensure_total seen
ensure_total_idem_example = ensure_total_idem seen

merge_from-laws_example :
    (merge_from default_usage seen ≡ seen)
    × (merge_from seen default_usage ≡ seen)
    × (merge_from (merge_from seen later) seen ≡ merge_from seen (merge_from later seen))
    × (has_tokens (merge_from seen later) ≡ (has_tokens seen || has_tokens later))
merge_from-laws_example = merge_from-laws seen later seen
