-- ===== src/Domain/Total.antt =====
-- The derived total of `ensure_total` in src/domain/token.rs.
use lite_agentify.Prelude.{
  ℕ, ◌+◌, ◌^◌, ◌<◌, ◌≡◌, ◌∙◌, Option, none, some, List, [], ◌∷◌, arith, is_some, any, if◌then◌else◌,
  All,
}
use lite_agentify.Prelude.Int.{ℤ, pos, negsuc, neg_part, pos_part, wrap_i64-pos, ◌+ℤ◌}
use lite_agentify.Domain.{TokenUsage, ensure_total, sum_from, components}

-- A count that `number` of usage/parse.rs lets through: absent, or not negative.
abbrev pub IsCount : Option ℤ → Type 0
IsCount none = Unit
IsCount (some x) = neg_part x ≡ 0

abbrev pub count_of : Option ℤ → ℕ
count_of none = 0
count_of (some x) = pos_part x

-- The sum of the counts as plain numbers, with no wrap-around.
abbrev pub counts : List (Option ℤ) → ℕ
counts [] = 0
counts (o ∷ os) = count_of o + counts os

pos-add : (a n : ℕ) → pos a +ℤ pos n ≡ pos (a + n)
unfolding ◌+ℤ◌
pos-add a n = ground arith

sum_from-counts :
    (a : ℕ) (os : List (Option ℤ))
    → All IsCount os
    → a + counts os < 2 ^ 63
    → sum_from (pos a) os ≡ pos (a + counts os)
unfolding sum_from
sum_from-counts a [] c h = ground arith
sum_from-counts a (none ∷ os) c h = sum_from-counts a os c.1 (omega arith) ∙ ground arith
sum_from-counts a (some (pos n) ∷ os) c h =
    rw (pos-add, wrap_i64-pos (a + n) (omega arith))
      (sum_from-counts (a + n) os c.1 (omega arith) ∙ ground arith)
sum_from-counts a (some (negsuc n) ∷ os) c h = absurd (omega arith)

-- With counts that are not negative and add up below 2^63: a reported total is kept and nothing
-- changes; without one, and with a component, the total becomes the exact sum of the input,
-- output, cache read and cache write counts; without a component nothing changes.
pub ensure_total_exact :
    (u : TokenUsage)
    → All IsCount (components u)
    → counts (components u) < 2 ^ 63
    → ensure_total u ≡ (
        if is_some u.total_tokens
        then u
        else if any is_some (components u)
        then record u { total_tokens = some (pos (counts (components u))) }
        else u)
unfolding ensure_total
ensure_total_exact u c h = rw (sum_from-counts 0 (components u) c (omega arith)) (ground arith)

-- Filling in the total again changes nothing.
pub ensure_total_idem : (u : TokenUsage) → ensure_total (ensure_total u) ≡ ensure_total u
unfolding ensure_total
ensure_total_idem u = ground arith
