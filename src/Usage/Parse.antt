-- ===== src/Usage/Parse.antt =====
-- The counts that the parsers of src/usage/parse.rs let through, to the end of a stream.
use lite_agentify.Prelude.{
  true, ◌⊎◌, ◌≡◌, ◌∙◌, refl, Option, none, some, List, [], ◌∷◌, All, arith, inl, inr, Bool-cases,
  and_then, or_else, String, flatten, subst, sym, ap,
}
use lite_agentify.Prelude.Int.{ℤ}
use lite_agentify.Model.{Protocol, open_ai, anthropic}
use lite_agentify.Domain.{TokenUsage, has_tokens, merge_from, prefer}
use lite_agentify.Domain.Total.{IsCount}
use lite_agentify.Domain.Merge.{merge_from-laws}
use lite_agentify.Json.{Bytes, JsonOps}
use lite_agentify.Usage.{
  number, keep_nonneg, if_tokens, parse_openai_usage, parse_anthropic_usage, parse_usage,
  parse_non_streaming_usage, event_value, event_usage, new_observer, finish,
}
use lite_agentify.Usage.Chunks.{feed_all, usages, lines_of, merge_all, summary, finish-feed_all}

-- No count is negative, and at least one is there.
pub record IsCounted (u : TokenUsage) : Type 0 where
  pub input : IsCount u.input_tokens
  pub output : IsCount u.output_tokens
  pub cached_input : IsCount u.cached_input_tokens
  pub cache_read : IsCount u.cache_read_tokens
  pub cache_write : IsCount u.cache_write_tokens
  pub total : IsCount u.total_tokens

module _ (j : JsonOps) where
  keep_nonneg-IsCount : (o : Option ℤ) → IsCount (and_then o (keep_nonneg j))
  keep_nonneg-IsCount none = tt
  keep_nonneg-IsCount (some z) = ground arith

  number-IsCount : (v : j.Value) (k : String) → IsCount (number j v k)
  unfolding number
  number-IsCount v k = keep_nonneg-IsCount (and_then (j.get_key v k) j.as_i64)

  cached-IsCount : (o : Option j.Value) (k : String) → IsCount (and_then o (λ v. number j v k))
  cached-IsCount none k = tt
  cached-IsCount (some v) k = number-IsCount v k

  if_tokens-IsCounted :
      (v u : TokenUsage)
      → IsCounted v
      → if_tokens j v ≡ some u
      → IsCounted u × (has_tokens u ≡ true)
  if_tokens-IsCounted v u c h = elim (Bool-cases (has_tokens v)) [
    | inl t ↦ let e : v ≡ u = ground arith in (subst IsCounted e c, ground arith)
    | inr f ↦ absurd (ground arith)
  ]

  parse_usage-IsCounted :
      (protocol : Protocol) (v : j.Value) (u : TokenUsage)
      → parse_usage j protocol v ≡ some u
      → IsCounted u × (has_tokens u ≡ true)
  unfolding parse_openai_usage parse_anthropic_usage
  parse_usage-IsCounted open_ai v u h =
      if_tokens-IsCounted _ u
        (record {
          input = number-IsCount v "prompt_tokens";
          output = number-IsCount v "completion_tokens";
          cached_input = cached-IsCount (j.get_key v "prompt_tokens_details") "cached_tokens";
          cache_read = tt;
          cache_write = tt;
          total = number-IsCount v "total_tokens";
        })
        h
  parse_usage-IsCounted anthropic v u h =
      if_tokens-IsCounted _ u
        (record {
          input = number-IsCount v "input_tokens";
          output = number-IsCount v "output_tokens";
          cached_input = tt;
          cache_read = number-IsCount v "cache_read_input_tokens";
          cache_write = number-IsCount v "cache_creation_input_tokens";
          total = tt;
        })
        h

  if_parsed :
      (protocol : Protocol) (o : Option j.Value) (u : TokenUsage)
      → and_then o (parse_usage j protocol) ≡ some u
      → IsCounted u × (has_tokens u ≡ true)
  if_parsed protocol none u h = cc
  if_parsed protocol (some v) u h = parse_usage-IsCounted protocol v u h

  body_parsed :
      (protocol : Protocol) (o : Option j.Value) (u : TokenUsage)
      → and_then o (λ v. and_then (j.get_key v "usage") (parse_usage j protocol)) ≡ some u
      → IsCounted u × (has_tokens u ≡ true)
  body_parsed protocol none u h = cc
  body_parsed protocol (some v) u h = if_parsed protocol (j.get_key v "usage") u h

  first_parsed :
      (a b : Option TokenUsage) (u : TokenUsage)
      → or_else a b ≡ some u
      → (a ≡ some u) ⊎ (b ≡ some u)
  first_parsed none b u h = inr h
  first_parsed (some a) b u h = inl h

  event_usage-IsCounted :
      (protocol : Protocol) (v : j.Value) (u : TokenUsage)
      → event_usage j protocol v ≡ some u
      → IsCounted u × (has_tokens u ≡ true)
  unfolding event_usage
  event_usage-IsCounted open_ai v u h = if_parsed open_ai (j.get_key v "usage") u h
  event_usage-IsCounted anthropic v u h =
      elim (first_parsed (and_then (j.pointer v "/message/usage") (parse_anthropic_usage j)) _ u
        h) [
          | inl message ↦ if_parsed anthropic (j.pointer v "/message/usage") u message
          | inr top ↦ if_parsed anthropic (j.get_key v "usage") u top
        ]

  prefer-IsCount : (a b : Option ℤ) → IsCount a → IsCount b → IsCount (prefer a b)
  prefer-IsCount a none ha hb = ha
  prefer-IsCount a (some b) ha hb = hb

  merge_from-IsCounted : (a b : TokenUsage) → IsCounted a → IsCounted b → IsCounted (merge_from a b)
  unfolding merge_from
  merge_from-IsCounted a b ha hb = record {
    input = prefer-IsCount a.input_tokens b.input_tokens ha.input hb.input;
    output = prefer-IsCount a.output_tokens b.output_tokens ha.output hb.output;
    cached_input =
        prefer-IsCount a.cached_input_tokens b.cached_input_tokens ha.cached_input hb.cached_input;
    cache_read = prefer-IsCount a.cache_read_tokens b.cache_read_tokens ha.cache_read hb.cache_read;
    cache_write =
        prefer-IsCount a.cache_write_tokens b.cache_write_tokens ha.cache_write hb.cache_write;
    total = prefer-IsCount a.total_tokens b.total_tokens ha.total hb.total;
  }

  abbrev IsReport : TokenUsage → Type 0
  IsReport u = IsCounted u × (has_tokens u ≡ true)

  merge_all-IsReport :
      (u : TokenUsage) (us : List TokenUsage)
      → IsReport u
      → All IsReport us
      → IsReport (merge_all j u us)
  merge_all-IsReport u [] h hs = h
  merge_all-IsReport u (v ∷ vs) h hs =
      let (neutral, neutral_right, assoc, tokens) = merge_from-laws u v u in
      merge_all-IsReport (merge_from u v) vs
        (merge_from-IsCounted u v h.0 hs.0.0, tokens ∙ ground arith) hs.1

  reports-more :
      (o : Option TokenUsage) (us : List TokenUsage)
      → ((v : TokenUsage) → o ≡ some v → IsReport v)
      → All IsReport us
      → All IsReport (elim o [ none ↦ us | some v ↦ v ∷ us ])
  reports-more none us h hs = hs
  reports-more (some v) us h hs = (h v refl, hs)

  line-IsReport :
      (protocol : Protocol) (o : Option j.Value) (u : TokenUsage)
      → and_then o (event_usage j protocol) ≡ some u
      → IsReport u
  line-IsReport protocol none u h = cc
  line-IsReport protocol (some v) u h = event_usage-IsCounted protocol v u h

  usages-IsReport :
      (protocol : Protocol) (lines : List Bytes) → All IsReport (usages j protocol lines)
  usages-IsReport protocol [] = tt
  usages-IsReport protocol (line ∷ lines) =
      reports-more (and_then (event_value j line) (event_usage j protocol))
        (usages j protocol lines) (line-IsReport protocol (event_value j line))
        (usages-IsReport protocol lines)

  summary-IsReport :
      (us : List TokenUsage) (u : TokenUsage) → All IsReport us → summary j us ≡ some u → IsReport u
  summary-IsReport [] u hs h = cc
  summary-IsReport (v ∷ vs) u hs h =
      let (neutral, neutral_right, assoc, tokens) = merge_from-laws v v v in
      let whole : merge_all j v vs ≡ u = ground (arith, ap (λ x. merge_all j x vs) neutral) in
      subst IsReport whole (merge_all-IsReport v vs hs.0 hs.1)

  -- Whatever the upstream streams, in whatever chunks: where the observer reports a usage at the
  -- end, none of its counts is negative and at least one of them is there.
  pub finish-IsCounted :
      (protocol : Protocol) (chunks : List Bytes) (u : TokenUsage)
      → finish j (feed_all j chunks (new_observer protocol)) ≡ some u
      → IsCounted u × (has_tokens u ≡ true)
  finish-IsCounted protocol chunks u h =
      summary-IsReport (usages j protocol (lines_of j (flatten chunks))) u
        (usages-IsReport protocol (lines_of j (flatten chunks)))
        (sym (finish-feed_all j protocol chunks) ∙ h)

  -- A usage read from a plain answer has no negative count, and at least one count is there.
  pub parse_non_streaming_usage-IsCounted :
      (protocol : Protocol) (body : Bytes) (u : TokenUsage)
      → parse_non_streaming_usage j protocol body ≡ some u
      → IsCounted u × (has_tokens u ≡ true)
  unfolding parse_non_streaming_usage
  parse_non_streaming_usage-IsCounted protocol body u h =
      body_parsed protocol (j.from_slice body) u h
