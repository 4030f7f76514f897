-- ===== src/Usage.antt =====
-- Token usage in upstream answers: the parser and the observer of a stream (src/usage/parse.rs,
-- src/usage/observer.rs, src/usage/source.rs).
pub mod Parse
mod Lines
pub mod Chunks
mod Tests
use lite_agentify.Prelude.{
  ℕ, zero, suc, String, Bool, true, false, ◌||◌, Option, none, some, List, [], ◌∷◌, ◌++◌, and_then,
  or_else, if◌then◌else◌, length, is_empty, nat_beq, ◌==◌, string_eq, nat_eq,
}
use lite_agentify.Prelude.Int.{ℤ, ltb_ℤ, pos}
use lite_agentify.Prelude.Text.{strip_prefix, trim, trim_end, is_empty_text}
use lite_agentify.Model.{Protocol, open_ai, anthropic}
use lite_agentify.Domain.{TokenUsage, default_usage, has_tokens, merge_from}
use lite_agentify.Json.{Bytes, JsonOps}

pub data UsageSource : Type 0 where
  provider_response stream_summary unavailable : UsageSource

-- `position` of the first newline and `drain(..=newline)`: the line with its newline, and the
-- rest of the buffer.
unfoldable pub drain_line : Bytes → Option (Bytes × Bytes)
drain_line [] = none
drain_line (b ∷ bs) =
    if b == b'\n'
    then some (b ∷ [], bs)
    else elim (drain_line bs) [ none ↦ none | some (line, rest) ↦ some (b ∷ line, rest) ]

pub record UsageObserver : Type 0 where
  pub protocol : Protocol
  pub line_buffer : Bytes
  pub usage : TokenUsage
  pub seen_usage : Bool

unfoldable pub new_observer : Protocol → UsageObserver
new_observer protocol = record {
  protocol = protocol;
  line_buffer = [];
  usage = default_usage;
  seen_usage = false;
}

module _ (j : JsonOps) where
  open j use {Value, from_slice, from_utf8, from_str, get_key, pointer, as_i64}

  -- `filter(|value| *value >= 0)`.
  abbrev keep_nonneg : ℤ → Option ℤ
  keep_nonneg value = if ltb_ℤ value (pos 0) then none else some value

  unfoldable pub number : Value → String → Option ℤ
  number value key = and_then (and_then (get_key value key) as_i64) keep_nonneg

  -- `parsed.has_tokens().then_some(parsed)`.
  abbrev pub if_tokens : TokenUsage → Option TokenUsage
  if_tokens parsed = if has_tokens parsed then some parsed else none

  unfoldable pub parse_openai_usage : Value → Option TokenUsage
  unfolding number
  parse_openai_usage usage = if_tokens (record default_usage {
    input_tokens = number usage "prompt_tokens";
    output_tokens = number usage "completion_tokens";
    cached_input_tokens =
        and_then (get_key usage "prompt_tokens_details")
          (λ details. number details "cached_tokens");
    total_tokens = number usage "total_tokens";
  })

  unfoldable pub parse_anthropic_usage : Value → Option TokenUsage
  unfolding number
  parse_anthropic_usage usage = if_tokens (record default_usage {
    input_tokens = number usage "input_tokens";
    output_tokens = number usage "output_tokens";
    cache_read_tokens = number usage "cache_read_input_tokens";
    cache_write_tokens = number usage "cache_creation_input_tokens";
  })

  abbrev pub parse_usage : Protocol → Value → Option TokenUsage
  parse_usage open_ai usage = parse_openai_usage usage
  parse_usage anthropic usage = parse_anthropic_usage usage

  unfoldable pub parse_non_streaming_usage : Protocol → Bytes → Option TokenUsage
  parse_non_streaming_usage protocol body =
      and_then (from_slice body) (λ value. and_then (get_key value "usage") (parse_usage protocol))

  -- The payload of an event line, or none where `consume_line` returns early.
  unfoldable pub event_value : Bytes → Option Value
  event_value line = and_then (from_utf8 line) λ text.
      and_then (strip_prefix "data:" (trim_end text)) λ rest.
        let payload = trim rest in
        if is_empty_text payload || payload == "[DONE]" then none else from_str payload

  unfoldable pub event_usage : Protocol → Value → Option TokenUsage
  event_usage open_ai value = and_then (get_key value "usage") parse_openai_usage
  event_usage anthropic value =
      or_else (and_then (pointer value "/message/usage") parse_anthropic_usage)
        (and_then (get_key value "usage") parse_anthropic_usage)

  unfoldable pub consume_line : Bytes → UsageObserver → UsageObserver
  consume_line line o = elim (and_then (event_value line) (event_usage o.protocol)) [
    | none ↦ o
    | some parsed ↦ record o { usage = merge_from o.usage parsed; seen_usage = true }
  ]

  -- The `while let` loop of `feed`; every round takes at least a byte off the buffer.
  unfoldable pub feed_loop : ℕ → UsageObserver → UsageObserver
  feed_loop zero o = o
  feed_loop (suc fuel) o = elim (drain_line o.line_buffer) [
    | none ↦ o
    | some (line, rest) ↦ feed_loop fuel (consume_line line (record o { line_buffer = rest }))
  ]

  unfoldable pub feed : Bytes → UsageObserver → UsageObserver
  unfolding feed_loop
  feed chunk o =
      let buffer = o.line_buffer ++ chunk in
      feed_loop (suc (length buffer)) (record o { line_buffer = buffer })

  unfoldable pub finish : UsageObserver → Option TokenUsage
  finish o =
      let rest = o.line_buffer in
      let o' = if is_empty rest then o else consume_line rest (record o { line_buffer = [] }) in
      if o'.seen_usage then some o'.usage else none
