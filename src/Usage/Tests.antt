-- ===== src/Usage/Tests.antt =====
-- Runs and instances for src/usage: one line of a stream in two chunks, and a plain answer.
use lite_agentify.Prelude.{◌≡◌, refl, some, none, List, [], ◌∷◌, true, flatten}
use lite_agentify.Prelude.Int.{pos}
use lite_agentify.Model.{open_ai}
use lite_agentify.Domain.{TokenUsage, default_usage, has_tokens}
use lite_agentify.Json.{Bytes}
use lite_agentify.Usage.{new_observer, finish, parse_non_streaming_usage}
use lite_agentify.Usage.Parse.{IsCounted, finish-IsCounted, parse_non_streaming_usage-IsCounted}
use lite_agentify.Usage.Chunks.{feed_all, usages, lines_of, summary, finish-feed_all}
use lite_agentify.Samples.{sample_json}

abbrev chunks : List Bytes
chunks = (4 ∷ []) ∷ (b'\n' ∷ 5 ∷ []) ∷ []

abbrev reported : TokenUsage
reported = record default_usage { input_tokens = some (pos 7); output_tokens = some (pos 2) }

finish-feed_all_example :
    finish sample_json (feed_all sample_json chunks (new_observer open_ai))
    ≡ summary sample_json (usages sample_json open_ai (lines_of sample_json (4 ∷ b'\n' ∷ 5 ∷ [])))
finish-feed_all_example = finish-feed_all sample_json open_ai chunks

observed : finish sample_json (feed_all sample_json chunks (new_observer open_ai)) ≡ some reported
unfolding finish lite_agentify.Usage.feed lite_agentify.Usage.drain_line new_observer
    lite_agentify.Usage.consume_line lite_agentify.Usage.event_value
    lite_agentify.Prelude.Text.strip_prefix lite_agentify.Prelude.Text.trim_end
    lite_agentify.Prelude.Text.trim lite_agentify.Usage.event_usage
    lite_agentify.Samples.get_object_key lite_agentify.Usage.parse_openai_usage has_tokens
    lite_agentify.Domain.merge_from
observed = refl

finish-IsCounted_example : IsCounted reported × (has_tokens reported ≡ true)
finish-IsCounted_example = finish-IsCounted sample_json open_ai chunks reported observed

parsed : parse_non_streaming_usage sample_json open_ai (3 ∷ []) ≡ some reported
unfolding parse_non_streaming_usage lite_agentify.Samples.get_object_key
    lite_agentify.Usage.parse_openai_usage has_tokens
parsed = refl

parse_non_streaming_usage-IsCounted_example : IsCounted reported × (has_tokens reported ≡ true)
parse_non_streaming_usage-IsCounted_example =
    parse_non_streaming_usage-IsCounted sample_json open_ai (3 ∷ []) reported parsed
