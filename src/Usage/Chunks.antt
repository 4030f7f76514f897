-- ===== src/Usage/Chunks.antt =====
-- What the observer of a stream reports, `UsageObserver` of src/usage/observer.rs.
use lite_agentify.Prelude.{
  ℕ, zero, suc, ◌<◌, true, not, ◌||◌, ◌≡◌, refl, sym, ap, ◌∙◌, Option, none, some, List, [], ◌∷◌,
  ◌++◌, arith, inl, inr, Bool-cases, Option-cases, length, if◌then◌else◌, nat_eq, is_empty, flatten,
  and_then,
}
use mathlib.Core.List.{append-nil, append_assoc}
use lite_agentify.Model.{Protocol}
use lite_agentify.Domain.{TokenUsage, default_usage, merge_from}
use lite_agentify.Json.{Bytes, JsonOps}
use lite_agentify.Usage.{
  UsageObserver, new_observer, event_value, event_usage, consume_line, drain_line, feed_loop, feed,
  finish,
}
use lite_agentify.Usage.Lines.{cut, cut-append, cut_rest, drain_line-cut, drain_line-length}

module _ (j : JsonOps) where
  -- Lines consumed one after the other, with the buffer left alone.
  abbrev absorb : List Bytes → UsageObserver → UsageObserver
  absorb [] o = o
  absorb (line ∷ lines) o = absorb lines (consume_line j line o)

  consume_line-buffer :
      (line rest : Bytes) (o : UsageObserver)
      → consume_line j line (record o { line_buffer = rest })
        ≡ record (consume_line j line o) { line_buffer = rest }
  unfolding consume_line
  consume_line-buffer line rest o = ground arith

  absorb-buffer :
      (lines : List Bytes) (rest : Bytes) (o : UsageObserver)
      → absorb lines (record o { line_buffer = rest })
        ≡ record (absorb lines o) { line_buffer = rest }
  absorb-buffer [] rest o = refl
  absorb-buffer (line ∷ lines) rest o =
      ap (absorb lines) (consume_line-buffer line rest o)
      ∙ absorb-buffer lines rest (consume_line j line o)

  absorb-append :
      (xs ys : List Bytes) (o : UsageObserver) → absorb (xs ++ ys) o ≡ absorb ys (absorb xs o)
  absorb-append [] ys o = refl
  absorb-append (x ∷ xs) ys o = absorb-append xs ys (consume_line j x o)

  -- An observer whose buffer is to be cut.
  abbrev absorb_cut : List Bytes × Bytes → UsageObserver → UsageObserver
  absorb_cut (lines, rest) o = record (absorb lines o) { line_buffer = rest }

  set_buffer-ap :
      (rest : Bytes) {o o' : UsageObserver}
      → o ≡ o'
      → ◌≡◌ {A = UsageObserver} (record o { line_buffer = rest }) (record o' { line_buffer = rest })
  set_buffer-ap rest e = λ i. record (e i) { line_buffer = rest }

  absorb_cut-buffer :
      (q : List Bytes × Bytes) (rest : Bytes) (o : UsageObserver)
      → absorb_cut q (record o { line_buffer = rest }) ≡ absorb_cut q o
  absorb_cut-buffer q rest o = set_buffer-ap q.1 (absorb-buffer q.0 rest o)

  feed_loop-step :
      (fuel : ℕ) (o : UsageObserver) (line rest : Bytes)
      → drain_line o.line_buffer ≡ some (line, rest)
      → feed_loop j (suc fuel) o
        ≡ feed_loop j fuel (record (consume_line j line o) { line_buffer = rest })
  unfolding feed_loop
  feed_loop-step fuel o line rest e = rw (← consume_line-buffer line rest o) (ground arith)

  -- With fuel for every byte of the buffer the loop consumes all complete lines.
  feed_loop-cut :
      (fuel : ℕ) (o : UsageObserver)
      → length o.line_buffer < fuel
      → feed_loop j fuel o ≡ absorb_cut (cut o.line_buffer) o
  unfolding feed_loop
  feed_loop-cut zero o h = elim h [ ]
  feed_loop-cut (suc fuel) o h = elim (Option-cases (drain_line o.line_buffer)) [
    | inl e ↦ ground (arith, drain_line-cut o.line_buffer)
    | inr (p, e) ↦
        let shorter = drain_line-length o.line_buffer p.0 p.1 e in
        let consumed = consume_line j p.0 o in
        let next : UsageObserver = record consumed { line_buffer = p.1 } in
        let step : feed_loop j (suc fuel) o ≡ feed_loop j fuel next =
          feed_loop-step fuel o p.0 p.1 e in
        let first : cut o.line_buffer ≡ (p.0 ∷ (cut p.1).0, (cut p.1).1) =
          ground (arith, drain_line-cut o.line_buffer) in
        step
        ∙ feed_loop-cut fuel next (omega arith)
        ∙ absorb_cut-buffer (cut p.1) p.1 consumed
        ∙ ap (λ q. absorb_cut q o) (sym first)
  ]

  feed-cut :
      (chunk : Bytes) (o : UsageObserver)
      → feed j chunk o ≡ absorb_cut (cut (o.line_buffer ++ chunk)) o
  unfolding feed
  feed-cut chunk o =
      let buffer = o.line_buffer ++ chunk in
      feed_loop-cut (suc (length buffer)) (record o { line_buffer = buffer }) (omega arith)
      ∙ absorb_cut-buffer (cut buffer) buffer o

  -- The stream of `usage_observed_stream`, chunk by chunk.
  abbrev pub feed_all : List Bytes → UsageObserver → UsageObserver
  feed_all [] o = o
  feed_all (chunk ∷ chunks) o = feed_all chunks (feed j chunk o)

  -- After any chunks: the lines of all bytes are consumed, and what follows them is buffered.
  feed_all-cut :
      (chunks : List Bytes) (o : UsageObserver)
      → cut o.line_buffer ≡ ([], o.line_buffer)
      → feed_all chunks o ≡ absorb_cut (cut (o.line_buffer ++ flatten chunks)) o
  feed_all-cut [] o h = sym (ap (λ q. absorb_cut q o) (ap cut (append-nil o.line_buffer) ∙ h))
  feed_all-cut (chunk ∷ chunks) o h =
      let rest : Bytes = flatten chunks in
      let buffer : Bytes = o.line_buffer ++ chunk in
      let q : List Bytes × Bytes = cut buffer in
      let more : List Bytes × Bytes = cut (q.1 ++ rest) in
      ap (feed_all chunks) (feed-cut chunk o)
      ∙ feed_all-cut chunks (absorb_cut q o) (cut_rest buffer)
      ∙ absorb_cut-buffer more q.1 (absorb q.0 o)
      ∙ set_buffer-ap more.1 (sym (absorb-append q.0 more.0 o))
      ∙ ap (λ p. absorb_cut p o)
          (sym (cut-append buffer rest) ∙ ap cut (append_assoc o.line_buffer chunk rest))

  -- Specification: the usages that the lines of a text report, in order.
  abbrev pub usages : Protocol → List Bytes → List TokenUsage
  usages protocol [] = []
  usages protocol (line ∷ lines) = elim (and_then (event_value j line) (event_usage j protocol)) [
    | none ↦ usages protocol lines
    | some u ↦ u ∷ usages protocol lines
  ]

  -- All lines of a text; one without a newline ends it.
  abbrev pub lines_of : Bytes → List Bytes
  lines_of bytes =
      let (lines, rest) = cut bytes in lines ++ (if is_empty rest then [] else rest ∷ [])

  abbrev pub merge_all : TokenUsage → List TokenUsage → TokenUsage
  merge_all u [] = u
  merge_all u (v ∷ vs) = merge_all (merge_from u v) vs

  -- None where no line reports usage, else all reports merged.
  abbrev pub summary : List TokenUsage → Option TokenUsage
  summary [] = none
  summary (u ∷ us) = some (merge_all default_usage (u ∷ us))

  absorb-usages :
      (lines : List Bytes) (o : UsageObserver)
      → ((absorb lines o).usage ≡ merge_all o.usage (usages o.protocol lines))
        × ((absorb lines o).seen_usage ≡ (o.seen_usage || not (is_empty (usages o.protocol lines))))
  unfolding consume_line
  absorb-usages [] o = (refl, ground arith)
  absorb-usages (line ∷ lines) o =
      elim (Option-cases (and_then (event_value j line) (event_usage j o.protocol))) [
        | inl e ↦ let ih = absorb-usages lines o in (ground arith, ground arith)
        | inr (u, e) ↦
            let ih =
              absorb-usages lines (record o { usage = merge_from o.usage u; seen_usage = true }) in
            (ground arith, ground arith)
      ]

  abbrev report : UsageObserver → Option TokenUsage
  report o = if o.seen_usage then some o.usage else none

  abbrev last_line : Bytes → List Bytes
  last_line rest = if is_empty rest then [] else rest ∷ []

  finish-report : (o : UsageObserver) → finish j o ≡ report (absorb (last_line o.line_buffer) o)
  unfolding finish
  finish-report o = elim (Bool-cases (is_empty o.line_buffer)) [
    | inl e ↦ ground arith
    | inr e ↦ ground (arith, consume_line-buffer o.line_buffer [] o)
  ]

  report-of :
      (o : UsageObserver) (us : List TokenUsage)
      → o.usage ≡ merge_all default_usage us
      → o.seen_usage ≡ not (is_empty us)
      → report o ≡ summary us
  report-of o [] merged seen = ground arith
  report-of o (u ∷ us) merged seen = ground arith

  report-summary :
      (protocol : Protocol) (lines : List Bytes)
      → report (absorb lines (new_observer protocol)) ≡ summary (usages protocol lines)
  unfolding new_observer
  report-summary protocol lines =
      let (merged, seen) = absorb-usages lines (new_observer protocol) in
      report-of (absorb lines (new_observer protocol)) (usages protocol lines) merged seen

  -- The summary of a stream depends on its bytes alone and not on how they were cut into chunks:
  -- after any chunks it is the merge of the usages that the lines of all the bytes report, in
  -- their order, the last line counting without a newline too; and none if no line reports usage.
  pub finish-feed_all :
      (protocol : Protocol) (chunks : List Bytes)
      → finish j (feed_all chunks (new_observer protocol))
        ≡ summary (usages protocol (lines_of (flatten chunks)))
  unfolding new_observer
  finish-feed_all protocol chunks =
      let start : UsageObserver = new_observer protocol in
      let q : List Bytes × Bytes = cut (flatten chunks) in
      ap (finish j) (feed_all-cut chunks start refl)
      ∙ finish-report (absorb_cut q start)
      ∙ ap report (absorb-buffer (last_line q.1) q.1 (absorb q.0 start))
      ∙ ap report (sym (absorb-append q.0 (last_line q.1) start))
      ∙ report-summary protocol (q.0 ++ last_line q.1)
