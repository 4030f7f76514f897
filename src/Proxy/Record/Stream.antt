-- ===== src/Proxy/Record/Stream.antt =====
-- The stream that the client reads and the usage noted at its end, `usage_observed_stream` in
-- src/proxy/router.rs.
use lite_agentify.Prelude.{
  ltb, if◌then◌else◌, Bool-cases, inl, inr, ℕ, zero, suc, ◌≤◌, ◌<◌, ◌≡◌, refl, ap, ◌∙◌, List, [],
  ◌∷◌, flatten, length, ok, arith,
}
use lite_agentify.State.{GatewayState}
use lite_agentify.Json.{Bytes}
use lite_agentify.Usage.{UsageObserver, stream_summary, new_observer, feed, finish}
use lite_agentify.Usage.Chunks.{feed_all, usages, lines_of, summary, finish-feed_all}
use lite_agentify.Proxy.Record.{
  Crates, UsageMetadata, World, Outside, record_usage, Body, observed_stream, usage_observed_stream,
}

module _ (x : Crates) (o : Outside x) where
  -- A body that does not break off.
  abbrev pub unbroken : List Bytes → Body x o
  unbroken [] = []
  unbroken (chunk ∷ chunks) = ok chunk ∷ unbroken chunks

  -- The first items of a body.
  abbrev pub take_chunks : ℕ → List Bytes → List Bytes
  take_chunks zero chunks = []
  take_chunks (suc n) [] = []
  take_chunks (suc n) (chunk ∷ chunks) = chunk ∷ take_chunks n chunks

  observed_stream-end :
      (s : GatewayState x.decimal) (m : UsageMetadata) (polls : ℕ) (chunks : List Bytes)
      (observer : UsageObserver) (w : World x)
      → length chunks < polls
      → observed_stream x o s m polls (unbroken chunks) observer w ≡ (
        unbroken chunks,
        record_usage x o s m stream_summary (finish x.json (feed_all x.json chunks observer)) w,
      )
  unfolding observed_stream
  observed_stream-end s m zero chunks observer w h = absurd (omega arith)
  observed_stream-end s m (suc polls) [] observer w h = refl
  observed_stream-end s m (suc polls) (chunk ∷ chunks) observer w h =
      rw (observed_stream-end s m polls chunks (feed x.json chunk observer) w (omega arith)) refl

  observed_stream-dropped :
      (s : GatewayState x.decimal) (m : UsageMetadata) (polls : ℕ) (chunks : List Bytes)
      (observer : UsageObserver) (w : World x)
      → polls ≤ length chunks
      → observed_stream x o s m polls (unbroken chunks) observer w
        ≡ (unbroken (take_chunks polls chunks), w)
  unfolding observed_stream
  observed_stream-dropped s m zero chunks observer w h = refl
  observed_stream-dropped s m (suc polls) [] observer w h = absurd (omega arith)
  observed_stream-dropped s m (suc polls) (chunk ∷ chunks) observer w h =
      rw (observed_stream-dropped s m polls chunks (feed x.json chunk observer) w (omega arith))
        refl

  take_chunks-all :
      (n : ℕ) (chunks : List Bytes) → length chunks < n → take_chunks n chunks ≡ chunks
  take_chunks-all zero chunks h = absurd (omega arith)
  take_chunks-all (suc n) [] h = refl
  take_chunks-all (suc n) (chunk ∷ chunks) h =
      ap (λ rest. chunk ∷ rest) (take_chunks-all n chunks (omega arith))

  -- A client that asks for some number of items of an unbroken stream gets the upstream's chunks as
  -- they came, up to that number. If it asks on after the last chunk, one usage is recorded, the
  -- merge of what all the lines of the stream report, however the bytes were cut; if it leaves
  -- before, nothing is recorded or charged.
  pub usage_observed_stream-exact :
      (s : GatewayState x.decimal) (m : UsageMetadata) (polls : ℕ) (chunks : List Bytes)
      (w : World x)
      → usage_observed_stream x o s m polls (unbroken chunks) w ≡ (
        unbroken (take_chunks polls chunks),
        if ltb (length chunks) polls
            then record_usage x o s m stream_summary
                (summary x.json (usages x.json m.protocol (lines_of x.json (flatten chunks))))
                w
            else w,
      )
  unfolding usage_observed_stream
  usage_observed_stream-exact s m polls chunks w = elim (Bool-cases (ltb (length chunks) polls)) [
    | inl all ↦
        rw (all, take_chunks-all polls chunks (ground arith))
          (observed_stream-end s m polls chunks (new_observer m.protocol) w (ground arith)
            ∙ ap (λ u. (unbroken chunks, record_usage x o s m stream_summary u w))
                (finish-feed_all x.json m.protocol chunks))
    | inr part ↦
        rw part
          (observed_stream-dropped s m polls chunks (new_observer m.protocol) w (ground arith))
  ]
