-- ===== src/Recorder/Lossless.antt =====
-- The writer loses, repeats and reorders nothing, `run_writer` in src/usage/recorder.rs.
use mathlib.Core.List.{append-nil, append_assoc}
use lite_agentify.Prelude.{
  ℕ, suc, ◌+◌, ◌≤◌, ◌<◌, ◌≡◌, refl, sym, ap, ◌∙◌, subst, List, [], ◌∷◌, ◌++◌, length, length-append,
  flatten, is_empty, leb, ltb, All, All-append, arith, Bool-cases, inl, inr,
}
use lite_agentify.Proxy.Record.{Crates, UsageRecord}
use lite_agentify.Recorder.{
  Phase, running, draining, stopping, stopped, channel_capacity, batch_size, Writer, new_writer,
  enqueue, drop_record, is_open, try_send, flush_buffer, on_record, on_tick, on_shutdown,
  on_drained, on_empty, on_exit, on_closed, Step, recorded, received, ticked, closed, shut_down,
  drained, drain_ended, exited, Reached, start, next,
}

pub flatten-snoc {ℓ} :
    {A : Type ℓ} (xss : List (List A)) (xs : List A) → flatten (xss ++ xs ∷ []) ≡ flatten xss ++ xs
flatten-snoc [] xs = append-nil xs
flatten-snoc (ys ∷ xss) xs =
    ap (λ zs. ys ++ zs) (flatten-snoc xss xs) ∙ sym (append_assoc ys (flatten xss) xs)

-- All but the last.
abbrev pub front {ℓ} : {A : Type ℓ} → List A → List A
front [] = []
front (y ∷ []) = []
front (y ∷ z ∷ ys) = y ∷ front (z ∷ ys)

front-snoc {ℓ} : {A : Type ℓ} (ys : List A) (y : A) → front (ys ++ y ∷ []) ≡ ys
front-snoc [] y = refl
front-snoc (z ∷ []) y = refl
front-snoc (z ∷ w ∷ ys) y = ap (λ zs. z ∷ zs) (front-snoc (w ∷ ys) y)

-- How many records the buffer may hold in a phase: the draining has no bound, since requests may
-- record while it runs.
abbrev pub FitsBuffer : Phase → ℕ → Type 0
FitsBuffer running n = n ≤ 127
FitsBuffer draining n = Unit
FitsBuffer stopping n = Unit
FitsBuffer stopped n = n ≤ 0

-- The batches that the loop has flushed: all but the last flush of a stopped writer.
abbrev pub loop_batches {ℓ} : {A : Type ℓ} → Phase → List A → List A
loop_batches running batches = batches
loop_batches draining batches = batches
loop_batches stopping batches = batches
loop_batches stopped batches = front batches

module _ (x : Crates) where
  -- What was written, is buffered or waits in the channel is what was accepted, in its order; the
  -- channel, the buffer and the batches keep to their bounds.
  pub record IsSound (w : Writer x) : Type 0 where
    pub order : flatten w.flushed ++ (w.buffer ++ w.queue) ≡ w.accepted
    pub queue_small : length w.queue ≤ channel_capacity
    pub buffer_small : FitsBuffer w.phase (length w.buffer)
    pub batches_small : All (λ batch. length batch ≤ batch_size) (loop_batches w.phase w.flushed)

  enqueue-IsSound :
      (r : UsageRecord x) (w : Writer x)
      → length w.queue < channel_capacity
      → IsSound w
      → IsSound (enqueue x r w)
  enqueue-IsSound r w room h = record {
    order =
        ap (λ zs. flatten w.flushed ++ zs) (sym (append_assoc w.buffer w.queue (r ∷ [])))
        ∙ sym (append_assoc (flatten w.flushed) (w.buffer ++ w.queue) (r ∷ []))
        ∙ ap (λ zs. zs ++ r ∷ []) h.order;
    queue_small = ground (arith, length-append w.queue (r ∷ []));
    buffer_small = h.buffer_small;
    batches_small = h.batches_small;
  }

  drop_record-IsSound : (r : UsageRecord x) (w : Writer x) → IsSound w → IsSound (drop_record x r w)
  drop_record-IsSound r w h = record {
    order = h.order;
    queue_small = h.queue_small;
    buffer_small = h.buffer_small;
    batches_small = h.batches_small;
  }

  try_send-IsSound : (r : UsageRecord x) (w : Writer x) → IsSound w → IsSound (try_send x r w)
  unfolding try_send
  try_send-IsSound r w h = elim (Bool-cases (is_open x w.phase)) [
    | inl open_ ↦ elim (Bool-cases (ltb (length w.queue) channel_capacity)) [
      | inl room ↦ rw (try_send, open_, room) (enqueue-IsSound r w (ground arith) h)
      | inr full ↦ rw (try_send, open_, full) (drop_record-IsSound r w h)
    ]
    | inr shut ↦ rw (try_send, shut) (drop_record-IsSound r w h)
  ]

  -- A sound state of the running loop, from its bounds.
  running-IsSound :
      (w : Writer x)
      → w.phase ≡ running
      → flatten w.flushed ++ (w.buffer ++ w.queue) ≡ w.accepted
      → length w.queue ≤ channel_capacity
      → length w.buffer ≤ 127
      → All (λ batch. length batch ≤ batch_size) w.flushed
      → IsSound w
  running-IsSound w runs order queue buffer batches = record {
    order = order;
    queue_small = queue;
    buffer_small = subst (λ p. FitsBuffer p (length w.buffer)) (sym runs) buffer;
    batches_small =
        subst (λ p. All (λ batch. length batch ≤ batch_size) (loop_batches p w.flushed)) (sym runs)
          batches;
  }

  running-bounds :
      (w : Writer x)
      → w.phase ≡ running
      → IsSound w
      → (length w.buffer ≤ 127) × All (λ batch. length batch ≤ batch_size) w.flushed
  running-bounds w runs h = (
    subst (λ p. FitsBuffer p (length w.buffer)) runs h.buffer_small,
    subst (λ p. All (λ batch. length batch ≤ batch_size) (loop_batches p w.flushed)) runs
        h.batches_small,
  )

  flush_buffer-order :
      (w : Writer x)
      → flatten w.flushed ++ (w.buffer ++ w.queue) ≡ w.accepted
      → flatten (w.flushed ++ w.buffer ∷ []) ++ w.queue ≡ w.accepted
  flush_buffer-order w order =
      ap (λ zs. zs ++ w.queue) (flatten-snoc w.flushed w.buffer)
      ∙ append_assoc (flatten w.flushed) w.buffer w.queue
      ∙ order

  -- A flush of the running loop.
  flush_buffer-IsSound :
      (w : Writer x)
      → w.phase ≡ running
      → length w.buffer ≤ batch_size
      → flatten w.flushed ++ (w.buffer ++ w.queue) ≡ w.accepted
      → length w.queue ≤ channel_capacity
      → All (λ batch. length batch ≤ batch_size) w.flushed
      → IsSound (flush_buffer x w)
  flush_buffer-IsSound w runs fits order queue batches =
      running-IsSound (flush_buffer x w) runs (flush_buffer-order w order) queue (omega arith) (
        All-append (λ batch. length batch ≤ batch_size) w.flushed (w.buffer ∷ []) batches
          (fits, tt))

  -- The head of the channel goes into the buffer.
  received-order :
      (w : Writer x) (r : UsageRecord x) (queue : List (UsageRecord x))
      → w.queue ≡ r ∷ queue
      → IsSound w
      → (flatten w.flushed ++ ((w.buffer ++ r ∷ []) ++ queue) ≡ w.accepted)
        × (length queue ≤ channel_capacity)
  received-order w r queue head h =
      let shorter : length w.queue ≡ suc (length queue) = ap length head in
      (
        ap (λ zs. flatten w.flushed ++ zs) (append_assoc w.buffer (r ∷ []) queue)
            ∙ ap (λ zs. flatten w.flushed ++ (w.buffer ++ zs)) (sym head)
            ∙ h.order,
        omega (arith, h.queue_small, shorter),
      )

  on_record-IsSound :
      (w : Writer x) (r : UsageRecord x) (queue : List (UsageRecord x))
      → w.phase ≡ running
      → w.queue ≡ r ∷ queue
      → IsSound w
      → IsSound (on_record x r queue w)
  unfolding on_record
  on_record-IsSound w r queue runs head h =
      let w1 : Writer x = record w { queue = queue; buffer = w.buffer ++ r ∷ [] } in
      let longer : length w1.buffer ≡ length w.buffer + 1 = length-append w.buffer (r ∷ []) in
      let (small, batches) = running-bounds w runs h in
      let (order, room) = received-order w r queue head h in
      elim (Bool-cases (leb batch_size (length w1.buffer))) [
        | inl full ↦
            rw (on_record, full) (flush_buffer-IsSound w1 runs (ground arith) order room batches)
        | inr part ↦
            rw (on_record, part) (running-IsSound w1 runs order room (ground arith) batches)
      ]

  on_tick-IsSound : (w : Writer x) → w.phase ≡ running → IsSound w → IsSound (on_tick x w)
  unfolding on_tick
  on_tick-IsSound w runs h =
      let (small, batches) = running-bounds w runs h in
      elim (Bool-cases (is_empty w.buffer)) [
        | inl nothing ↦ rw (on_tick, nothing) h
        | inr some_ ↦
            rw (on_tick, some_)
              (flush_buffer-IsSound w runs (omega arith) h.order h.queue_small batches)
      ]

  on_shutdown-IsSound : (w : Writer x) → w.phase ≡ running → IsSound w → IsSound (on_shutdown x w)
  unfolding on_shutdown
  on_shutdown-IsSound w runs h = record {
    order = h.order;
    queue_small = h.queue_small;
    buffer_small = tt;
    batches_small = (running-bounds w runs h).1;
  }

  on_closed-IsSound : (w : Writer x) → w.phase ≡ running → IsSound w → IsSound (on_closed x w)
  unfolding on_closed
  on_closed-IsSound w runs h = record {
    order = h.order;
    queue_small = h.queue_small;
    buffer_small = tt;
    batches_small = (running-bounds w runs h).1;
  }

  -- The batches of the loop in a phase behind `running` and before the last flush.
  flushed_batches :
      (w : Writer x) (p : Phase)
      → w.phase ≡ p
      → IsSound w
      → All (λ batch. length batch ≤ batch_size) (loop_batches p w.flushed)
  flushed_batches w p e h =
      subst (λ q. All (λ batch. length batch ≤ batch_size) (loop_batches q w.flushed)) e
        h.batches_small

  on_drained-IsSound :
      (w : Writer x) (r : UsageRecord x) (queue : List (UsageRecord x))
      → w.phase ≡ draining
      → w.queue ≡ r ∷ queue
      → IsSound w
      → IsSound (on_drained x r queue w)
  unfolding on_drained
  on_drained-IsSound w r queue drains head h =
      let (order, room) = received-order w r queue head h in
      record {
        order = order;
        queue_small = room;
        buffer_small = subst (λ p. FitsBuffer p (length (w.buffer ++ r ∷ []))) (sym drains) tt;
        batches_small = h.batches_small;
      }

  on_empty-IsSound : (w : Writer x) → w.phase ≡ draining → IsSound w → IsSound (on_empty x w)
  unfolding on_empty
  on_empty-IsSound w drains h = record {
    order = h.order;
    queue_small = h.queue_small;
    buffer_small = tt;
    batches_small = flushed_batches w draining drains h;
  }

  on_exit-IsSound : (w : Writer x) → w.phase ≡ stopping → IsSound w → IsSound (on_exit x w)
  unfolding on_exit
  on_exit-IsSound w stops h = record {
    order = flush_buffer-order w h.order;
    queue_small = h.queue_small;
    buffer_small = omega arith;
    batches_small =
        subst (All (λ batch. length batch ≤ batch_size)) (sym (front-snoc w.flushed w.buffer))
          (flushed_batches w stopping stops h);
  }

  Step-IsSound : (w w' : Writer x) → Step x w w' → IsSound w → IsSound w'
  Step-IsSound _ _ (recorded w r) h = try_send-IsSound r w h
  Step-IsSound _ _ (received w r queue runs head) h = on_record-IsSound w r queue runs head h
  Step-IsSound _ _ (ticked w runs) h = on_tick-IsSound w runs h
  Step-IsSound _ _ (closed w runs empty) h = on_closed-IsSound w runs h
  Step-IsSound _ _ (shut_down w runs) h = on_shutdown-IsSound w runs h
  Step-IsSound _ _ (drained w r queue drains head) h = on_drained-IsSound w r queue drains head h
  Step-IsSound _ _ (drain_ended w drains empty) h = on_empty-IsSound w drains h
  Step-IsSound _ _ (exited w stops) h = on_exit-IsSound w stops h

  -- However requests, ticks, the shutdown and the rounds of its draining interleave, every record
  -- that the channel accepted is, once and in the order of acceptance, in a flushed batch, in the
  -- buffer or still in the channel; the channel holds at most 1024 records, the buffer of the running
  -- loop at most 127, that of a stopped writer none, and each batch at most 128, but for the last
  -- flush of a stopped writer, which has no bound.
  pub Reached-IsSound : (w : Writer x) → Reached x w → IsSound w
  unfolding new_writer
  Reached-IsSound _ start = record {
    order = refl;
    queue_small = omega arith;
    buffer_small = omega arith;
    batches_small = tt;
  }
  Reached-IsSound _ (next {w} {w'} before step) = Step-IsSound w w' step (Reached-IsSound w before)
