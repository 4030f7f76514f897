-- ===== src/Recorder/Shutdown.antt =====
-- What the shutdown flushes, `run_writer` in src/usage/recorder.rs.
use mathlib.Core.List.{append-nil, append_assoc}
use lite_agentify.Prelude.{
  ◌≤◌, ◌≡◌, refl, sym, ap, ◌∙◌, subst, List, [], ◌∷◌, ◌++◌, length, flatten, is_empty, leb, ltb,
  Bool-cases, inl, inr, arith,
}
use lite_agentify.Proxy.Record.{Crates, UsageRecord}
use lite_agentify.Recorder.{
  Phase, running, draining, stopping, stopped, Writer, try_send, is_open, channel_capacity,
  batch_size, flush_buffer, on_record, on_tick, on_shutdown, on_drained, on_empty, on_exit,
  on_closed, Step, recorded, received, ticked, closed, shut_down, drained, drain_ended, exited,
  Reached, next, Later, now, then_,
}
use lite_agentify.Recorder.Lossless.{IsSound, FitsBuffer, flatten-snoc, Reached-IsSound}

-- The part of the channel that the writer will still take.
abbrev due {ℓ} : {A : Type ℓ} → Phase → List A → List A
due running queue = queue
due draining queue = queue
due stopping queue = []
due stopped queue = []

due-snoc {ℓ} :
    {A : Type ℓ} (p : Phase) (queue : List A) (r : A)
    → (extra : List A) × (due p (queue ++ r ∷ []) ≡ due p queue ++ extra)
due-snoc running queue r = (r ∷ [], refl)
due-snoc draining queue r = (r ∷ [], refl)
due-snoc stopping queue r = ([], refl)
due-snoc stopped queue r = ([], refl)

no_elements {ℓ} : {A : Type ℓ} (xs : List A) → length xs ≤ 0 → xs ≡ []
no_elements [] h = refl
no_elements (y ∷ ys) h = absurd (omega arith)

module _ (x : Crates) where
  -- What the batches hold in the end, if nothing more is recorded.
  abbrev handed : Writer x → List (UsageRecord x)
  handed w = flatten w.flushed ++ (w.buffer ++ due w.phase w.queue)

  abbrev Grows : Writer x → Writer x → Type 0
  Grows w w' = (extra : List (UsageRecord x)) × (handed w' ≡ handed w ++ extra)

  same-Grows : (w w' : Writer x) → handed w' ≡ handed w → Grows w w'
  same-Grows w w' e = ([], e ∙ sym (append-nil (handed w)))

  trans-Grows : (w w' w'' : Writer x) → Grows w w' → Grows w' w'' → Grows w w''
  trans-Grows w w' w'' (e, p) (f, q) =
      (e ++ f, q ∙ ap (λ zs. zs ++ f) p ∙ append_assoc (handed w) e f)

  try_send-Grows : (r : UsageRecord x) (w : Writer x) → Grows w (try_send x r w)
  unfolding try_send
  try_send-Grows r w = elim (Bool-cases (is_open x w.phase)) [
    | inl open_ ↦ elim (Bool-cases (ltb (length w.queue) channel_capacity)) [
      | inl room ↦
          let (extra, grown) = due-snoc w.phase w.queue r in
          rw (try_send, open_, room)
            (
              extra,
              ap (λ zs. flatten w.flushed ++ (w.buffer ++ zs)) grown
                  ∙ ap (λ zs. flatten w.flushed ++ zs)
                      (sym (append_assoc w.buffer (due w.phase w.queue) extra))
                  ∙ sym (append_assoc (flatten w.flushed) (w.buffer ++ due w.phase w.queue) extra),
            )
      | inr full ↦ rw (try_send, open_, full) (same-Grows w w refl)
    ]
    | inr shut ↦ rw (try_send, shut) (same-Grows w w refl)
  ]

  flush_buffer-handed : (w : Writer x) → handed (flush_buffer x w) ≡ handed w
  flush_buffer-handed w =
      ap (λ zs. zs ++ due w.phase w.queue) (flatten-snoc w.flushed w.buffer)
      ∙ append_assoc (flatten w.flushed) w.buffer (due w.phase w.queue)

  -- The channel's head moved to the buffer by a phase that still takes the channel.
  taken-handed :
      (w : Writer x) (p : Phase) (r : UsageRecord x) (queue : List (UsageRecord x))
      → w.phase ≡ p
      → due p (r ∷ queue) ≡ r ∷ due p queue
      → w.queue ≡ r ∷ queue
      → handed (record w { queue = queue; buffer = w.buffer ++ r ∷ [] }) ≡ handed w
  taken-handed w p r queue e takes head =
      ap (λ zs. flatten w.flushed ++ zs)
        (append_assoc w.buffer (r ∷ []) (due w.phase queue)
          ∙ ap (λ zs. w.buffer ++ zs)
              (subst (λ q. r ∷ due q queue ≡ due q (r ∷ queue)) (sym e) (sym takes)
                ∙ ap (due w.phase) (sym head)))

  -- Leaving a phase that takes the channel, at an empty channel.
  left-handed : (w : Writer x) → w.queue ≡ [] → handed (record w { phase = stopping }) ≡ handed w
  left-handed w empty =
      ap (λ zs. flatten w.flushed ++ (w.buffer ++ zs))
        (sym (ap (due w.phase) empty ∙ due-nil w.phase))
    where
      due-nil : (p : Phase) → due {A = UsageRecord x} p [] ≡ []
      due-nil running = refl
      due-nil draining = refl
      due-nil stopping = refl
      due-nil stopped = refl

  on_record-Grows :
      (w : Writer x) (r : UsageRecord x) (queue : List (UsageRecord x))
      → w.phase ≡ running
      → w.queue ≡ r ∷ queue
      → Grows w (on_record x r queue w)
  unfolding on_record
  on_record-Grows w r queue runs head =
      let w1 : Writer x = record w { queue = queue; buffer = w.buffer ++ r ∷ [] } in
      let taken = taken-handed w running r queue runs refl head in
      elim (Bool-cases (leb batch_size (length w1.buffer))) [
        | inl full ↦
            rw (on_record, full) (same-Grows w (flush_buffer x w1) (flush_buffer-handed w1 ∙ taken))
        | inr part ↦ rw (on_record, part) (same-Grows w w1 taken)
      ]

  on_tick-Grows : (w : Writer x) → Grows w (on_tick x w)
  unfolding on_tick
  on_tick-Grows w = elim (Bool-cases (is_empty w.buffer)) [
    | inl nothing ↦ rw (on_tick, nothing) (same-Grows w w refl)
    | inr some_ ↦ rw (on_tick, some_) (same-Grows w (flush_buffer x w) (flush_buffer-handed w))
  ]

  -- The start of the draining, which takes the channel as the loop did.
  on_shutdown-Grows : (w : Writer x) → w.phase ≡ running → Grows w (on_shutdown x w)
  unfolding on_shutdown
  on_shutdown-Grows w runs =
      same-Grows w (on_shutdown x w)
        (ap (λ p. flatten w.flushed ++ (w.buffer ++ due p w.queue)) (sym runs))

  -- The last flush takes nothing more from the channel, as the phase before it.
  on_exit-Grows : (w : Writer x) → w.phase ≡ stopping → Grows w (on_exit x w)
  unfolding on_exit
  on_exit-Grows w stops = same-Grows w (on_exit x w) (
      append-nil (flatten (w.flushed ++ w.buffer ∷ []))
      ∙ flatten-snoc w.flushed w.buffer
      ∙ ap (λ zs. flatten w.flushed ++ zs) (sym (append-nil w.buffer))
      ∙ ap (λ p. flatten w.flushed ++ (w.buffer ++ due p w.queue)) (sym stops))

  Step-Grows : (w w' : Writer x) → Step x w w' → Grows w w'
  unfolding on_drained on_empty on_closed
  Step-Grows _ _ (recorded w r) = try_send-Grows r w
  Step-Grows _ _ (received w r queue runs head) = on_record-Grows w r queue runs head
  Step-Grows _ _ (ticked w runs) = on_tick-Grows w
  Step-Grows _ _ (closed w runs empty) = same-Grows w (on_closed x w) (left-handed w empty)
  Step-Grows _ _ (shut_down w runs) = on_shutdown-Grows w runs
  Step-Grows _ _ (drained w r queue drains head) =
      same-Grows w (on_drained x r queue w) (taken-handed w draining r queue drains refl head)
  Step-Grows _ _ (drain_ended w drains empty) = same-Grows w (on_empty x w) (left-handed w empty)
  Step-Grows _ _ (exited w stops) = on_exit-Grows w stops

  Later-Grows : (w w' : Writer x) → Later x w w' → Grows w w'
  Later-Grows _ _ (now w) = same-Grows w w refl
  Later-Grows _ _ (then_ {w} {w'} {w''} before step) =
      trans-Grows w w' w'' (Later-Grows w w' before) (Step-Grows w' w'' step)

  Later-Reached : (w w' : Writer x) → Reached x w → Later x w w' → Reached x w'
  Later-Reached _ _ reached (now w) = reached
  Later-Reached _ _ reached (then_ {w} {w'} before step) =
      next (Later-Reached w w' reached before) step

  running-handed : (w : Writer x) → w.phase ≡ running → IsSound x w → handed w ≡ w.accepted
  running-handed w runs sound =
      ap (λ p. flatten w.flushed ++ (w.buffer ++ due p w.queue)) runs ∙ sound.order

  stopped-handed :
      (w : Writer x)
      → w.phase ≡ stopped
      → IsSound x w
      → (w.buffer ≡ []) × (handed w ≡ flatten w.flushed)
  stopped-handed w done sound =
      let empty =
        no_elements w.buffer
          (subst (λ p. FitsBuffer p (length w.buffer)) done sound.buffer_small) in
      (
        empty,
        ap (λ b. flatten w.flushed ++ (b ++ due w.phase w.queue)) empty
            ∙ ap (λ p. flatten w.flushed ++ due p w.queue) done
            ∙ append-nil (flatten w.flushed),
      )

  -- Nothing that was accepted before the shutdown is lost: whatever happens between a state of the
  -- running loop and a stopped writer, the batches of the stopped writer hold, first and in their
  -- order, all the records that the channel had accepted in that state; its buffer is empty, and
  -- its batches followed by what is left in the channel are all that was accepted.
  pub stopped_writer-flushed :
      (w w' : Writer x)
      → Reached x w
      → w.phase ≡ running
      → Later x w w'
      → w'.phase ≡ stopped
      → ((later : List (UsageRecord x)) × (flatten w'.flushed ≡ w.accepted ++ later))
        × (w'.buffer ≡ [])
        × (flatten w'.flushed ++ w'.queue ≡ w'.accepted)
  stopped_writer-flushed w w' reached runs path done =
      let sound = Reached-IsSound x w reached in
      let sound' = Reached-IsSound x w' (Later-Reached w w' reached path) in
      let (empty, whole) = stopped-handed w' done sound' in
      let (later, grown) = Later-Grows w w' path in
      (
        (later, sym whole ∙ grown ∙ ap (λ zs. zs ++ later) (running-handed w runs sound)),
        empty,
        ap (λ b. flatten w'.flushed ++ (b ++ w'.queue)) (sym empty) ∙ sound'.order,
      )

  join-Later : (w w' w'' : Writer x) → Step x w w' → Later x w' w'' → Later x w w''
  join-Later w _ _ step (now w') = then_ (now w) step
  join-Later u _ _ step (then_ {w} {w'} {w''} path last) = then_ (join-Later u w w' step path) last

  -- The draining, the last flush and the end, with nothing recorded meanwhile.
  drains :
      (queue : List (UsageRecord x)) (w : Writer x)
      → w.phase ≡ draining
      → w.queue ≡ queue
      → (w' : Writer x) × Later x w w'
        × (w'.phase ≡ stopped)
        × (w'.accepted ≡ w.accepted)
        × (w'.queue ≡ [])
  unfolding on_drained on_empty on_exit
  drains [] w phase queue = (
    on_exit x (on_empty x w),
    then_ (then_ (now w) (drain_ended w phase queue)) (exited (on_empty x w) refl),
    refl,
    refl,
    queue,
  )
  drains (r ∷ rest) w phase queue =
      let (w', path, done, same, empty) = drains rest (on_drained x r rest w) phase refl in
      (
        w',
        join-Later w (on_drained x r rest w) w' (drained w r rest phase queue) path,
        done,
        same,
        empty,
      )

  -- The shutdown can always come to an end: from every state of the running loop that can be
  -- reached, the signal is followed by steps that lead to a stopped writer whose batches are exactly
  -- the records that the channel had accepted before the signal, in their order.
  pub shutdown-stops :
      (w : Writer x)
      → Reached x w
      → w.phase ≡ running
      → (w' : Writer x) × Later x (on_shutdown x w) w'
        × (w'.phase ≡ stopped)
        × (flatten w'.flushed ≡ w.accepted)
  unfolding on_shutdown
  shutdown-stops w reached runs =
      let (w', path, done, same, empty) = drains w.queue (on_shutdown x w) refl refl in
      let whole =
        stopped_writer-flushed w w' reached runs
          (join-Later w (on_shutdown x w) w' (shut_down w runs) path) done in
      (
        w',
        path,
        done,
        sym (append-nil (flatten w'.flushed))
            ∙ ap (λ q. flatten w'.flushed ++ q) (sym empty)
            ∙ whole.2
            ∙ same,
      )
