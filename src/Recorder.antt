-- ===== src/Recorder.antt =====
-- The background writer of usage records (src/usage/recorder.rs): the bounded channel in front of
-- it, its loop, and its batches.
pub mod Lossless
pub mod Shutdown
pub mod Touch
mod Tests
use lite_agentify.Prelude.{
  ℕ, suc, ◌≡◌, Bool, true, false, Option, none, some, List, [], ◌∷◌, ◌++◌, length, is_empty, leb,
  ltb, if◌then◌else◌, nat_eq, map,
}
use lite_agentify.Prelude.Map.{Map, get, insert}
use lite_agentify.Model.{Uuid, DateTime}
use lite_agentify.Proxy.Record.{Crates, UsageRecord}

abbrev pub channel_capacity : ℕ
channel_capacity = 1024

abbrev pub batch_size : ℕ
batch_size = 128

-- `running` is the `select!` loop, `draining` the `try_recv` loop in its shutdown arm, `stopping` the
-- flush behind them, `stopped` a finished task, whose receiver is gone.
pub data Phase : Type 0 where
  running draining stopping stopped : Phase

module _ (x : Crates) where
  -- The channel and the writer task; `accepted` and `dropped` are what `record` has put into the
  -- channel and turned away, `flushed` the batches given to the sink, in their order.
  pub record Writer : Type 0 where
    pub phase : Phase
    pub queue : List (UsageRecord x)
    pub buffer : List (UsageRecord x)
    pub flushed : List (List (UsageRecord x))
    pub accepted : List (UsageRecord x)
    pub dropped : List (UsageRecord x)

  -- `SeaOrmUsageRecorder::new`.
  unfoldable pub new_writer : Writer
  new_writer = record {
    phase = running;
    queue = [];
    buffer = [];
    flushed = [];
    accepted = [];
    dropped = [];
  }

  abbrev pub enqueue : UsageRecord x → Writer → Writer
  enqueue r w = record w { queue = w.queue ++ (r ∷ []); accepted = w.accepted ++ (r ∷ []) }

  abbrev pub drop_record : UsageRecord x → Writer → Writer
  drop_record r w = record w { dropped = w.dropped ++ (r ∷ []) }

  abbrev pub is_open : Phase → Bool
  is_open running = true
  is_open draining = true
  is_open stopping = true
  is_open stopped = false

  -- `record`: `try_send` fails on a full and on a closed channel.
  unfoldable pub try_send : UsageRecord x → Writer → Writer
  try_send r w =
      if is_open w.phase
      then (if ltb (length w.queue) channel_capacity then enqueue r w else drop_record r w)
      else drop_record r w

  -- `sink.flush(std::mem::take(&mut buffer))`.
  abbrev pub flush_buffer : Writer → Writer
  flush_buffer w = record w { flushed = w.flushed ++ (w.buffer ∷ []); buffer = [] }

  -- The arm of `recv` on a record.
  unfoldable pub on_record : UsageRecord x → List (UsageRecord x) → Writer → Writer
  on_record r queue w =
      let w1 = record w { queue = queue; buffer = w.buffer ++ (r ∷ []) } in
      if leb batch_size (length w1.buffer) then flush_buffer w1 else w1

  -- The arm of the ticker.
  unfoldable pub on_tick : Writer → Writer
  on_tick w = if is_empty w.buffer then w else flush_buffer w

  -- The arm of the shutdown signal: the draining starts.
  unfoldable pub on_shutdown : Writer → Writer
  on_shutdown w = record w { phase = draining }

  -- One round of the draining, `buffer.push(record)`; requests may record between two rounds.
  unfoldable pub on_drained : UsageRecord x → List (UsageRecord x) → Writer → Writer
  on_drained r queue w = record w { queue = queue; buffer = w.buffer ++ (r ∷ []) }

  -- `try_recv` finds the channel empty: the draining and the loop end.
  unfoldable pub on_empty : Writer → Writer
  on_empty w = record w { phase = stopping }

  -- The last flush of `run_writer`, of whatever the buffer holds, and the drop of the receiver.
  unfoldable pub on_exit : Writer → Writer
  on_exit w = record (flush_buffer w) { phase = stopped }

  -- The arm of `recv` when all senders are gone and the channel is empty.
  unfoldable pub on_closed : Writer → Writer
  on_closed w = record w { phase = stopping }

  -- What may happen next: a request records, or an arm of the loop runs when it can.
  pub data Step : Writer → Writer → Type 0 where
    recorded : (w : Writer) (r : UsageRecord x) → Step w (try_send r w)
    received :
        (w : Writer) (r : UsageRecord x) (queue : List (UsageRecord x))
        → w.phase ≡ running
        → w.queue ≡ r ∷ queue
        → Step w (on_record r queue w)
    ticked : (w : Writer) → w.phase ≡ running → Step w (on_tick w)
    closed : (w : Writer) → w.phase ≡ running → w.queue ≡ [] → Step w (on_closed w)
    shut_down : (w : Writer) → w.phase ≡ running → Step w (on_shutdown w)
    drained :
        (w : Writer) (r : UsageRecord x) (queue : List (UsageRecord x))
        → w.phase ≡ draining
        → w.queue ≡ r ∷ queue
        → Step w (on_drained r queue w)
    drain_ended : (w : Writer) → w.phase ≡ draining → w.queue ≡ [] → Step w (on_empty w)
    exited : (w : Writer) → w.phase ≡ stopping → Step w (on_exit w)

  -- The states that a new recorder reaches, in any interleaving.
  pub data Reached : Writer → Type 0 where
    start : Reached new_writer
    next : {w w' : Writer} → Reached w → Step w w' → Reached w'

  -- What a state leads to, in any interleaving.
  pub data Later : Writer → Writer → Type 0 where
    now : (w : Writer) → Later w w
    then_ : {w w' w'' : Writer} → Later w w' → Step w' w'' → Later w w''

  abbrev latest : Option DateTime → DateTime → DateTime
  latest none t = t
  latest (some old) t = if ltb old t then t else old

  -- The loop of `DbSink::flush` over the batch.
  unfoldable pub last_used : List (UsageRecord x) → Map Uuid DateTime → Map Uuid DateTime
  last_used [] seen = seen
  last_used (r ∷ batch) seen = elim r.api_key_id [
    | none ↦ last_used batch seen
    | some id ↦ last_used batch (insert id (latest (get id seen) r.created_at) seen)
  ]

  -- `last_used.values().copied().max()`.
  unfoldable pub newest : List (Uuid × DateTime) → Option DateTime
  newest [] = none
  newest ((id, t) ∷ seen) =
      some (elim (newest seen) [ none ↦ t | some u ↦ if ltb t u then u else t ])

  abbrev pub ids : List (Uuid × DateTime) → List Uuid
  ids [] = []
  ids ((id, t) ∷ seen) = id ∷ ids seen

  -- The `UPDATE` behind a batch: the time, and the keys that it is set on.
  unfoldable pub touched_keys : List (UsageRecord x) → Option (DateTime × List Uuid)
  unfolding last_used newest
  touched_keys batch =
      let seen = last_used batch [] in
      elim (newest seen) [ none ↦ none | some t ↦ some (t, ids seen) ]
