-- ===== src/Recorder/Tests.antt =====
-- Runs and instances for src/usage/recorder.rs: a record, the shutdown, and a record too late.
use lite_agentify.Prelude.{◌≡◌, refl, none, any, ◌==◌, nat_eq, List, [], ◌∷◌, ◌++◌, flatten}
use lite_agentify.Recorder.{
  Writer, new_writer, try_send, on_shutdown, on_drained, on_empty, on_exit, recorded, shut_down,
  drained, drain_ended, exited, Reached, start, next, stopped, running, touched_keys, Later, now,
  then_,
}
use lite_agentify.Proxy.Record.{UsageRecord}
use lite_agentify.Recorder.Lossless.{IsSound, Reached-IsSound}
use lite_agentify.Recorder.Shutdown.{stopped_writer-flushed, shutdown-stops}
use lite_agentify.Recorder.Touch.{time_of, keys_of, latest_time, names_key, touched_keys-exact}
use lite_agentify.Samples.{sample_crates}
use lite_agentify.Samples.Gateway.{noted}

-- A record before the shutdown, one during the draining, and one behind it.
abbrev served : Writer sample_crates
served = try_send sample_crates noted (new_writer sample_crates)

abbrev signalled : Writer sample_crates
signalled = try_send sample_crates noted (on_shutdown sample_crates served)

abbrev emptied : Writer sample_crates
emptied = on_drained sample_crates noted [] (on_drained sample_crates noted (noted ∷ []) signalled)

abbrev late : Writer sample_crates
late = try_send sample_crates noted (on_empty sample_crates emptied)

abbrev ended : Writer sample_crates
ended = on_exit sample_crates late

served-Reached : Reached sample_crates served
served-Reached = next start (recorded _ noted)

served_phase : served.phase ≡ running
unfolding try_send new_writer
served_phase = refl

served-Later : Later sample_crates served ended
unfolding try_send new_writer on_shutdown on_drained on_empty
served-Later =
    then_
      (then_
        (then_
          (then_
            (then_ (then_ (then_ (now served) (shut_down served refl)) (recorded _ noted))
              (drained signalled noted (noted ∷ []) refl refl))
            (drained _ noted [] refl refl))
          (drain_ended emptied refl refl))
        (recorded _ noted))
      (exited late refl)

ended-Reached : Reached sample_crates ended
unfolding try_send new_writer on_shutdown on_drained on_empty
ended-Reached =
    next
      (next
        (next
          (next
            (next (next (next served-Reached (shut_down served refl)) (recorded _ noted))
              (drained signalled noted (noted ∷ []) refl refl))
            (drained _ noted [] refl refl))
          (drain_ended emptied refl refl))
        (recorded _ noted))
      (exited late refl)

Reached-IsSound_example : IsSound sample_crates ended
Reached-IsSound_example = Reached-IsSound sample_crates ended ended-Reached

ended_phase : ended.phase ≡ stopped
unfolding on_exit
ended_phase = refl

-- The record that came after the drain is in the channel and in no batch.
left_behind : ended.queue ≡ noted ∷ []
unfolding on_exit try_send on_shutdown on_drained on_empty
left_behind = refl

stopped_writer-flushed_example :
    ((later : List (UsageRecord sample_crates)) × (flatten ended.flushed
        ≡ served.accepted ++ later))
    × (ended.buffer ≡ [])
    × (flatten ended.flushed ++ ended.queue ≡ ended.accepted)
stopped_writer-flushed_example =
    stopped_writer-flushed sample_crates served ended served-Reached served_phase served-Later
      ended_phase

shutdown-stops_example :
    (w' : Writer sample_crates) × Later sample_crates (on_shutdown sample_crates served) w'
    × (w'.phase ≡ stopped)
    × (flatten w'.flushed ≡ served.accepted)
shutdown-stops_example = shutdown-stops sample_crates served served-Reached served_phase

touched_keys-exact_example :
    (time_of sample_crates (touched_keys sample_crates (noted ∷ []))
      ≡ latest_time sample_crates (noted ∷ []) none)
    × (any (λ id. id == 7) (keys_of sample_crates (touched_keys sample_crates (noted ∷ [])))
        ≡ names_key sample_crates 7 (noted ∷ []))
touched_keys-exact_example = touched_keys-exact sample_crates (noted ∷ []) 7
