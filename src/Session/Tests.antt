-- ===== src/Session/Tests.antt =====
-- Runs and instances for src/admin/session.rs.
use lite_agentify.Prelude.{
  ◌≡◌, refl, some, none, [], String, ◌∷◌, true, false, not, nat_beq, if◌then◌else◌, ltb, ◌+◌, ◌==◌,
  string_eq, length, ◌≤◌,
}
use lite_agentify.Prelude.Map.{keep}
use lite_agentify.Account.{user}
use lite_agentify.Session.{
  SessionIdentity, Sessions, open_session, get_session, remove_user, LoginLimiter, new_limiter,
  is_locked, is_full, lockout_max_entries, clear_failures,
}
use lite_agentify.Session.Open
use lite_agentify.Session.Limiter

abbrev ann : SessionIdentity
ann = record { user_id = 1; username = "ann"; role = user }

abbrev bob : SessionIdentity
bob = record { user_id = 2; username = "bob"; role = user }

abbrev two_sessions : Sessions
two_sessions = open_session 0 "t1" ann 10 (open_session 0 "t2" bob 10 [])

bob_reads : (get_session 9 "t2" two_sessions).0 ≡ some bob
unfolding open_session get_session lite_agentify.Prelude.Map.get lite_agentify.Prelude.Map.insert
bob_reads = refl

bob_expired : (get_session 10 "t2" two_sessions).0 ≡ none
unfolding open_session get_session lite_agentify.Prelude.Map.get lite_agentify.Prelude.Map.insert
bob_expired = refl

open_session-get_example : (get_session 14 "t2" (open_session 5 "t2" ann 10 two_sessions)).0 ≡ (
    if ◌==◌ {T = String} "t2" "t2"
    then if ltb 14 (5 + 10) then some ann else none
    else (get_session 14 "t2" two_sessions).0)
open_session-get_example = Open.open_session-get two_sessions 5 14 "t2" "t2" ann 10

remove_user-signs_out_example :
    (get_session 3 "t1" (
      remove_user 1
        (Open.run_calls (Open.opened 0 "t1" ann 10 ∷ Open.opened 1 "t2" bob 10 ∷ []) []))).0
    ≡ keep
        (λ identity. not (nat_beq identity.user_id 1))
        (get_session 3 "t1"
          (Open.run_calls (Open.opened 0 "t1" ann 10 ∷ Open.opened 1 "t2" bob 10 ∷ []) [])).0
remove_user-signs_out_example =
    Open.remove_user-signs_out (Open.opened 0 "t1" ann 10 ∷ Open.opened 1 "t2" bob 10 ∷ []) 3 "t1" 1

abbrev limiter : LoginLimiter
limiter = new_limiter 15

five_failures-lock_example :
    ((is_locked 20 "ann" (Limiter.fail_all (1 ∷ 2 ∷ 3 ∷ 4 ∷ []) "ann" limiter)).0 ≡ false)
    × ((is_locked 20 "ann" (Limiter.fail_all (1 ∷ 2 ∷ 3 ∷ 4 ∷ 5 ∷ []) "ann" limiter)).0
        ≡ ltb 20 (5 + limiter.lockout))
unfolding new_limiter lite_agentify.Prelude.Map.get
five_failures-lock_example = Limiter.five_failures-lock limiter "ann" 1 2 3 4 5 20 refl refl

still_locked :
    (is_locked 19 "ann" (Limiter.fail_all (1 ∷ 2 ∷ 3 ∷ 4 ∷ 5 ∷ []) "ann" limiter)).0 ≡ true
unfolding is_locked new_limiter lite_agentify.Prelude.Map.get lite_agentify.Session.register_failure
    lite_agentify.Prelude.Map.insert
still_locked = refl

run_calls-bound_example :
    length
      (Limiter.run_calls
        (Limiter.failed 1 "ann"
          ∷ Limiter.failed 1 "bob"
          ∷ Limiter.asked 2 "ann"
          ∷ Limiter.cleared "bob"
          ∷ [])
        (new_limiter 15)).entries
    ≤ lockout_max_entries
run_calls-bound_example =
    Limiter.run_calls-bound
      (Limiter.failed 1 "ann"
        ∷ Limiter.failed 1 "bob"
        ∷ Limiter.asked 2 "ann"
        ∷ Limiter.cleared "bob"
        ∷ [])
      15
