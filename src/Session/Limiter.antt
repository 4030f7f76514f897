-- ===== src/Session/Limiter.antt =====
-- The login lockout, `LoginLimiter` in src/admin/session.rs.
use lite_agentify.Prelude.{
  ℕ, ◌+◌, ◌≤◌, String, Bool, false, not, ◌&&◌, ◌≡◌, refl, ap, ◌∙◌, Option, none, some, List, [],
  ◌∷◌, length, ltb, string_eq, arith, unwrap_or, Option-cases, Bool-cases, inl, inr,
}
use lite_agentify.Prelude.Map.{
  get, contains_key, get-insert_self, length-insert, length-remove, length-retain,
}
use lite_agentify.Session.{
  Instant, LimiterEntry, default_entry, LoginLimiter, new_limiter, lock_holds, is_locked, is_kept,
  purge, fail_entry, count_failure, is_full, register_failure, clear_failures, lockout_max_entries,
}

-- A failure is counted where the name is tracked or there is room.
register_failure-counts :
    (now : Instant) (username : String) (l : LoginLimiter)
    → (is_full l && not (contains_key username l.entries)) ≡ false
    → register_failure now username l ≡ count_failure now username l
unfolding register_failure
register_failure-counts now username l h = rw (register_failure, h) refl

-- The failures of one user, in their order.
abbrev pub fail_all : List Instant → String → LoginLimiter → LoginLimiter
fail_all [] username l = l
fail_all (t ∷ ts) username l = fail_all ts username (register_failure t username l)

-- Reference: an entry after the failures.
abbrev pub fail_entries : ℕ → List Instant → LimiterEntry → LimiterEntry
fail_entries lockout [] entry = entry
fail_entries lockout (t ∷ ts) entry = fail_entries lockout ts (fail_entry t lockout entry)

tracked :
    (ts : List Instant) (username : String) (l : LoginLimiter) (entry : LimiterEntry)
    → get username l.entries ≡ some entry
    → get username (fail_all ts username l).entries ≡ some (fail_entries l.lockout ts entry)
tracked [] username l entry h = h
tracked (t ∷ ts) username l entry h =
    let counts = register_failure-counts t username l (ground (arith, h)) in
    let after : LoginLimiter = count_failure t username l in
    let stored : get username after.entries ≡ some (fail_entry t l.lockout entry) =
      get-insert_self username _ l.entries
      ∙ ap (λ o. some (fail_entry t l.lockout (unwrap_or o default_entry))) h in
    ap (λ m. get username (fail_all ts username m).entries) counts
    ∙ tracked ts username after (fail_entry t l.lockout entry) stored

untracked :
    (t : Instant) (ts : List Instant) (username : String) (l : LoginLimiter)
    → is_full l ≡ false
    → get username l.entries ≡ none
    → get username (fail_all (t ∷ ts) username l).entries
      ≡ some (fail_entries l.lockout (t ∷ ts) default_entry)
untracked t ts username l room fresh =
    let counts = register_failure-counts t username l (ground arith) in
    let after : LoginLimiter = count_failure t username l in
    let stored : get username after.entries ≡ some (fail_entry t l.lockout default_entry) =
      get-insert_self username _ l.entries
      ∙ ap (λ o. some (fail_entry t l.lockout (unwrap_or o default_entry))) fresh in
    ap (λ m. get username (fail_all ts username m).entries) counts
    ∙ tracked ts username after (fail_entry t l.lockout default_entry) stored

-- Whether an entry locks its name.
abbrev locks : Instant → Option LimiterEntry → Bool
locks now none = false
locks now (some entry) = lock_holds now entry.locked_until

is_locked-locks :
    (now : Instant) (username : String) (l : LoginLimiter)
    → (is_locked now username l).0 ≡ locks now (get username l.entries)
unfolding is_locked
is_locked-locks now username l = elim (Option-cases (get username l.entries)) [
  | inl missing ↦ rw (is_locked, missing) refl
  | inr (entry, found) ↦ elim (Option-cases entry.locked_until) [
    | inl open_ ↦ rw (is_locked, found, open_) refl
    | inr (until, shut) ↦ elim (Bool-cases (ltb now until)) [
      | inl holds ↦ rw (is_locked, found, shut, holds) refl
      | inr over ↦ rw (is_locked, found, shut, over) refl
    ]
  ]
]

-- Five failures in a row of a user who had none, with room for the user, lock the name for the
-- lockout period from the fifth on, whatever their times; four do not.
pub five_failures-lock :
    (l : LoginLimiter) (username : String) (t1 t2 t3 t4 t5 now : Instant)
    → is_full l ≡ false
    → get username l.entries ≡ none
    → ((is_locked now username (fail_all (t1 ∷ t2 ∷ t3 ∷ t4 ∷ []) username l)).0 ≡ false)
      × ((is_locked now username (fail_all (t1 ∷ t2 ∷ t3 ∷ t4 ∷ t5 ∷ []) username l)).0
          ≡ ltb now (t5 + l.lockout))
unfolding fail_entry
five_failures-lock l username t1 t2 t3 t4 t5 now room fresh = (
  is_locked-locks now username (fail_all (t1 ∷ t2 ∷ t3 ∷ t4 ∷ []) username l)
      ∙ ap (locks now) (untracked t1 (t2 ∷ t3 ∷ t4 ∷ []) username l room fresh),
  is_locked-locks now username (fail_all (t1 ∷ t2 ∷ t3 ∷ t4 ∷ t5 ∷ []) username l)
      ∙ ap (locks now) (untracked t1 (t2 ∷ t3 ∷ t4 ∷ t5 ∷ []) username l room fresh),
)

-- The calls of the limiter.
pub data Call : Type 0 where
  asked : Instant → String → Call
  failed : Instant → String → Call
  cleared : String → Call

unfoldable pub run_call : Call → LoginLimiter → LoginLimiter
unfolding is_locked register_failure clear_failures
run_call (asked now username) l = (is_locked now username l).1
run_call (failed now username) l = register_failure now username l
run_call (cleared username) l = clear_failures username l

abbrev pub run_calls : List Call → LoginLimiter → LoginLimiter
run_calls [] l = l
run_calls (c ∷ cs) l = run_calls cs (run_call c l)

length-is_locked :
    (now : Instant) (username : String) (l : LoginLimiter)
    → length (is_locked now username l).1.entries ≡ length l.entries
unfolding is_locked
length-is_locked now username l = elim (Option-cases (get username l.entries)) [
  | inl missing ↦ rw (is_locked, missing) refl
  | inr (entry, found) ↦ elim (Option-cases entry.locked_until) [
    | inl open_ ↦ rw (is_locked, found, open_) refl
    | inr (until, shut) ↦ elim (Bool-cases (ltb now until)) [
      | inl holds ↦ rw (is_locked, found, shut, holds) refl
      | inr over ↦
          rw (is_locked, found, shut, over)
            (length-insert username (record entry { locked_until = none }) l.entries
              ∙ rw found refl)
    ]
  ]
]

-- A count makes the map no longer than the bound where it has room or the name.
count_failure-bound :
    (now : Instant) (username : String) (l : LoginLimiter)
    → length l.entries ≤ lockout_max_entries
    → (is_full l && not (contains_key username l.entries)) ≡ false
    → length (count_failure now username l).entries ≤ lockout_max_entries
count_failure-bound now username l h room =
    let entry = fail_entry now l.lockout (unwrap_or (get username l.entries) default_entry) in
    ground (arith, length-insert username entry l.entries)

register_failure-bound :
    (now : Instant) (username : String) (l : LoginLimiter)
    → length l.entries ≤ lockout_max_entries
    → length (register_failure now username l).entries ≤ lockout_max_entries
unfolding register_failure
register_failure-bound now username l h =
    let purged = purge now l in
    let less = length-retain (is_kept now) l.entries in
    elim (Bool-cases (is_full l && not (contains_key username l.entries))) [
      | inr room ↦ rw (register_failure, room) (count_failure-bound now username l h room)
      | inl full ↦ elim (Bool-cases (is_full purged)) [
        | inl still ↦ rw (register_failure, full, still) (omega (arith, less, h))
        | inr freed ↦
            rw (register_failure, full, freed)
              (count_failure-bound now username purged (omega (arith, less, h)) (ground arith))
      ]
    ]

run_call-bound :
    (c : Call) (l : LoginLimiter)
    → length l.entries ≤ lockout_max_entries
    → length (run_call c l).entries ≤ lockout_max_entries
unfolding run_call clear_failures
run_call-bound (asked now username) l h = rw (length-is_locked now username l) h
run_call-bound (failed now username) l h = register_failure-bound now username l h
run_call-bound (cleared username) l h = omega (arith, length-remove username l.entries, h)

run_calls_from-bound :
    (cs : List Call) (l : LoginLimiter)
    → length l.entries ≤ lockout_max_entries
    → length (run_calls cs l).entries ≤ lockout_max_entries
run_calls_from-bound [] l h = h
run_calls_from-bound (c ∷ cs) l h = run_calls_from-bound cs (run_call c l) (run_call-bound c l h)

-- Whatever calls it gets, a limiter that started empty never tracks more names than the bound.
pub run_calls-bound :
    (cs : List Call) (lockout : ℕ)
    → length (run_calls cs (new_limiter lockout)).entries ≤ lockout_max_entries
unfolding new_limiter
run_calls-bound cs lockout = run_calls_from-bound cs (new_limiter lockout) (omega arith)
