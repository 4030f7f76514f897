-- ===== src/Session/Open.antt =====
-- Who is signed in, `MemorySessionStore` in src/admin/session.rs.
use lite_agentify.Prelude.{
  ℕ, ◌+◌, String, not, ◌≡◌, refl, sym, ap, ◌∙◌, Option, none, some, List, [], ◌∷◌, if◌then◌else◌,
  ltb, nat_beq, string_eq, ◌==◌, Option-cases, Bool-cases, inl, inr, ◌⊎◌, subst,
}
use lite_agentify.Prelude.Map.{
  get, remove, get-insert, keep, IsDistinct, get-retain, insert-IsDistinct, remove-IsDistinct,
  retain-IsDistinct,
}
use lite_agentify.Model.{Uuid}
use lite_agentify.Session.{
  Instant, SessionIdentity, MemorySession, Sessions, open_session, get_session, remove_session,
  is_of_other, remove_user,
}

-- The calls of the session store, with the times of those that read the clock.
pub data Call : Type 0 where
  opened : Instant → String → SessionIdentity → ℕ → Call
  got : Instant → String → Call
  removed : String → Call
  dropped : Uuid → Call

unfoldable pub run_call : Call → Sessions → Sessions
unfolding open_session get_session remove_session remove_user
run_call (opened now token identity ttl) s = open_session now token identity ttl s
run_call (got now token) s = (get_session now token s).1
run_call (removed token) s = remove_session token s
run_call (dropped user_id) s = remove_user user_id s

abbrev pub run_calls : List Call → Sessions → Sessions
run_calls [] s = s
run_calls (c ∷ cs) s = run_calls cs (run_call c s)

get_session-store :
    (now : Instant) (token : String) (s : Sessions)
    → ((get_session now token s).1 ≡ s) ⊎ ((get_session now token s).1 ≡ remove token s)
unfolding get_session
get_session-store now token s = elim (Option-cases (get token s)) [
  | inl missing ↦ inl (rw (get_session, missing) refl)
  | inr (session, found) ↦ elim (Bool-cases (ltb now session.expires_at)) [
    | inl valid ↦ inl (rw (get_session, found, valid) refl)
    | inr expired ↦ inr (rw (get_session, found, expired) refl)
  ]
]

run_call-IsDistinct : (c : Call) (s : Sessions) → IsDistinct s → IsDistinct (run_call c s)
unfolding run_call open_session remove_session remove_user
run_call-IsDistinct (opened now token identity ttl) s h = insert-IsDistinct token _ s h
run_call-IsDistinct (got now token) s h = elim (get_session-store now token s) [
  | inl same ↦ subst IsDistinct (sym same) h
  | inr less ↦ subst IsDistinct (sym less) (remove-IsDistinct token s h)
]
run_call-IsDistinct (removed token) s h = remove-IsDistinct token s h
run_call-IsDistinct (dropped user_id) s h = retain-IsDistinct (is_of_other user_id) s h

run_calls-IsDistinct : (cs : List Call) (s : Sessions) → IsDistinct s → IsDistinct (run_calls cs s)
run_calls-IsDistinct [] s h = h
run_calls-IsDistinct (c ∷ cs) s h =
    run_calls-IsDistinct cs (run_call c s) (run_call-IsDistinct c s h)

-- What `get` gives for an entry.
abbrev reading : Instant → Option MemorySession → Option SessionIdentity
reading now none = none
reading now (some session) = if ltb now session.expires_at then some session.identity else none

get_session-reading :
    (now : Instant) (token : String) (s : Sessions)
    → (get_session now token s).0 ≡ reading now (get token s)
unfolding get_session
get_session-reading now token s = elim (Option-cases (get token s)) [
  | inl missing ↦ rw (get_session, missing) refl
  | inr (session, found) ↦ elim (Bool-cases (ltb now session.expires_at)) [
    | inl valid ↦ rw (get_session, found, valid) refl
    | inr expired ↦ rw (get_session, found, expired) refl
  ]
]

reading-keep :
    (now : Instant) (token : String) (user_id : Uuid) (o : Option MemorySession)
    → reading now (keep (is_of_other user_id token) o)
      ≡ keep (λ identity. not (nat_beq identity.user_id user_id)) (reading now o)
reading-keep now token user_id none = refl
reading-keep now token user_id (some session) = elim (Bool-cases (ltb now session.expires_at)) [
  | inl valid ↦ elim (Bool-cases (nat_beq session.identity.user_id user_id)) [
    | inl same ↦ rw (same, valid, same) refl
    | inr other ↦ rw (other, valid, other) refl
  ]
  | inr expired ↦ elim (Bool-cases (nat_beq session.identity.user_id user_id)) [
    | inl same ↦ rw (same, expired) refl
    | inr other ↦ rw (other, expired) refl
  ]
]

-- A session that was opened is good for its own token until its time to live is over; every other
-- token reads as before.
pub open_session-get :
    (s : Sessions) (now later : Instant) (token other : String) (identity : SessionIdentity)
    (ttl : ℕ)
    → (get_session later other (open_session now token identity ttl s)).0 ≡ (
        if token == other
        then if ltb later (now + ttl) then some identity else none
        else (get_session later other s).0)
unfolding open_session
open_session-get s now later token other identity ttl =
    let session : MemorySession = record { identity = identity; expires_at = now + ttl } in
    get_session-reading later other (open_session now token identity ttl s)
    ∙ ap (reading later) (get-insert token other session s)
    ∙ (elim (Bool-cases (token == other)) [
      | inl same ↦ rw same refl
      | inr differ ↦ rw differ (sym (get_session-reading later other s))
    ])

-- Dropping a user takes away the user's tokens and leaves every other.
pub get_session-remove_user :
    (s : Sessions) (now : Instant) (token : String) (user_id : Uuid)
    → IsDistinct s
    → (get_session now token (remove_user user_id s)).0
      ≡ keep (λ identity. not (nat_beq identity.user_id user_id)) (get_session now token s).0
unfolding remove_user
get_session-remove_user s now token user_id distinct =
    get_session-reading now token (remove_user user_id s)
    ∙ ap (reading now) (get-retain (is_of_other user_id) token s distinct)
    ∙ reading-keep now token user_id (get token s)
    ∙ ap (keep (λ identity. not (nat_beq identity.user_id user_id)))
        (sym (get_session-reading now token s))

-- After a user is dropped, whatever calls came before, no token signs this user in, and every other
-- user's tokens read as before.
pub remove_user-signs_out :
    (cs : List Call) (now : Instant) (token : String) (user_id : Uuid)
    → (get_session now token (remove_user user_id (run_calls cs []))).0
      ≡ keep
          (λ identity. not (nat_beq identity.user_id user_id))
          (get_session now token (run_calls cs [])).0
remove_user-signs_out cs now token user_id =
    get_session-remove_user (run_calls cs []) now token user_id (run_calls-IsDistinct cs [] tt)
