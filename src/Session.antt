-- ===== src/Session.antt =====
-- Admin sessions and the login lockout in process memory (src/admin/session.rs, with
-- SessionIdentity of src/admin/mod.rs). An Instant and a Duration are numbers of the same unit.
pub mod Open
pub mod Limiter
mod Tests
use lite_agentify.Prelude.{
  ℕ, ◌+◌, String, Bool, true, false, not, ◌&&◌, ◌||◌, Option, none, some, List, [], ◌∷◌, length,
  leb, ltb, nat_beq, if◌then◌else◌, string_eq, unwrap_or,
}
use lite_agentify.Prelude.Map.{Map, get, insert, remove, retain, contains_key}
use lite_agentify.Model.{Uuid}
use lite_agentify.Account.{Role}

abbrev pub Instant : Type 0
Instant = ℕ

abbrev pub lockout_threshold : ℕ
lockout_threshold = 5

abbrev pub lockout_max_entries : ℕ
lockout_max_entries = 10000

pub record SessionIdentity : Type 0 where
  pub user_id : Uuid
  pub username : String
  pub role : Role

pub record MemorySession : Type 0 where
  pub identity : SessionIdentity
  pub expires_at : Instant

abbrev pub Sessions : Type 0
Sessions = Map String MemorySession

-- `open`, with the time of the call.
unfoldable pub open_session :
    (now : Instant) → String → SessionIdentity → (ttl : ℕ) → Sessions → Sessions
open_session now token identity ttl sessions =
    insert token (record { identity = identity; expires_at = now + ttl }) sessions

-- `get`; an expired session is removed.
unfoldable pub get_session : (now : Instant) → String → Sessions → Option SessionIdentity × Sessions
get_session now token sessions = elim (get token sessions) [
  | some session ↦
      if ltb now session.expires_at
      then (some session.identity, sessions)
      else (none, remove token sessions)
  | none ↦ (none, sessions)
]

-- `remove`.
unfoldable pub remove_session : String → Sessions → Sessions
remove_session token sessions = remove token sessions

abbrev pub is_of_other : Uuid → String → MemorySession → Bool
is_of_other user_id token session = not (nat_beq session.identity.user_id user_id)

unfoldable pub remove_user : Uuid → Sessions → Sessions
remove_user user_id sessions = retain (is_of_other user_id) sessions

pub record LimiterEntry : Type 0 where
  pub consecutive_failures : ℕ
  pub locked_until : Option Instant

abbrev pub default_entry : LimiterEntry
default_entry = record { consecutive_failures = 0; locked_until = none }

pub record LoginLimiter : Type 0 where
  pub entries : Map String LimiterEntry
  pub lockout : ℕ

unfoldable pub new_limiter : ℕ → LoginLimiter
new_limiter lockout = record { entries = []; lockout = lockout }

-- The lock that an entry still has at a time.
abbrev pub lock_holds : Instant → Option Instant → Bool
lock_holds now none = false
lock_holds now (some until) = ltb now until

-- `is_locked`; a lock that has run out is cleared.
unfoldable pub is_locked : (now : Instant) → String → LoginLimiter → Bool × LoginLimiter
is_locked now username l = elim (get username l.entries) [
  | none ↦ (false, l)
  | some entry ↦ elim entry.locked_until [
    | none ↦ (false, l)
    | some until ↦ if ltb now until then (true, l) else (
      false,
      record l { entries = insert username (record entry { locked_until = none }) l.entries },
    )
  ]
]

-- What the purge of `register_failure` keeps.
abbrev pub is_kept : Instant → String → LimiterEntry → Bool
is_kept now username entry = lock_holds now entry.locked_until || ltb 0 entry.consecutive_failures

abbrev pub purge : Instant → LoginLimiter → LoginLimiter
purge now l = record l { entries = retain (is_kept now) l.entries }

-- The failure on an entry: the fifth locks and starts the count again.
unfoldable pub fail_entry : Instant → ℕ → LimiterEntry → LimiterEntry
fail_entry now lockout entry =
    let failures = entry.consecutive_failures + 1 in
    if leb lockout_threshold failures
    then record { consecutive_failures = 0; locked_until = some (now + lockout) }
    else record entry { consecutive_failures = failures }

abbrev pub count_failure : Instant → String → LoginLimiter → LoginLimiter
count_failure now username l = record l {
  entries =
      insert username (fail_entry now l.lockout (unwrap_or (get username l.entries) default_entry))
        l.entries;
}

abbrev pub is_full : LoginLimiter → Bool
is_full l = leb lockout_max_entries (length l.entries)

unfoldable pub register_failure : (now : Instant) → String → LoginLimiter → LoginLimiter
unfolding fail_entry
register_failure now username l =
    if is_full l && not (contains_key username l.entries)
    then (let purged = purge now l in
        if is_full purged then purged else count_failure now username purged)
    else count_failure now username l

-- `reset`.
unfoldable pub clear_failures : String → LoginLimiter → LoginLimiter
clear_failures username l = record l { entries = remove username l.entries }
