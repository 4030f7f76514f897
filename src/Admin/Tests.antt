-- ===== src/Admin/Tests.antt =====
-- Runs and instances for src/admin.
use lite_agentify.Prelude.{
  ℕ, ◌≡◌, refl, ◌==◌, bytes_eq, nat_eq, string_eq, String, Bool, true, false, Option, none, some,
  List, [], ◌∷◌, arith, ok, err, any, length, ◌≤◌,
}
use lite_agentify.Prelude.Map.{get}
use lite_agentify.Prelude.Text.{trim, is_empty_text}
use lite_agentify.Decimal.{fixed}
use lite_agentify.Admin.{done, warned}
use lite_agentify.Admin.Password.{constant_time_eq}
use lite_agentify.Admin.Password.Compare.{constant_time_eq_exact}
use lite_agentify.Admin.Login.{login}
use lite_agentify.Admin.Login.Outcome as Login
use lite_agentify.Admin.Login.Outcome.{login-Outcome}
use lite_agentify.Admin.Users.{disable_user}
use lite_agentify.Admin.Users.Lockout.{Disabled, Refusal, disable_user-Disabled}
use lite_agentify.Admin.ApiKeys.{normalize_allowed_models, create_key, revoke_key, update_key}
use lite_agentify.Admin.ApiKeys.Limits.{IsUnique, normalize_allowed_models_accepts}
use lite_agentify.Admin.ApiKeys.Revoked as Revoking
use lite_agentify.Admin.ApiKeys.Revoked.{Revoked, revoke_key-Revoked}
use lite_agentify.Admin.ApiKeys.Created as Created
use lite_agentify.Admin.ApiKeys.Created.{create_key-Outcome}
use lite_agentify.Admin.ApiKeys.Hidden.{foreign_key_hidden}
use lite_agentify.Samples.Accounts.{
  sample_column, sample_column_laws, steady, down_at, copies, length_digest, length_digest-IsDigest,
  plain_hash, root, ann, bob, console,
}

abbrev one_two : List ℕ
one_two = 1 ∷ 2 ∷ []

constant_time_eq_exact_example :
    constant_time_eq (1 ∷ 2 ∷ []) (1 ∷ 3 ∷ []) ≡ (one_two == (1 ∷ 3 ∷ []))
constant_time_eq_exact_example = constant_time_eq_exact (1 ∷ 2 ∷ []) (1 ∷ 3 ∷ [])

disable_user-Disabled_example :
    Disabled fixed sample_column
      (Refusal fixed sample_column steady plain_hash root 2 console)
      2
      console
      (disable_user fixed sample_column steady plain_hash root 2 console)
unfolding get
disable_user-Disabled_example =
    disable_user-Disabled fixed sample_column steady plain_hash root 2 console (refl, tt)

revoke_key-Revoked_example :
    Revoked fixed sample_column
      (Revoking.Refusal fixed sample_column steady (λ cap. none) ann 7 console)
      7
      console
      (revoke_key fixed sample_column steady (λ cap. none) ann 7 console)
revoke_key-Revoked_example =
    revoke_key-Revoked fixed sample_column steady (λ cap. none) ann 7 console

foreign_key_hidden_example :
    ((revoke_key fixed sample_column steady (λ cap. none) bob 7 console).0
      ≡ (revoke_key fixed sample_column steady (λ cap. none) bob 8 console).0)
    × ((update_key fixed sample_column steady (λ cap. none) bob 7 none none console).0
        ≡ (update_key fixed sample_column steady (λ cap. none) bob 8 none none console).0)
foreign_key_hidden_example =
    foreign_key_hidden fixed sample_column steady (λ cap. none) bob 7 8 console console none none
      refl refl refl refl

abbrev noise : ℕ → List ℕ
noise round = copies 64 1

create_key-Outcome_example :
    Created.Outcome fixed sample_column steady
      (λ cap. none)
      length_digest
      ann
      1
      noise
      "laptop"
      (some ("small" ∷ []))
      none
      console
      (create_key fixed sample_column steady
        (λ cap. none)
        length_digest
        1
        noise
        ann
        "laptop"
        (some ("small" ∷ []))
        none
        console)
create_key-Outcome_example =
    create_key-Outcome fixed sample_column steady (λ cap. none) length_digest ann sample_column_laws
      length_digest-IsDigest 1 noise "laptop" (some ("small" ∷ [])) none console refl

login-Outcome_example :
    Login.Outcome fixed sample_column steady plain_hash
      (λ n. "100")
      5
      "t9"
      "ann"
      "secret-2"
      console
      (login fixed sample_column steady plain_hash (λ n. "100") 5 "t9" "ann" "secret-2" console)
login-Outcome_example =
    login-Outcome fixed sample_column steady plain_hash (λ n. "100") 5 "t9" "ann" "secret-2" console

abbrev given_names : List String
given_names = " a" ∷ "b" ∷ "a" ∷ []

abbrev kept_names : List String
kept_names = "a" ∷ "b" ∷ []

accepted : normalize_allowed_models (some given_names) ≡ ok (some kept_names)
unfolding normalize_allowed_models
accepted = refl

normalize_allowed_models_accepts_example :
    IsUnique kept_names
    × (1 ≤ length kept_names)
    × (length kept_names ≤ 200)
    × (any is_empty_text kept_names ≡ false)
    × (any (λ m. m == "b") kept_names ≡ any (λ given. trim given == "b") given_names)
normalize_allowed_models_accepts_example =
    normalize_allowed_models_accepts given_names kept_names "b" accepted

signs_in :
    (login fixed sample_column steady plain_hash
      (λ n. "100")
      5
      "t9"
      "ann"
      "secret-2"
      console).0.status
    ≡ 200
unfolding login get lite_agentify.Session.new_limiter lite_agentify.Account.Database.statement
    lite_agentify.Account.parse_role
signs_in = refl

wrong_password :
    (login fixed sample_column steady plain_hash (λ n. "100") 5 "t9" "ann" "guess" console).0.status
    ≡ 401
unfolding login get lite_agentify.Session.new_limiter lite_agentify.Account.Database.statement
    lite_agentify.Account.parse_role
wrong_password = refl

signed_out : (disable_user fixed sample_column steady plain_hash root 2 console).1.sessions ≡ []
unfolding disable_user lite_agentify.Account.Database.statement lite_agentify.Session.remove_user
    lite_agentify.Prelude.Map.retain
signed_out = refl

revoke_twice :
    let once = revoke_key fixed sample_column steady (λ cap. none) ann 7 console in
    (revoke_key fixed sample_column steady (λ cap. none) ann 7 once.1).0.reply ≡ done
unfolding revoke_key lite_agentify.Account.Database.statement
revoke_twice = refl

-- The snapshot could not be refreshed.
warns :
    (revoke_key fixed sample_column (down_at 3) (λ cap. none) ann 7 console).0.reply ≡ warned done
unfolding revoke_key lite_agentify.Account.Database.statement
warns = refl
