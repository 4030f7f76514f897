-- ===== src/Account/Tests.antt =====
-- Runs and instances for src/account.
use lite_agentify.Prelude.{
  ℕ, ◌≡◌, refl, String, Bool, false, Option, some, List, [], ◌∷◌, take, filter, arith, err,
}
use lite_agentify.Prelude.Text.{byte_len}
use lite_agentify.Decimal.{fixed}
use lite_agentify.Account.{Digest}
use lite_agentify.Account.Keys.{key_body_len, is_drawn, generate_api_key, hex, decode_hex_32}
use lite_agentify.Account.Keys.Hex.{decode_hex_32-hex}
use lite_agentify.Account.Keys.Random.{generate_api_key-draws, rounds, key_of}
use lite_agentify.Account.Database.{failed, Database}
use lite_agentify.Account.Bootstrap.{bootstrap_accounts}
use lite_agentify.Account.Bootstrap.Once.{Settled, bootstrap_accounts-Settled}
use lite_agentify.Samples.Accounts.{
  sample_column, steady, down_at, copies, length_digest, length_digest-IsDigest, no_tables,
}

decode_hex_32-hex_example : decode_hex_32 (hex (length_digest "sk-1")) ≡ some (length_digest "sk-1")
decode_hex_32-hex_example =
    decode_hex_32-hex (length_digest "sk-1") (length_digest-IsDigest "sk-1").0
      (length_digest-IsDigest "sk-1").1

-- Every fourth byte is refused.
abbrev noise : ℕ → List ℕ
noise round = 255 ∷ 1 ∷ 27 ∷ 62 ∷ copies 60 round

abbrev drawn : List ℕ
drawn = take key_body_len (filter is_drawn (rounds 1 noise 0))

generate_api_key-draws_example :
    (generate_api_key 1 noise ≡ some (key_of drawn)) × (byte_len (key_of drawn) ≡ 43)
generate_api_key-draws_example = generate_api_key-draws 1 noise (omega arith)

key_drawn :
    generate_api_key 1 (λ r. 255 ∷ 1 ∷ 27 ∷ 62 ∷ copies 60 25)
    ≡ some "la-BbAZZZZZZZZZZZZZZZZZZZZZZZZZZZZZZZZZZZZZ"
unfolding generate_api_key
key_drawn = refl

abbrev no_hash : String → Bool
no_hash text = false

abbrev marked : ℕ → String → Option String
marked salt password = some password

-- A store whose statement 4 fails is left empty.
seed_undone :
    bootstrap_accounts fixed sample_column
      (down_at 4)
      no_hash
      marked
      length_digest
      (λ n. "1")
      (some "pw")
      ("sk-1" ∷ [])
      no_tables
    ≡ (err (failed "failed to import legacy gateway key"), record no_tables { statements = 5 })
unfolding bootstrap_accounts lite_agentify.Account.Database.statement
seed_undone = refl

bootstrap_accounts-Settled_example :
    Settled fixed sample_column steady no_hash marked length_digest
      (λ n. "1")
      ("sk-1" ∷ [])
      no_tables
      (bootstrap_accounts fixed sample_column steady no_hash marked length_digest
        (λ n. "1")
        (some "pw")
        ("sk-1" ∷ [])
        no_tables)
bootstrap_accounts-Settled_example =
    bootstrap_accounts-Settled fixed sample_column steady no_hash marked length_digest (λ n. "1")
      (some "pw") ("sk-1" ∷ []) no_tables
