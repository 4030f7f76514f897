-- ===== src/Quota.antt =====
-- The spend counters behind the quota check (src/quota/counter.rs, src/quota/mod.rs).
pub mod Entity
pub mod Ledger
mod Reconcile
mod Outage
mod Tests
use lite_agentify.Prelude.{
  String, Bool, true, false, Option, none, some, List, [], ◌∷◌, ◌≡◌, ◌↔◌, Eq, nat_beq, nat_beq_iff,
  unwrap_or, and_then, Result, ok, err, if◌then◌else◌, arith,
}
use lite_agentify.Prelude.Map.{Map, get, insert}
use lite_agentify.Model.{Uuid}
use lite_agentify.Decimal.{DecimalOps}

pub data Scope : Type 0 where
  user : Uuid → Scope
  key : Uuid → Scope

abbrev pub scope_beq : Scope → Scope → Bool
scope_beq (user a) (user b) = nat_beq a b
scope_beq (key a) (key b) = nat_beq a b
scope_beq _ _ = false

pub scope_beq_iff : (a b : Scope) → (scope_beq a b ≡ true) ↔ (a ≡ b)
scope_beq_iff a b = ground arith

-- The derived `PartialEq` and `Hash`.
instance abbrev pub scope_eq : Eq Scope
scope_eq = record { agrees = scope_beq; agrees_iff = scope_beq_iff }

module _ (d : DecimalOps) where
  open d use {Decimal, zero_decimal, add}

  -- `MemoryCounter`: the map behind its mutex, and its three operations.
  abbrev pub MemoryCounter : Type 0
  MemoryCounter = Map Scope Decimal

  unfoldable pub get_spend : Scope → MemoryCounter → Decimal
  get_spend scope values = unwrap_or (get scope values) zero_decimal

  unfoldable pub add_spend : Scope → Decimal → MemoryCounter → MemoryCounter
  unfolding get_spend
  add_spend scope cost values = insert scope (add (get_spend scope values) cost) values

  unfoldable pub reset_spend : Scope → Decimal → MemoryCounter → MemoryCounter
  reset_spend scope value values = insert scope value values

  -- `SpendSums`, the truth recomputed from the usage table; each map is read by iteration.
  pub record SpendSums : Type 0 where
    pub by_user : List (Uuid × Decimal)
    pub by_key : List (Uuid × Decimal)

  -- One of the two loops of `reconcile_counters`.
  unfoldable pub reset_all : (Uuid → Scope) → List (Uuid × Decimal) → MemoryCounter → MemoryCounter
  reset_all scope [] values = values
  reset_all scope ((id, total) ∷ sums) values =
      reset_all scope sums (reset_spend (scope id) total values)

  -- `reconcile_counters`; the sums are what the store returned, or its error.
  unfoldable pub reconcile_counters {ℓ} :
      {E : Type ℓ} → Result E SpendSums → MemoryCounter → Result E (Unit {0}) × MemoryCounter
  unfolding reset_all
  reconcile_counters (err e) values = (err e, values)
  reconcile_counters (ok sums) values =
      (ok tt, reset_all key sums.by_key (reset_all user sums.by_user values))

  -- The Redis server: the three commands that `RedisCounter` sends, each with the server's answer,
  -- an error when it is out of reach. A stored value comes back as a text; `parse` is
  -- `text.parse::<Decimal>().ok()` and `show` is `to_string`.
  pub record RedisOps : Type 1 where
    pub Server : Type 0
    pub Error : Type 0
    pub send_get : Scope → Server → Result Error (Option String) × Server
    pub send_incrbyfloat : Scope → String → Server → Result Error (Unit {0}) × Server
    pub send_set : Scope → String → Server → Result Error (Unit {0}) × Server
    pub parse : String → Option Decimal
    pub show : Decimal → String

  module _ (r : RedisOps) where
    open r use {Server, send_get, send_incrbyfloat, send_set, parse, show}

    -- `RedisCounter` with the server behind its connection.
    pub record RedisCounter : Type 0 where
      pub connection : Server
      pub shadow : MemoryCounter
      pub degraded : Bool

    -- `note_outcome` leaves the flag of the outage window; its warnings are logging.
    abbrev pub failed {ℓ κ} : {E : Type ℓ} {A : Type κ} → Result E A → Bool
    failed (ok a) = false
    failed (err e) = true

    unfoldable pub redis_get : Scope → RedisCounter → Decimal × RedisCounter
    unfolding get_spend reset_spend
    redis_get scope c =
        let (result, server) = send_get scope c.connection in
        elim result [
          | ok value ↦
              let parsed = unwrap_or (and_then value parse) zero_decimal in
              (
                parsed,
                record {
                  connection = server;
                  shadow = reset_spend scope parsed c.shadow;
                  degraded = false;
                },
              )
          | err e ↦ (
            get_spend scope c.shadow,
            record { connection = server; shadow = c.shadow; degraded = true },
          )
        ]

    unfoldable pub redis_add : Scope → Decimal → RedisCounter → RedisCounter
    unfolding add_spend
    redis_add scope cost c =
        let (result, server) = send_incrbyfloat scope (show cost) c.connection in
        record {
          connection = server;
          shadow = add_spend scope cost c.shadow;
          degraded = failed result;
        }

    unfoldable pub redis_reset : Scope → Decimal → RedisCounter → RedisCounter
    unfolding reset_spend
    redis_reset scope value c =
        let (result, server) = send_set scope (show value) c.connection in
        record {
          connection = server;
          shadow = reset_spend scope value c.shadow;
          degraded = failed result;
        }
