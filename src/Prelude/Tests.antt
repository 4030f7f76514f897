-- ===== src/Prelude/Tests.antt =====
-- Boolean tests on the native numbers, equality by an instance, and the conditional.
use Prim.Native.Nat.{ℕ, compare, Ordering}
use Prim.Native.String.{String}
use text.Mathlib.Text.{◌==◌ as str_eq}
use text.Mathlib.TextEquality.{eq_iff}
use mathlib.Core.Path.{◌≡◌, refl}
use mathlib.Core.Logic.{◌↔◌, ◌≢◌, ◌⊎◌, inl, inr}
use mathlib.Core.Bool.{Bool, true, false, ◌&&◌}
use mathlib.Core.Option.{Option, none, some}
use mathlib.Core.List.{List, [], ◌∷◌}
use native.Mathlib.Omega.{arith}

abbrev pub ltb : ℕ → ℕ → Bool
ltb a b = elim (compare a b) [ Ordering.lt ↦ true | _ ↦ false ]

abbrev pub leb : ℕ → ℕ → Bool
leb a b = elim (compare a b) [ Ordering.gt ↦ false | _ ↦ true ]

abbrev pub nat_beq : ℕ → ℕ → Bool
nat_beq a b = elim (compare a b) [ Ordering.eq ↦ true | _ ↦ false ]

infix 1 if◌then◌else◌
abbrev pub if◌then◌else◌ {ℓ} : {A : Type ℓ} → Bool → A → A → A
if true then x else y = x
if false then x else y = y

pub nat_beq_iff : (a b : ℕ) → (nat_beq a b ≡ true) ↔ (a ≡ b)
nat_beq_iff a b = ground arith

-- `PartialEq` and `Hash`: the test that a key of a map is found by, and that it decides equality.
pub record Eq {ℓ} (T : Type ℓ) : Type ℓ where
  pub agrees : T → T → Bool
  pub agrees_iff : (s t : T) → (agrees s t ≡ true) ↔ (s ≡ t)

instance abbrev pub string_eq : Eq String
string_eq = record { agrees = str_eq; agrees_iff = λ s t. eq_iff s t }

instance abbrev pub nat_eq : Eq ℕ
nat_eq = record { agrees = λ m n. nat_beq m n; agrees_iff = nat_beq_iff }

abbrev pub bytes_beq : List ℕ → List ℕ → Bool
bytes_beq [] [] = true
bytes_beq [] (c ∷ cs) = false
bytes_beq (b ∷ bs) [] = false
bytes_beq (b ∷ bs) (c ∷ cs) = nat_beq b c && bytes_beq bs cs

pub bytes_beq_iff : (bs cs : List ℕ) → (bytes_beq bs cs ≡ true) ↔ (bs ≡ cs)
bytes_beq_iff [] [] = ground arith
bytes_beq_iff [] (c ∷ cs) = ground arith
bytes_beq_iff (b ∷ bs) [] = ground arith
bytes_beq_iff (b ∷ bs) (c ∷ cs) = ground (arith, nat_beq_iff b c, bytes_beq_iff bs cs)

-- Equality of arrays of bytes, the keys of the map of API keys.
instance abbrev pub bytes_eq : Eq (List ℕ)
bytes_eq = record { agrees = bytes_beq; agrees_iff = bytes_beq_iff }

-- The test of the instance in scope.
infix 50 ◌==◌
abbrev pub ◌==◌ {ℓ} : {T : Type ℓ} ⦃key : Eq T⦄ → T → T → Bool
◌==◌ ⦃key⦄ s t = key.agrees s t

-- Equality of pairs of texts, the keys of the pricing map.
abbrev pub pair_beq : String × String → String × String → Bool
pair_beq a b = str_eq a.0 b.0 && str_eq a.1 b.1

pub pair_beq_iff : (a b : String × String) → (pair_beq a b ≡ true) ↔ (a ≡ b)
pair_beq_iff a b = ground (arith, eq_iff a.0 b.0, eq_iff a.1 b.1)

instance abbrev pub pair_eq : Eq (String × String)
pair_eq = record { agrees = pair_beq; agrees_iff = pair_beq_iff }

pub Bool-cases : (b : Bool) → (b ≡ true) ⊎ (b ≡ false)
Bool-cases true = inl refl
Bool-cases false = inr refl

pub Option-cases {ℓ} : {A : Type ℓ} (o : Option A) → (o ≡ none) ⊎ ((a : A) × (o ≡ some a))
Option-cases none = inl refl
Option-cases (some a) = inr (a, refl)

module _ {ℓ} {A : Type ℓ} ⦃e : Eq A⦄ where
  pub beq_refl : (a : A) → (a == a) ≡ true
  beq_refl a = (e.agrees_iff a a).1 refl

  pub beq_ne : (a b : A) → a ≢ b → (a == b) ≡ false
  beq_ne a b h = ground (arith, e.agrees_iff a b)

  pub eq_of_beq : (a b : A) → (a == b) ≡ true → a ≡ b
  eq_of_beq a b h = (e.agrees_iff a b).0 h

  pub ne_of_beq : (a b : A) → (a == b) ≡ false → a ≢ b
  ne_of_beq a b h = ground (arith, e.agrees_iff a b)

abbrev pub is_some {ℓ} : {A : Type ℓ} → Option A → Bool
is_some none = false
is_some (some _) = true

abbrev pub is_none {ℓ} : {A : Type ℓ} → Option A → Bool
is_none none = true
is_none (some _) = false

-- `Option::unwrap_or`.
abbrev pub unwrap_or {ℓ} : {A : Type ℓ} → Option A → A → A
unwrap_or none d = d
unwrap_or (some a) _ = a

-- `Option::and_then`.
abbrev pub and_then {ℓ κ} : {A : Type ℓ} {B : Type κ} → Option A → (A → Option B) → Option B
and_then none f = none
and_then (some a) f = f a

-- `Option::or_else`, whose alternative is a value here.
abbrev pub or_else {ℓ} : {A : Type ℓ} → Option A → Option A → Option A
or_else none o = o
or_else (some a) _ = some a

pub and_assoc : (a b c : Bool) → (a && b && c) ≡ (a && (b && c))
and_assoc true b c = refl
and_assoc false b c = refl

pub and_left_comm : (a b c : Bool) → (a && (b && c)) ≡ (b && (a && c))
and_left_comm a b c = ground arith
