-- ===== src/Decimal.antt =====
-- The interface to `rust_decimal::Decimal`, which the pricing and the quota components take as a
-- parameter: the operations they call, and the laws of decimal arithmetic that the proofs use. A
-- sum or product past 96 bits, which makes the crate panic, is outside the model.
use lite_agentify.Prelude.{ℕ, suc, ◌*◌, ◌/◌, ◌≡◌, Bool, true, false, arith, leb, if◌then◌else◌, ◌+◌}
use lite_agentify.Prelude.Int.{ℤ, pos, negsuc, pos_part, neg_part, sub_ℕ, ◌+ℤ◌, +ℤ_parts}

pub record DecimalOps : Type 1 where
  pub Decimal : Type 0
  -- `Decimal::ZERO` and `Decimal::default()`
  pub zero_decimal : Decimal
  pub of_i64 : ℤ → Decimal
  pub add : Decimal → Decimal → Decimal
  pub sub : Decimal → Decimal → Decimal
  pub mul : Decimal → Decimal → Decimal
  pub div : Decimal → Decimal → Decimal
  pub is_sign_negative : Decimal → Bool
  -- what a column of type numeric(20, 10) keeps of a decimal: ten places, rounded
  pub numeric_20_10 : Decimal → Decimal
  -- `a >= b`
  pub ge : Decimal → Decimal → Bool

-- The sign of a result follows from the signs of the operands, and adding what is not negative
-- does not lower a sum.
pub record DecimalLaws (d : DecimalOps) : Type 0 where
  pub ge_refl : (a : d.Decimal) → d.ge a a ≡ true
  pub ge_trans : (a b c : d.Decimal) → d.ge a b ≡ true → d.ge b c ≡ true → d.ge a c ≡ true
  pub nonneg-sign : (a : d.Decimal) → d.is_sign_negative a ≡ false → d.ge a d.zero_decimal ≡ true
  pub nonneg-of_i64 : (n : ℕ) → d.ge (d.of_i64 (pos n)) d.zero_decimal ≡ true
  pub add-ge : (a b : d.Decimal) → d.ge b d.zero_decimal ≡ true → d.ge (d.add a b) a ≡ true
  pub mul-nonneg :
      (a b : d.Decimal)
      → d.ge a d.zero_decimal ≡ true
      → d.ge b d.zero_decimal ≡ true
      → d.ge (d.mul a b) d.zero_decimal ≡ true
  pub div-nonneg :
      (a : d.Decimal) (n : ℕ)
      → d.ge a d.zero_decimal ≡ true
      → d.ge (d.div a (d.of_i64 (pos (suc n)))) d.zero_decimal ≡ true

-- An instance for runs: integers of a millionth, rounded toward zero; a column of ten places
-- keeps them whole.
abbrev millionths : ℕ
millionths = 1000000

abbrev signed : Bool → ℕ → ℤ
signed negative n = if negative then sub_ℕ 0 n else pos n

abbrev is_negative : ℤ → Bool
is_negative (pos n) = false
is_negative (negsuc n) = true

abbrev magnitude : ℤ → ℕ
magnitude a = pos_part a + neg_part a

abbrev differ : Bool → Bool → Bool
differ true b = if b then false else true
differ false b = b

abbrev pub fixed : DecimalOps
fixed = record {
  Decimal = ℤ;
  zero_decimal = pos 0;
  of_i64 = λ z. signed (is_negative z) (magnitude z * millionths);
  add = ◌+ℤ◌;
  sub = λ a b. a +ℤ sub_ℕ (neg_part b) (pos_part b);
  mul = λ a b.
      signed (differ (is_negative a) (is_negative b)) (magnitude a * magnitude b / millionths);
  div = λ a b.
      signed (differ (is_negative a) (is_negative b)) (magnitude a * millionths / magnitude b);
  is_sign_negative = is_negative;
  numeric_20_10 = λ a. a;
  ge = λ a b. leb (pos_part b + neg_part a) (pos_part a + neg_part b);
}

ge_trans_fixed : (a b c : ℤ) → fixed.ge a b ≡ true → fixed.ge b c ≡ true → fixed.ge a c ≡ true
ge_trans_fixed a b c h k = ground arith

nonneg-sign_fixed : (a : ℤ) → is_negative a ≡ false → fixed.ge a (pos 0) ≡ true
nonneg-sign_fixed a h = ground arith

add-ge_fixed : (a b : ℤ) → fixed.ge b (pos 0) ≡ true → fixed.ge (a +ℤ b) a ≡ true
add-ge_fixed a b h = ground (arith, +ℤ_parts a b)

mul-nonneg_fixed :
    (a b : ℤ)
    → fixed.ge a (pos 0) ≡ true
    → fixed.ge b (pos 0) ≡ true
    → fixed.ge (fixed.mul a b) (pos 0) ≡ true
mul-nonneg_fixed a b h k = ground arith

div-nonneg_fixed :
    (a : ℤ) (n : ℕ)
    → fixed.ge a (pos 0) ≡ true
    → fixed.ge (fixed.div a (fixed.of_i64 (pos (suc n)))) (pos 0) ≡ true
div-nonneg_fixed a n h = ground arith

pub fixed_laws : DecimalLaws fixed
fixed_laws = record {
  ge_refl = λ a. ground arith;
  ge_trans = ge_trans_fixed;
  nonneg-sign = nonneg-sign_fixed;
  nonneg-of_i64 = λ n. ground arith;
  add-ge = add-ge_fixed;
  mul-nonneg = mul-nonneg_fixed;
  div-nonneg = div-nonneg_fixed;
}
