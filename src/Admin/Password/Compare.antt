-- ===== src/Admin/Password/Compare.antt =====
-- The comparison that always reads all bytes, `constant_time_eq` in src/admin/password.rs.
use Prim.Native.Nat.{bit_or, bit_xor, digits, differ, bit_or-bitwise, bit_xor-bitwise, max}
use lite_agentify.Prelude.{
  ℕ, zero, suc, ◌/◌, ◌%◌, ◌≤◌, true, ◌&&◌, ◌≡◌, refl, sym, ap, ◌∙◌, List, [], ◌∷◌, length, arith,
  nat_beq, nat_beq_iff, bytes_beq, bytes_eq, ◌==◌, inl, inr, Bool-cases,
}
use lite_agentify.Admin.Password.{differences, constant_time_eq}

differ-zero : (x y : ℕ) → differ x y ≡ 0 → x ≡ y
differ-zero zero y h = sym h
differ-zero (suc x) zero h = h
differ-zero (suc x) (suc y) h = ap suc (differ-zero x y h)

differ_self : (x : ℕ) → differ x x ≡ 0
differ_self zero = refl
differ_self (suc x) = differ_self x

xor_digits-zero : (n a b : ℕ) → a ≤ n → digits (λ b. b) differ n a b ≡ 0 → a ≡ b
xor_digits-zero zero zero b k h = sym h
xor_digits-zero zero (suc a) b k h = absurd (omega (arith, k))
xor_digits-zero (suc n) zero b k h = sym h
xor_digits-zero (suc n) (suc a) b k h =
    let low = differ-zero (suc a % 2) (b % 2) (omega (arith, h)) in
    let high = xor_digits-zero n (suc a / 2) (b / 2) (omega (arith, k)) (omega (arith, h)) in
    omega (arith, low, high)

xor_digits_self : (n a : ℕ) → a ≤ n → digits (λ b. b) differ n a a ≡ 0
xor_digits_self zero zero k = refl
xor_digits_self zero (suc a) k = absurd (omega (arith, k))
xor_digits_self (suc n) zero k = refl
xor_digits_self (suc n) (suc a) k =
    omega (arith, differ_self (suc a % 2), xor_digits_self n (suc a / 2) (omega (arith, k)))

or_digits-zero : (n a b : ℕ) → a ≤ n → digits (λ b. b) max n a b ≡ 0 → (a ≡ 0) × (b ≡ 0)
or_digits-zero zero zero b k h = (refl, h)
or_digits-zero zero (suc a) b k h = absurd (omega (arith, k))
or_digits-zero (suc n) zero b k h = (refl, h)
or_digits-zero (suc n) (suc a) b k h =
    let high = or_digits-zero n (suc a / 2) (b / 2) (omega (arith, k)) (omega (arith, h)) in
    absurd (omega (arith, h, high.0, high.1))

bit_xor_self : (a : ℕ) → bit_xor a a ≡ 0
bit_xor_self a = bit_xor-bitwise a a ∙ xor_digits_self a a (omega arith)

bit_xor-zero : (a b : ℕ) → bit_xor a b ≡ 0 → a ≡ b
bit_xor-zero a b h = xor_digits-zero a a b (omega arith) (sym (bit_xor-bitwise a b) ∙ h)

bit_or-zero : (a b : ℕ) → bit_or a b ≡ 0 → (a ≡ 0) × (b ≡ 0)
bit_or-zero a b h = or_digits-zero a a b (omega arith) (sym (bit_or-bitwise a b) ∙ h)

-- What the fold keeps: it is zero as long as it was and the two bytes agree.
or-xor : (acc x y : ℕ) → nat_beq (bit_or acc (bit_xor x y)) 0 ≡ (nat_beq acc 0 && nat_beq x y)
or-xor acc x y = elim (Bool-cases (nat_beq acc 0 && nat_beq x y)) [
  | inl both ↦
      let nothing : acc ≡ 0 = ground (arith, both) in
      let same : x ≡ y = ground (arith, both) in
      ap (λ n. nat_beq (bit_or n (bit_xor x y)) 0) nothing
      ∙ ap (λ n. nat_beq (bit_or 0 n) 0) (ap (bit_xor x) (sym same) ∙ bit_xor_self x)
      ∙ sym both
  | inr apart ↦ elim (Bool-cases (nat_beq (bit_or acc (bit_xor x y)) 0)) [
    | inr set ↦ set ∙ sym apart
    | inl clear ↦
        let parts = bit_or-zero acc (bit_xor x y) ((nat_beq_iff _ _).0 clear) in
        absurd (ground (arith, apart, parts.0, bit_xor-zero x y parts.1))
  ]
]

differences_exact :
    (acc : ℕ) (xs ys : List ℕ)
    → length xs ≡ length ys
    → nat_beq (differences acc xs ys) 0 ≡ (nat_beq acc 0 && bytes_beq xs ys)
unfolding differences
differences_exact acc [] [] h = ground arith
differences_exact acc [] (y ∷ ys) h = absurd (omega (arith, h))
differences_exact acc (x ∷ xs) [] h = absurd (omega (arith, h))
differences_exact acc (x ∷ xs) (y ∷ ys) h =
    differences_exact (bit_or acc (bit_xor x y)) xs ys (omega (arith, h))
    ∙ rw (or-xor acc x y) (ground arith)

bytes_beq-length : (xs ys : List ℕ) → bytes_beq xs ys ≡ true → length xs ≡ length ys
bytes_beq-length [] [] h = refl
bytes_beq-length [] (y ∷ ys) h = cc
bytes_beq-length (x ∷ xs) [] h = cc
bytes_beq-length (x ∷ xs) (y ∷ ys) h = ap suc (bytes_beq-length xs ys (ground (arith, h)))

-- The comparison without an early exit decides the equality of the bytes.
pub constant_time_eq_exact : (a b : List ℕ) → constant_time_eq a b ≡ (a == b)
unfolding constant_time_eq
constant_time_eq_exact a b = elim (Bool-cases (nat_beq (length a) (length b))) [
  | inl same ↦ rw (constant_time_eq, same) (differences_exact 0 a b ((nat_beq_iff _ _).0 same))
  | inr differs ↦
      rw (constant_time_eq, differs)
        (elim (Bool-cases (a == b)) [
          | inl same ↦ absurd (ground (arith, differs, bytes_beq-length a b same))
          | inr apart ↦ sym apart
        ])
]
