-- ===== src/Account/Keys/Hex.antt =====
-- Digests are written in hexadecimal and read back, `hex` in src/account/keys.rs and
-- `decode_hex_32` in src/account/store.rs.
use Prim.Native.Char.{code, len_utf8}
use Prim.Native.String.{◌∷◌ as push}
use Prim.Native.String.len
use lite_agentify.Prelude.{
  ℕ, ◌+◌, ◌*◌, ◌/◌, ◌%◌, ◌<◌, Bool, true, ◌&&◌, ◌≡◌, refl, ap, ◌∙◌, some, List, [], ◌∷◌, All,
  length, arith, nat_beq, nat_beq_iff, all_below, all_below_apply, unwrap_or, inl, inr,
  Option-cases,
}
use lite_agentify.Prelude.Text.{byte_len}
use lite_agentify.Account.Keys.{hex, hex_digit, to_digit, decode_pairs, decode_hex_32}

abbrev is_read_back : ℕ → Bool
is_read_back n =
    nat_beq (unwrap_or (to_digit (code (hex_digit n))) 16) n && nat_beq (len_utf8 (hex_digit n)) 1

all_read_back : all_below 16 is_read_back ≡ true
unfolding to_digit
all_read_back = refl

to_digit-hex_digit :
    (n : ℕ) → n < 16 → (to_digit (code (hex_digit n)) ≡ some n) × (len_utf8 (hex_digit n) ≡ 1)
to_digit-hex_digit n h =
    let back = all_below_apply 16 is_read_back all_read_back n h in
    (
      elim (Option-cases (to_digit (code (hex_digit n)))) [
        | inl fails ↦ absurd (ground (arith, fails, back))
        | inr (m, e) ↦ ground (arith, e, back)
      ],
      ground (arith, back),
    )

length-hex : (bytes : List ℕ) → All (λ b. b < 256) bytes → byte_len (hex bytes) ≡ 2 * length bytes
unfolding hex
length-hex [] h = refl
length-hex (b ∷ bs) (h, hs) =
    let high = (to_digit-hex_digit (b / 16) (omega (arith, h))).1 in
    let low = (to_digit-hex_digit (b % 16) (omega arith)).1 in
    len.cons (hex_digit (b / 16)) (push (hex_digit (b % 16)) (hex bs))
    ∙ rw (len.cons (hex_digit (b % 16)) (hex bs)) (omega (arith, high, low, length-hex bs hs))

decode_pairs-hex :
    (bytes : List ℕ) → All (λ b. b < 256) bytes → decode_pairs (hex bytes) ≡ some bytes
unfolding hex decode_pairs
decode_pairs-hex [] h = refl
decode_pairs-hex (b ∷ bs) (h, hs) =
    let high = (to_digit-hex_digit (b / 16) (omega (arith, h))).0 in
    let low = (to_digit-hex_digit (b % 16) (omega arith)).0 in
    let whole : b / 16 * 16 + b % 16 ≡ b = omega arith in
    rw (high, low, decode_pairs-hex bs hs) (ap (λ n. some (n ∷ bs)) whole)

-- Every digest, an array of 32 bytes, is read back from its hexadecimal form.
pub decode_hex_32-hex :
    (digest : List ℕ)
    → length digest ≡ 32
    → All (λ b. b < 256) digest
    → decode_hex_32 (hex digest) ≡ some digest
unfolding decode_hex_32
decode_hex_32-hex digest whole bytes =
    let long : nat_beq (byte_len (hex digest)) 64 ≡ true =
      (nat_beq_iff (byte_len (hex digest)) 64).1 (omega (arith, length-hex digest bytes, whole)) in
    rw (decode_hex_32, long) (decode_pairs-hex digest bytes)
