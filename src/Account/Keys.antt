-- ===== src/Account/Keys.antt =====
-- The texts of API keys (src/account/keys.rs, and `decode_hex_32` of src/account/store.rs).
pub mod Hex
pub mod Random
use Prim.Native.Char.{Char, code}
use Prim.Native.String.{◌++◌ as append, ◌∷◌ as push, char_at}
use lite_agentify.Prelude.{
  ℕ, zero, suc, ◌+◌, ◌-◌, ◌*◌, ◌/◌, ◌%◌, String, Bool, true, false, ◌&&◌, Option, none, some, List,
  [], ◌∷◌, ltb, leb, nat_beq, if◌then◌else◌, and_then,
}
use lite_agentify.Prelude.Text.{byte_len}

abbrev pub alphabet : String
alphabet = "ABCDEFGHIJKLMNOPQRSTUVWXYZabcdefghijklmnopqrstuvwxyz0123456789"

abbrev pub key_body_len : ℕ
key_body_len = 40

abbrev pub prefix_len : ℕ
prefix_len = 8

-- The byte is drawn again unless it is below four times the length of the alphabet.
abbrev pub is_drawn : ℕ → Bool
is_drawn byte = ltb byte (byte_len alphabet * 4)

abbrev pub letter : ℕ → Char
letter byte = char_at alphabet (byte % byte_len alphabet)

abbrev pub is_whole : String → Bool
is_whole key = nat_beq (byte_len key) (3 + key_body_len)

-- `for byte in bytes`.
unfoldable pub draw_letters : List ℕ → String → String
draw_letters [] key = key
draw_letters (byte ∷ bytes) key = elim (is_drawn byte) [
  | true ↦
      let longer = append key (push (letter byte) "") in
      elim (is_whole longer) [ true ↦ longer | false ↦ draw_letters bytes longer ]
  | false ↦ draw_letters bytes key
]

-- The `while` loop, with a bound on its rounds; `fill_bytes` gives the bytes of each round.
unfoldable pub generate_loop : (fuel : ℕ) → (fill_bytes : ℕ → List ℕ) → ℕ → String → Option String
unfolding draw_letters
generate_loop zero fill_bytes round key =
    if ltb (byte_len key) (3 + key_body_len) then none else some key
generate_loop (suc fuel) fill_bytes round key = elim (ltb (byte_len key) (3 + key_body_len)) [
  | true ↦ generate_loop fuel fill_bytes (suc round) (draw_letters (fill_bytes round) key)
  | false ↦ some key
]

unfoldable pub generate_api_key : (fuel : ℕ) → (fill_bytes : ℕ → List ℕ) → Option String
unfolding generate_loop
generate_api_key fuel fill_bytes = generate_loop fuel fill_bytes 0 "la-"

abbrev pub hex_digit : ℕ → Char
hex_digit nibble = char_at "0123456789abcdef" nibble

-- The fold appends two digits for each byte.
unfoldable pub hex : List ℕ → String
hex [] = ""
hex (byte ∷ bytes) = push (hex_digit (byte / 16)) (push (hex_digit (byte % 16)) (hex bytes))

-- `char::to_digit(16)` of a code point.
unfoldable pub to_digit : ℕ → Option ℕ
to_digit c =
    if leb b'0' c && leb c b'9'
    then some (c - b'0')
    else if leb b'a' c && leb c b'f'
    then some (c - b'a' + 10)
    else if leb b'A' c && leb c b'F'
    then some (c - b'A' + 10)
    else none

-- The loop of `decode_hex_32` over pairs. A byte of a character beyond ASCII is no digit, as the
-- character is none.
unfoldable pub decode_pairs : String → Option (List ℕ)
unfolding to_digit
decode_pairs String.[] = some []
decode_pairs (String.◌∷◌ c String.[]) = none
decode_pairs (String.◌∷◌ c (String.◌∷◌ d rest)) = and_then (to_digit (code c)) λ high.
    and_then (to_digit (code d))
      λ low. and_then (decode_pairs rest) λ out. some ((high * 16 + low) ∷ out)

unfoldable pub decode_hex_32 : String → Option (List ℕ)
unfolding decode_pairs
decode_hex_32 value = if nat_beq (byte_len value) 64 then decode_pairs value else none

unfoldable take_chars : ℕ → String → String
take_chars zero s = ""
take_chars (suc n) String.[] = ""
take_chars (suc n) (String.◌∷◌ c s) = push c (take_chars n s)

unfoldable pub key_prefix : String → String
unfolding take_chars
key_prefix key = take_chars prefix_len key
