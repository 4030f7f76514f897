-- ===== src/Account/Keys/Random.antt =====
-- What `generate_api_key` of src/account/keys.rs makes of the random bytes.
use Prim.Native.Char.{len_utf8}
use Prim.Native.String.{◌++◌ as append, ◌∷◌ as push, char_at}
use Prim.Native.String.append as appended
use Prim.Native.String.len
use text.Mathlib.TextPositions.{len-append}
use text.Mathlib.TextLemmas.{append_assoc as text_append_assoc}
use mathlib.Core.List.{append-nil, append_assoc}
use lite_agentify.Prelude.{
  ℕ, zero, suc, ◌+◌, ◌%◌, ◌<◌, ◌≤◌, Bool, true, ◌≡◌, refl, sym, ap, ◌∙◌, String, some, List, [],
  ◌∷◌, ◌++◌, length, take, filter, arith, nat_beq, ltb, all_below, all_below_apply, inl, inr,
  Bool-cases, length-append, length-take, take_front, take_all, take-append_take, filter-append,
}
use lite_agentify.Prelude.Text.{byte_len}
use lite_agentify.Account.Keys.{
  alphabet, key_body_len, is_drawn, letter, is_whole, draw_letters, generate_loop, generate_api_key,
}

-- The letters of some draws.
unfoldable pub letters : List ℕ → String
letters [] = ""
letters (b ∷ bs) = push (letter b) (letters bs)

abbrev is_ascii_letter : ℕ → Bool
is_ascii_letter n = nat_beq (len_utf8 (char_at alphabet n)) 1

all_ascii : all_below 62 is_ascii_letter ≡ true
all_ascii = refl

len-letter : (b : ℕ) → len_utf8 (letter b) ≡ 1
len-letter b = ground (arith, all_below_apply 62 is_ascii_letter all_ascii (b % 62) (omega arith))

len-letters : (bs : List ℕ) → byte_len (letters bs) ≡ length bs
unfolding letters
len-letters [] = refl
len-letters (b ∷ bs) =
    len.cons (letter b) (letters bs) ∙ omega (arith, len-letter b, len-letters bs)

letters-append : (bs cs : List ℕ) → letters (bs ++ cs) ≡ append (letters bs) (letters cs)
unfolding letters
letters-append [] cs = sym (appended.nil (letters cs))
letters-append (b ∷ bs) cs =
    ap (push (letter b)) (letters-append bs cs)
    ∙ sym (appended.cons (letter b) (letters bs) (letters cs))

-- The key after some letters are drawn.
abbrev pub key_of : List ℕ → String
key_of draws = append "la-" (letters draws)

len-key_of : (draws : List ℕ) → byte_len (key_of draws) ≡ 3 + length draws
len-key_of draws = len-append "la-" (letters draws) ∙ omega (arith, len-letters draws)

key_of-snoc :
    (draws : List ℕ) (b : ℕ)
    → append (key_of draws) (push (letter b) "") ≡ key_of (draws ++ (b ∷ []))
unfolding letters
key_of-snoc draws b =
    text_append_assoc "la-" (letters draws) (push (letter b) "")
    ∙ ap (append "la-") (sym (letters-append draws (b ∷ [])))

draw_letters-key_of :
    (bytes draws : List ℕ)
    → length draws < key_body_len
    → draw_letters bytes (key_of draws)
      ≡ key_of (take key_body_len (draws ++ filter is_drawn bytes))
unfolding draw_letters
draw_letters-key_of [] draws short = ap key_of (
    sym
      (take_all 40 (draws ++ []) (omega (arith, length-append draws [], short)) ∙ append-nil draws))
draw_letters-key_of (b ∷ bs) draws short = elim (Bool-cases (is_drawn b)) [
  | inr again ↦ rw (draw_letters, again) (draw_letters-key_of bs draws short)
  | inl drawn ↦
      let longer = key_of-snoc draws b in
      let one_more = length-append draws (b ∷ []) in
      let shift = append_assoc draws (b ∷ []) (filter is_drawn bs) in
      elim (Bool-cases (is_whole (key_of (draws ++ (b ∷ []))))) [
        | inl whole ↦
            let full : length (draws ++ (b ∷ [])) ≡ 40 =
              ground (arith, len-key_of (draws ++ (b ∷ [])), whole) in
            rw (draw_letters, drawn, ap is_whole longer, whole)
              (longer
                ∙ ap key_of (
                    sym (
                      ap (take 40) (sym shift)
                      ∙ take_front 40 (draws ++ (b ∷ [])) (filter is_drawn bs) full)))
        | inr part ↦
            let room : length (draws ++ (b ∷ [])) < 40 =
              ground (arith, len-key_of (draws ++ (b ∷ [])), part, one_more) in
            rw (draw_letters, drawn, ap is_whole longer, part)
              (ap (draw_letters bs) longer
                ∙ draw_letters-key_of bs (draws ++ (b ∷ [])) room
                ∙ ap (λ zs. key_of (take 40 zs)) shift)
      ]
]

-- The bytes of some rounds.
abbrev pub rounds : ℕ → (ℕ → List ℕ) → ℕ → List ℕ
rounds zero fill_bytes round = []
rounds (suc n) fill_bytes round = fill_bytes round ++ rounds n fill_bytes (suc round)

is_short-key_of : (draws : List ℕ) → ltb (byte_len (key_of draws)) 43 ≡ ltb (length draws) 40
is_short-key_of draws = ground (arith, len-key_of draws)

generate_loop-key_of :
    (fuel : ℕ) (fill_bytes : ℕ → List ℕ) (round : ℕ) (draws : List ℕ)
    → length draws ≤ key_body_len
    → key_body_len ≤ length draws + length (filter is_drawn (rounds fuel fill_bytes round))
    → generate_loop fuel fill_bytes round (key_of draws)
      ≡ some (key_of (take key_body_len (draws ++ filter is_drawn (rounds fuel fill_bytes round))))
unfolding generate_loop
generate_loop-key_of zero fill_bytes round draws bound enough =
    let full : length draws ≡ 40 = omega (arith, bound, enough) in
    rw (generate_loop, is_short-key_of draws, ap (λ n. ltb n 40) full)
      (ap (λ zs. some (key_of zs)) (sym (take_front 40 draws [] full)))
generate_loop-key_of (suc fuel) fill_bytes round draws bound enough =
    let first = filter is_drawn (fill_bytes round) in
    let later = rounds fuel fill_bytes (suc round) in
    let split = filter-append is_drawn (fill_bytes round) later in
    elim (Bool-cases (ltb (length draws) 40)) [
      | inr full ↦
          rw (generate_loop, is_short-key_of draws, full)
            (ap (λ zs. some (key_of zs))
              (sym (
                take_front 40 draws (filter is_drawn (fill_bytes round ++ later))
                  (ground (arith, full, bound)))))
      | inl short ↦
          let room : length draws < 40 = ground (arith, short) in
          let now = take 40 (draws ++ first) in
          let size = length-take 40 (draws ++ first) in
          let left : 40 ≤ length now + length (filter is_drawn later) = omega (
            arith,
            size,
            length-append draws first,
            enough,
            ap length split,
            length-append first (filter is_drawn later),
          ) in
          let later_key =
            generate_loop-key_of fuel fill_bytes (suc round) now (omega (arith, size)) left in
          rw
            (
              generate_loop,
              is_short-key_of draws,
              short,
              draw_letters-key_of (fill_bytes round) draws room,
            )
            (later_key
              ∙ ap (λ zs. some (key_of zs))
                  (take-append_take 40 (draws ++ first) (filter is_drawn later)
                    ∙ ap (take 40) (
                        append_assoc draws first (filter is_drawn later)
                        ∙ ap (λ zs. draws ++ zs) (sym split))))
    ]

-- A key is made as soon as the rounds have given forty usable bytes, whatever else they gave: `la-`
-- and the letters of the first forty of them, 43 bytes in all.
pub generate_api_key-draws :
    (rounds_left : ℕ) (fill_bytes : ℕ → List ℕ)
    → key_body_len ≤ length (filter is_drawn (rounds rounds_left fill_bytes 0))
    → (generate_api_key rounds_left fill_bytes
        ≡ some (key_of (take key_body_len (filter is_drawn (rounds rounds_left fill_bytes 0)))))
      × (byte_len (key_of (take key_body_len (filter is_drawn (rounds rounds_left fill_bytes 0))))
          ≡ 43)
unfolding generate_api_key letters
generate_api_key-draws rounds_left fill_bytes enough =
    let draws = filter is_drawn (rounds rounds_left fill_bytes 0) in
    (
      generate_loop-key_of rounds_left fill_bytes 0 [] (omega arith) (omega (arith, enough)),
      len-key_of (take 40 draws) ∙ omega (arith, length-take 40 draws, enough),
    )
