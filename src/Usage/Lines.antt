-- ===== src/Usage/Lines.antt =====
-- The lines of a byte stream, and the buffer loop of `UsageObserver::feed` in
-- src/usage/observer.rs.
use lite_agentify.Prelude.{
  ℕ, ◌<◌, ◌≡◌, refl, ap, ◌∙◌, none, some, List, [], ◌∷◌, ◌++◌, arith, inl, inr, Bool-cases,
  Option-cases, length, if◌then◌else◌, ◌==◌, nat_eq,
}
use lite_agentify.Json.{Bytes}
use lite_agentify.Usage.{drain_line}

-- A line that begins with `b`, given the lines and the remainder of what follows `b`.
abbrev pub cons_byte : ℕ → List Bytes × Bytes → List Bytes × Bytes
cons_byte b ([], rest) = ([], b ∷ rest)
cons_byte b (line ∷ lines, rest) = ((b ∷ line) ∷ lines, rest)

-- One byte in front of a text that is cut already.
abbrev pub cut_step : ℕ → List Bytes × Bytes → List Bytes × Bytes
cut_step b (lines, rest) =
    if b == b'\n' then ((b ∷ []) ∷ lines, rest) else cons_byte b (lines, rest)

-- The complete lines of a text, each with its newline, and what follows the last newline.
abbrev pub cut : Bytes → List Bytes × Bytes
cut [] = ([], [])
cut (b ∷ bs) = cut_step b (cut bs)

-- Cutting a text and then more of it, behind what was left over.
abbrev after : List Bytes × Bytes → Bytes → List Bytes × Bytes
after (lines, rest) ys = let q = cut (rest ++ ys) in (lines ++ q.0, q.1)

after-cut_step :
    (b : ℕ) (p : List Bytes × Bytes) (ys : Bytes)
    → cut_step b (after p ys) ≡ after (cut_step b p) ys
after-cut_step b ([], rest) ys = ground arith
after-cut_step b (line ∷ lines, rest) ys = ground arith

pub cut-append : (xs ys : Bytes) → cut (xs ++ ys) ≡ after (cut xs) ys
cut-append [] ys = refl
cut-append (b ∷ bs) ys = ap (cut_step b) (cut-append bs ys) ∙ after-cut_step b (cut bs) ys

IsCut : List Bytes × Bytes → Type 0
IsCut p = cut p.1 ≡ ([], p.1)

IsCut-cut_step : (b : ℕ) (p : List Bytes × Bytes) → IsCut p → IsCut (cut_step b p)
unfolding IsCut
IsCut-cut_step b ([], rest) h = ground arith
IsCut-cut_step b (line ∷ lines, rest) h = ground arith

pub cut_rest : (xs : Bytes) → cut (cut xs).1 ≡ ([], (cut xs).1)
unfolding IsCut
cut_rest [] = refl
cut_rest (b ∷ bs) = IsCut-cut_step b (cut bs) (cut_rest bs)

-- `drain_line` takes the first of the lines.
pub drain_line-cut :
    (bs : Bytes)
    → cut bs ≡ (elim (drain_line bs) [
      | none ↦ ([], bs)
      | some (line, rest) ↦ (line ∷ (cut rest).0, (cut rest).1)
    ])
unfolding drain_line
drain_line-cut [] = refl
drain_line-cut (b ∷ bs) = elim (Bool-cases (b == b'\n')) [
  | inl newline ↦ ground arith
  | inr other ↦ elim (Option-cases (drain_line bs)) [
    | inl e ↦ ground (arith, drain_line-cut bs)
    | inr (p, e) ↦ ground (arith, drain_line-cut bs)
  ]
]

pub drain_line-length :
    (bs line rest : Bytes) → drain_line bs ≡ some (line, rest) → length rest < length bs
unfolding drain_line
drain_line-length [] line rest h = absurd (cc h)
drain_line-length (b ∷ bs) line rest h = elim (Option-cases (drain_line bs)) [
  | inl e ↦ ground arith
  | inr (p, e) ↦ ground (arith, drain_line-length bs p.0 p.1)
]
