-- ===== src/Prelude/Order.antt =====
-- `Ord` of texts: the order by the numbers of the characters, which is that of the bytes.
use Prim.Native.Nat.{ℕ, Ordering, compare as compare_nat}
use Prim.Native.Char.{code}
use Prim.Native.String.{String, [], ◌∷◌, compare, then}
use Prim.Native.String.compare
use mathlib.Core.Path.{◌≡◌, refl, sym, ap, ◌∙◌}
use mathlib.Core.Bool.{Bool, true, false}
use native.Mathlib.Omega.{arith}

abbrev pub text_leb : String → String → Bool
text_leb s t = elim (compare s t) [ Ordering.gt ↦ false | _ ↦ true ]

abbrev turn : Ordering → Ordering
turn Ordering.lt = Ordering.gt
turn Ordering.eq = Ordering.eq
turn Ordering.gt = Ordering.lt

then-turn : (o p : Ordering) → then (turn o) (turn p) ≡ turn (then o p)
then-turn Ordering.lt p = refl
then-turn Ordering.eq p = refl
then-turn Ordering.gt p = refl

numbers-turn : (m n : ℕ) → compare_nat n m ≡ turn (compare_nat m n)
numbers-turn m n = ground arith

compare-turn : (s t : String) → compare t s ≡ turn (compare s t)
compare-turn [] [] = compare.nil-nil ∙ sym (ap turn compare.nil-nil)
compare-turn [] (d ∷ t) = compare.cons-nil d t ∙ sym (ap turn (compare.nil-cons d t))
compare-turn (c ∷ s) [] = compare.nil-cons c s ∙ sym (ap turn (compare.cons-nil c s))
compare-turn (c ∷ s) (d ∷ t) =
    compare.cons-cons d c t s
    ∙ (λ i. then (numbers-turn (code c) (code d) i) (compare-turn s t i))
    ∙ then-turn (compare_nat (code c) (code d)) (compare s t)
    ∙ sym (ap turn (compare.cons-cons c d s t))

pub text_leb-total : (s t : String) → text_leb s t ≡ false → text_leb t s ≡ true
text_leb-total s t h = ground (arith, compare-turn s t)
