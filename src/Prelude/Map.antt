-- ===== src/Prelude/Map.antt =====
-- `std::collections::HashMap` as an association list. The operations keep the keys distinct; the
-- order of the entries, which the source's map leaves unspecified, is that of first insertion.
use mathlib.Core.Path.{◌≡◌, refl, subst, ap, sym, ◌∙◌}
use mathlib.Core.Logic.{◌≢◌, inl, inr}
use mathlib.Core.Bool.{Bool}
use mathlib.Core.Option.{Option, none, some}
use mathlib.Core.List.{List, [], ◌∷◌}
use native.Mathlib.Omega.{arith}
use lite_agentify.Prelude.Tests.{
  Eq, ◌==◌, if◌then◌else◌, is_some, beq_refl, beq_ne, eq_of_beq, ne_of_beq, Bool-cases,
}
use lite_agentify.Prelude.Lists.{length}
use Prim.Native.Nat.{◌+◌, ◌≤◌}

abbrev pub Map {ℓ κ} : Type ℓ → Type κ → Type (ℓ ⊔ κ)
Map K V = List (K × V)

-- What is left of an entry that a test is put to.
abbrev pub keep {μ} : {W : Type μ} → (W → Bool) → Option W → Option W
keep p none = none
keep p (some v) = if p v then some v else none

module _ {ℓ κ} {K : Type ℓ} {V : Type κ} ⦃e : Eq K⦄ where
  unfoldable pub get : K → Map K V → Option V
  get k [] = none
  get k ((j, v) ∷ m) = if j == k then some v else get k m

  abbrev pub contains_key : K → Map K V → Bool
  contains_key k m = is_some (get k m)

  unfoldable pub insert : K → V → Map K V → Map K V
  insert key value [] = (key, value) ∷ []
  insert key value ((old, kept) ∷ rest) =
      if old == key then (key, value) ∷ rest else (old, kept) ∷ insert key value rest

  unfoldable pub remove : K → Map K V → Map K V
  remove k [] = []
  remove k ((j, w) ∷ m) = let rest = remove k m in if j == k then rest else (j, w) ∷ rest

  -- `HashMap::retain`.
  unfoldable pub retain : (K → V → Bool) → Map K V → Map K V
  retain p [] = []
  retain p ((j, w) ∷ m) = let rest = retain p m in if p j w then (j, w) ∷ rest else rest

  pub get-insert :
      (k j : K) (v : V) (m : Map K V) → get j (insert k v m) ≡ (if k == j then some v else get j m)
  unfolding get insert
  get-insert k j v [] = refl
  get-insert k j v ((i, w) ∷ m) =
      ground (arith, e.agrees_iff k j, e.agrees_iff i k, e.agrees_iff i j, get-insert k j v m)

  pub get-insert_self : (k : K) (v : V) (m : Map K V) → get k (insert k v m) ≡ some v
  get-insert_self k v m = simp (get-insert, beq_refl k)

  pub get-insert_ne : (k j : K) (v : V) (m : Map K V) → k ≢ j → get j (insert k v m) ≡ get j m
  get-insert_ne k j v m h = simp (get-insert, beq_ne k j h)

  pub get-remove : (k j : K) (m : Map K V) → get j (remove k m) ≡ (if k == j then none else get j m)
  unfolding get remove
  get-remove k j [] = ground arith
  get-remove k j ((i, w) ∷ m) =
      ground (arith, e.agrees_iff k j, e.agrees_iff i k, e.agrees_iff i j, get-remove k j m)

  -- No key stands twice.
  abbrev pub IsDistinct : Map K V → Type κ
  IsDistinct [] = Unit
  IsDistinct ((j, w) ∷ m) = (get j m ≡ none) × IsDistinct m

  pub get-retain :
      (p : K → V → Bool) (k : K) (m : Map K V)
      → IsDistinct m
      → get k (retain p m) ≡ keep (p k) (get k m)
  unfolding get retain
  get-retain p k [] h = refl
  get-retain p k ((j, w) ∷ m) h =
      let rest = get-retain p k m h.1 in
      elim (Bool-cases (j == k)) [
        | inl same ↦
            let q : j ≡ k = eq_of_beq j k same in
            let alone : get k m ≡ none = subst (λ i. get i m ≡ none) q h.0 in
            let moved : p j w ≡ p k w = ap (λ i. p i w) q in
            elim (Bool-cases (p j w)) [
              | inl kept ↦ rw (kept, same) (ground (arith, moved, kept))
              | inr dropped ↦ rw (dropped, same) (ground (arith, moved, dropped, rest, alone))
            ]
        | inr differ ↦ elim (Bool-cases (p j w)) [
          | inl kept ↦ rw (kept, differ) rest
          | inr dropped ↦ rw (dropped, differ) rest
        ]
      ]

  pub get-retain-none :
      (p : K → V → Bool) (k : K) (m : Map K V) → get k m ≡ none → get k (retain p m) ≡ none
  unfolding get retain
  get-retain-none p k [] h = refl
  get-retain-none p k ((j, w) ∷ m) h = ground (arith, get-retain-none p k m)

  pub insert-IsDistinct : (k : K) (v : V) (m : Map K V) → IsDistinct m → IsDistinct (insert k v m)
  unfolding insert get
  insert-IsDistinct k v [] h = (refl, tt)
  insert-IsDistinct k v ((j, w) ∷ m) h = elim (Bool-cases (j == k)) [
    | inl same ↦ rw same (subst (λ i. get i m ≡ none) (eq_of_beq j k same) h.0, h.1)
    | inr differ ↦ rw differ (
      get-insert k j v m ∙ rw (beq_ne k j (λ q. ne_of_beq j k differ (sym q))) h.0,
      insert-IsDistinct k v m h.1,
    )
  ]

  pub remove-IsDistinct : (k : K) (m : Map K V) → IsDistinct m → IsDistinct (remove k m)
  unfolding remove
  remove-IsDistinct k [] h = tt
  remove-IsDistinct k ((j, w) ∷ m) h = elim (Bool-cases (j == k)) [
    | inl same ↦ rw same (remove-IsDistinct k m h.1)
    | inr differ ↦ rw differ (
      get-remove k j m ∙ rw (beq_ne k j (λ q. ne_of_beq j k differ (sym q))) h.0,
      remove-IsDistinct k m h.1,
    )
  ]

  pub retain-IsDistinct : (p : K → V → Bool) (m : Map K V) → IsDistinct m → IsDistinct (retain p m)
  unfolding retain
  retain-IsDistinct p [] h = tt
  retain-IsDistinct p ((j, w) ∷ m) h = elim (Bool-cases (p j w)) [
    | inl kept ↦ rw kept (get-retain-none p j m h.0, retain-IsDistinct p m h.1)
    | inr dropped ↦ rw dropped (retain-IsDistinct p m h.1)
  ]

  pub length-insert :
      (k : K) (v : V) (m : Map K V)
      → length (insert k v m) ≡ (if contains_key k m then length m else length m + 1)
  unfolding insert get
  length-insert k v [] = refl
  length-insert k v ((j, w) ∷ m) = ground (arith, length-insert k v m)

  pub length-remove : (k : K) (m : Map K V) → length (remove k m) ≤ length m
  unfolding remove
  length-remove k [] = omega arith
  length-remove k ((j, w) ∷ m) = ground (arith, length-remove k m)

  pub length-retain : (p : K → V → Bool) (m : Map K V) → length (retain p m) ≤ length m
  unfolding retain
  length-retain p [] = omega arith
  length-retain p ((j, w) ∷ m) = ground (arith, length-retain p m)
