-- ===== src/State/Presented.antt =====
-- The keys that a request presents, `gateway_key_candidates` of src/state.rs.
use Prim.Native.Char.{Char, code}
use Prim.Native.String.{◌++◌, ◌∷◌ as push}
use Prim.Native.String.append
use text.Mathlib.TextEquality.{Char-path}
use lite_agentify.Prelude.{
  ◌++◌ as ◌++ₗ◌, ◌⊎◌, Bool, Bool-cases, unwrap_or, eq_of_beq, nat_beq, nat_beq_iff, ap, ◌∙◌, sym,
  bytes_eq, String, true, ◌≡◌, refl, Option, none, some, List, [], ◌∷◌, arith, inl, inr,
  Option-cases, nat_eq, beq_refl, any, ◌==◌, string_eq, bytes_eq,
}
use lite_agentify.Prelude.Text.{strip_prefix}
use lite_agentify.State.{present, bearer_candidates, HeaderText, gateway_key_candidates}

pub strip_prefix-append : (p s : String) → strip_prefix p (p ++ s) ≡ some s
unfolding strip_prefix
strip_prefix-append String.[] s = rw (append.nil s)
strip_prefix-append (String.◌∷◌ c p) s =
    rw (append.cons c p s) (rw (beq_refl (code c)) (strip_prefix-append p s))

strip_prefix-some : (p v s : String) → strip_prefix p v ≡ some s → v ≡ p ++ s
unfolding strip_prefix
strip_prefix-some String.[] v s h = ground (arith, append.nil s)
strip_prefix-some (String.◌∷◌ p ps) String.[] s h = cc
strip_prefix-some (String.◌∷◌ p ps) (String.◌∷◌ c v) s h =
    elim (Bool-cases (nat_beq (code p) (code c))) [
      | inl same ↦
          let rest = strip_prefix-some ps v s (ground (arith, same)) in
          let first : p ≡ c = Char-path p c ((nat_beq_iff (code p) (code c)).0 same) in
          ap (λ (d : Char). push d v) (sym first) ∙ ap (push p) rest ∙ sym (append.cons p ps s)
      | inr differ ↦ absurd (ground (arith, differ))
    ]

-- What an `Authorization` header offers: its value, or the value behind a scheme.
abbrev pub Wears : String → String → Type 0
Wears value key = (value ≡ key) ⊎ (value ≡ "Bearer " ++ key) ⊎ (value ≡ "bearer " ++ key)

-- The headers of a request present a key.
abbrev pub Presents : HeaderText → String → Type 0
Presents headers key =
    ((value : String) × (headers "authorization" ≡ some value) × Wears value key)
    ⊎ (headers "x-api-key" ≡ some key)
    ⊎ (headers "api-key" ≡ some key)

without_scheme :
    (scheme value key : String)
    → (unwrap_or (strip_prefix scheme value) value == key) ≡ true
    → (value ≡ key) ⊎ (value ≡ scheme ++ key)
without_scheme scheme value key h = elim (Option-cases (strip_prefix scheme value)) [
  | inl other ↦ inl (eq_of_beq value key (ground (arith, other)))
  | inr (s, stripped) ↦
      let same : s ≡ key = eq_of_beq s key (ground (arith, stripped)) in
      inr (strip_prefix-some scheme value s stripped ∙ ap (λ k. scheme ++ k) same)
]

any-append {ℓ} :
    {A : Type ℓ} (p : A → Bool) (xs ys : List A)
    → any p (xs ++ₗ ys) ≡ true
    → (any p xs ≡ true) ⊎ (any p ys ≡ true)
any-append p [] ys h = inr h
any-append p (x ∷ xs) ys h = elim (Bool-cases (p x)) [
  | inl hit ↦ inl (ground (arith, hit))
  | inr miss ↦ elim (any-append p xs ys (ground (arith, miss))) [
    | inl left ↦ inl (ground (arith, left))
    | inr right ↦ inr right
  ]
]

present_key :
    (header : Option String) (key : String)
    → any (λ c. c == key) (present header) ≡ true
    → header ≡ some key
present_key none key h = cc
present_key (some value) key h = ap some (eq_of_beq value key (ground arith))

bearer_key :
    (header : Option String) (key : String)
    → any (λ c. c == key) (bearer_candidates header) ≡ true
    → (value : String) × (header ≡ some value) × Wears value key
bearer_key none key h = absurd (cc h)
bearer_key (some value) key h =
    elim (Bool-cases (unwrap_or (strip_prefix "Bearer " value) value == key)) [
      | inl upper ↦ (
        value,
        refl,
        elim (without_scheme "Bearer " value key upper) [
          | inl same ↦ inl same
          | inr scheme ↦ inr (inl scheme)
        ],
      )
      | inr other ↦ (
        value,
        refl,
        elim (without_scheme "bearer " value key (ground (arith, other))) [
          | inl same ↦ inl same
          | inr scheme ↦ inr (inr scheme)
        ],
      )
    ]

-- Every candidate stands in one of the headers.
pub candidate-Presents :
    (headers : HeaderText) (key : String)
    → any (λ c. c == key) (gateway_key_candidates headers) ≡ true
    → Presents headers key
unfolding gateway_key_candidates
candidate-Presents headers key h =
    let is_key : String → Bool = λ c. c == key in
    elim (any-append is_key (bearer_candidates (headers "authorization"))
      (present (headers "x-api-key") ++ₗ present (headers "api-key")) h) [
        | inl bearer ↦ inl (bearer_key (headers "authorization") key bearer)
        | inr other ↦
            elim (any-append is_key (present (headers "x-api-key")) (present (headers "api-key"))
              other) [
                | inl first ↦ inr (inl (present_key (headers "x-api-key") key first))
                | inr second ↦ inr (inr (present_key (headers "api-key") key second))
              ]
      ]

any-append_left {ℓ} :
    {A : Type ℓ} (p : A → Bool) (xs ys : List A) → any p xs ≡ true → any p (xs ++ₗ ys) ≡ true
any-append_left p [] ys h = absurd (cc h)
any-append_left p (x ∷ xs) ys h = elim (Bool-cases (p x)) [
  | inl hit ↦ rw hit refl
  | inr miss ↦ let rest = any-append_left p xs ys (ground (arith, h, miss)) in ground (arith, rest)
]

any-append_right {ℓ} :
    {A : Type ℓ} (p : A → Bool) (xs ys : List A) → any p ys ≡ true → any p (xs ++ₗ ys) ≡ true
any-append_right p [] ys h = h
any-append_right p (x ∷ xs) ys h = let rest = any-append_right p xs ys h in ground (arith, rest)

other_spelling : (s : String) → strip_prefix "bearer " ("Bearer " ++ s) ≡ none
unfolding strip_prefix
other_spelling s = ap (strip_prefix "bearer ") (append.cons "B" "earer " s) ∙ refl

-- A key that an `Authorization` header offers is tried.
Wears-candidate :
    (value key : String)
    → Wears value key
    → any (λ c. c == key) (bearer_candidates (some value)) ≡ true
Wears-candidate value key (inl same) = elim (Option-cases (strip_prefix "Bearer " value)) [
  | inl plain ↦ ground (arith, plain, same, beq_refl key)
  | inr (s, stripped) ↦
      let whole = strip_prefix-some "Bearer " value s stripped in
      let kept = ap (strip_prefix "bearer ") whole ∙ other_spelling s in
      ground (arith, kept, same, beq_refl key)
]
Wears-candidate value key (inr (inl upper)) =
    let stripped = ap (strip_prefix "Bearer ") upper ∙ strip_prefix-append "Bearer " key in
    ground (arith, stripped, beq_refl key)
Wears-candidate value key (inr (inr lower)) =
    let stripped = ap (strip_prefix "bearer ") lower ∙ strip_prefix-append "bearer " key in
    ground (arith, stripped, beq_refl key)

-- Every key that the headers present is tried.
pub Presents-candidate :
    (headers : HeaderText) (key : String)
    → Presents headers key
    → any (λ c. c == key) (gateway_key_candidates headers) ≡ true
unfolding gateway_key_candidates
Presents-candidate headers key (inl (value, header, wears)) =
    any-append_left (λ c. c == key) (bearer_candidates (headers "authorization")) _
      (ap (λ h. any (λ c. c == key) (bearer_candidates h)) header ∙ Wears-candidate value key wears)
Presents-candidate headers key (inr (inl first)) =
    any-append_right (λ c. c == key) (bearer_candidates (headers "authorization")) _
      (any-append_left (λ c. c == key) (present (headers "x-api-key")) _
        (ap (λ h. any (λ c. c == key) (present h)) first ∙ ground (arith, beq_refl key)))
Presents-candidate headers key (inr (inr second)) =
    any-append_right (λ c. c == key) (bearer_candidates (headers "authorization")) _
      (any-append_right (λ c. c == key) (present (headers "x-api-key")) _
        (ap (λ h. any (λ c. c == key) (present h)) second ∙ ground (arith, beq_refl key)))
