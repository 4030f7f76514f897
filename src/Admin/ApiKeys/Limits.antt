-- ===== src/Admin/ApiKeys/Limits.antt =====
-- The list of models that a key may call, `normalize_allowed_models` in src/admin/account_api.rs.
use lite_agentify.Prelude.{
  String, Bool, true, false, ◌||◌, ◌≡◌, ◌≤◌, refl, sym, ap, ◌∙◌, inl, inr, Option, none, some, List,
  [], ◌∷◌, ◌++◌, any, length, is_empty, ltb, ◌==◌, string_eq, if◌then◌else◌, Result, ok, err, arith,
  Bool-cases, Option-cases, eq_of_beq, subst, unwrap_or, eq_iff,
}
use lite_agentify.Prelude.Text.{trim, is_empty_text}
use lite_agentify.Admin.ApiKeys.{normalize_names, normalize_allowed_models}

-- No name stands twice.
abbrev pub IsUnique : List String → Type 0
IsUnique [] = Unit
IsUnique (n ∷ ns) = (any (λ m. m == n) ns ≡ false) × IsUnique ns

any-snoc :
    (p : String → Bool) (ns : List String) (n : String) → any p (ns ++ (n ∷ [])) ≡ (any p ns || p n)
any-snoc p [] n = ground arith
any-snoc p (m ∷ ms) n = ground (arith, any-snoc p ms n)

snoc-IsUnique :
    (ns : List String) (n : String)
    → IsUnique ns
    → any (λ m. m == n) ns ≡ false
    → IsUnique (ns ++ (n ∷ []))
snoc-IsUnique [] n h fresh = (refl, tt)
snoc-IsUnique (m ∷ ms) n (alone, h) fresh = (
  any-snoc (λ k. k == m) ms n ∙ ground (arith, alone, fresh, eq_iff n m, eq_iff m n),
  snoc-IsUnique ms n h (ground (arith, fresh)),
)

ok_injective :
    {ns ms : List String}
    → ◌≡◌ {A = Result String (Option (List String))} (ok (some ns)) (ok (some ms))
    → ns ≡ ms
ok_injective {ns = ns} h = ap (λ r. elim r [ ok o ↦ unwrap_or o ns | err e ↦ ns ]) h

nonempty-length : (ns : List String) → is_empty ns ≡ false → 1 ≤ length ns
nonempty-length [] h = cc
nonempty-length (n ∷ ns) h = omega arith

-- One round of the loop.
abbrev add_name : String → List String → List String
add_name name normalized =
    if any (λ existing. existing == name) normalized then normalized else normalized ++ (name ∷ [])

add_name-IsUnique : (name : String) (ns : List String) → IsUnique ns → IsUnique (add_name name ns)
add_name-IsUnique name ns h = elim (Bool-cases (any (λ m. m == name) ns)) [
  | inl there ↦ rw there h
  | inr fresh ↦ rw fresh (snoc-IsUnique ns name h fresh)
]

any-found :
    (p : String → Bool) (name : String) (ns : List String)
    → any (λ m. m == name) ns ≡ true
    → p name ≡ true
    → any p ns ≡ true
any-found p name [] h k = cc
any-found p name (m ∷ ms) h k = elim (Bool-cases (m == name)) [
  | inl same ↦ let holds = ap p (eq_of_beq m name same) ∙ k in ground (arith, holds)
  | inr differ ↦ ground (arith, any-found p name ms (ground (arith, h, differ)) k)
]

any-add_name :
    (p : String → Bool) (name : String) (ns : List String)
    → any p (add_name name ns) ≡ (any p ns || p name)
any-add_name p name ns = elim (Bool-cases (any (λ m. m == name) ns)) [
  | inr fresh ↦ rw fresh (any-snoc p ns name)
  | inl there ↦ rw there (elim (Bool-cases (p name)) [
    | inr fails ↦ ground (arith, fails)
    | inl passes ↦ let found = any-found p name ns there passes in ground (arith, passes, found)
  ])
]

module _ (p : String → Bool) where
  -- What the loop ends with: unique names, each that was there before or is a trimmed name.
  loop :
      (names normalized out : List String)
      → normalize_names names normalized ≡ some out
      → IsUnique normalized
      → IsUnique out
        × (any p out ≡ (any p normalized || any (λ given. p (trim given)) names))
        × (any (λ given. is_empty_text (trim given)) names ≡ false)
  unfolding normalize_names
  loop [] normalized out e h =
      let same : normalized ≡ out = ap (λ o. unwrap_or o normalized) e in
      (subst IsUnique same h, sym (ap (any p) same) ∙ ground arith, refl)
  loop (given ∷ names) normalized out e h = elim (Bool-cases (is_empty_text (trim given))) [
    | inl blank ↦
        let stops : normalize_names (given ∷ names) normalized ≡ none =
          rw (normalize_names, blank) refl in
        absurd (cc (sym stops ∙ e))
    | inr named ↦
        let next = add_name (trim given) normalized in
        let step : normalize_names (given ∷ names) normalized ≡ normalize_names names next =
          rw (normalize_names, named) refl in
        let (unique, members, nonblank) =
          loop names next out (sym step ∙ e) (add_name-IsUnique (trim given) normalized h) in
        (
          unique,
          members ∙ rw (any-add_name p (trim given) normalized) (ground arith),
          ground (arith, named, nonblank),
        )
  ]

-- An accepted list of models has no name twice, between one and 200 names, none of them blank, and a
-- name is in it exactly if it is one of the given ones, trimmed.
pub normalize_allowed_models_accepts :
    (names out : List String) (name : String)
    → normalize_allowed_models (some names) ≡ ok (some out)
    → IsUnique out
      × (1 ≤ length out)
      × (length out ≤ 200)
      × (any is_empty_text out ≡ false)
      × (any (λ m. m == name) out ≡ any (λ given. trim given == name) names)
unfolding normalize_allowed_models
normalize_allowed_models_accepts names out name h = elim (Option-cases (normalize_names names [])) [
  | inl blank ↦
      let refused : normalize_allowed_models (some names)
          ≡ err "allowed_models cannot contain empty names" =
        rw (normalize_allowed_models, blank) refl in
      absurd (cc (sym refused ∙ h))
  | inr (normalized, ends) ↦ elim (Bool-cases (is_empty normalized)) [
    | inl nothing ↦ absurd (cc (rw (normalize_allowed_models, ends, nothing) at h))
    | inr some_ ↦ elim (Bool-cases (ltb 200 (length normalized))) [
      | inl long ↦ absurd (cc (rw (normalize_allowed_models, ends, some_, long) at h))
      | inr short ↦
          let accepted : normalize_allowed_models (some names) ≡ ok (some normalized) =
            rw (normalize_allowed_models, ends, some_, short) refl in
          let same : normalized ≡ out = ok_injective (sym accepted ∙ h) in
          let by_name = loop (λ m. m == name) names [] normalized ends tt in
          let by_blank = loop is_empty_text names [] normalized ends tt in
          subst
            (λ ns.
              IsUnique ns
              × (1 ≤ length ns)
              × (length ns ≤ 200)
              × (any is_empty_text ns ≡ false)
              × (any (λ m. m == name) ns ≡ any (λ given. trim given == name) names))
            same
            (
              by_name.0,
              nonempty-length normalized some_,
              ground (arith, short),
              by_blank.1 ∙ by_blank.2,
              by_name.1,
            )
    ]
  ]
]
