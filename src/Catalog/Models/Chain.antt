-- ===== src/Catalog/Models/Chain.antt =====
-- The rows of a chain of deployments (src/catalog/store.rs).
use lite_agentify.Prelude.{
  ℕ, suc, String, Bool, true, not, ◌≡◌, refl, ap, ◌∙◌, List, [], ◌∷◌, map, filter, ◌==◌, string_eq,
  leb, arith, beq_refl, any, All, Bool-cases, inl, inr, none, false,
}
use lite_agentify.Account.Database.{order_by, insert_by}
use lite_agentify.Catalog.Entity.{DeploymentRow}
use lite_agentify.Catalog.Models.{repeated}

abbrev pub pair_of : DeploymentRow → String × String
pair_of row = (row.provider_id, row.upstream_model)

abbrev pub is_of : String → DeploymentRow → Bool
is_of name row = row.model_name == name

-- The rows of a chain, with their priorities in order.
abbrev pub IsChain : String → ℕ → List DeploymentRow → List (String × String) → Type 0
IsChain name priority [] [] = Unit
IsChain name priority (row ∷ rows) (c ∷ chain) =
    (row.model_name ≡ name)
    × (pair_of row ≡ c)
    × (row.priority ≡ priority)
    × IsChain name (suc priority) rows chain
IsChain name priority [] (c ∷ chain) = ⊥
IsChain name priority (row ∷ rows) [] = ⊥

pub map-IsChain :
    (name : String) (n : ℕ) (rows : List DeploymentRow) (chain : List (String × String))
    → IsChain name n rows chain
    → map pair_of rows ≡ chain
map-IsChain name n [] [] h = refl
map-IsChain name n (r ∷ rs) (c ∷ cs) (named, pair, at, h) =
    ap (λ x. x ∷ map pair_of rs) pair ∙ ap (λ xs. c ∷ xs) (map-IsChain name (suc n) rs cs h)
map-IsChain name n [] (c ∷ cs) h = absurd h
map-IsChain name n (r ∷ rs) [] h = absurd h

pub filter-IsChain :
    (name : String) (n : ℕ) (rows : List DeploymentRow) (chain : List (String × String))
    → IsChain name n rows chain
    → (filter (is_of name) rows ≡ rows) × (filter (λ r. not (is_of name r)) rows ≡ [])
filter-IsChain name n [] [] h = (refl, refl)
filter-IsChain name n (r ∷ rs) (c ∷ cs) (named, pair, at, h) =
    let here : is_of name r ≡ true = ap (λ m. m == name) named ∙ beq_refl name in
    let rest = filter-IsChain name (suc n) rs cs h in
    (rw here (ap (λ xs. r ∷ xs) rest.0), rw here rest.1)
filter-IsChain name n [] (c ∷ cs) h = absurd h
filter-IsChain name n (r ∷ rs) [] h = absurd h

abbrev pub by_priority : DeploymentRow → DeploymentRow → Bool
by_priority r t = leb r.priority t.priority

pub order_by-IsChain :
    (name : String) (n : ℕ) (rows : List DeploymentRow) (chain : List (String × String))
    → IsChain name n rows chain
    → order_by by_priority rows ≡ rows
order_by-IsChain name n [] [] h = refl
order_by-IsChain name n (r ∷ []) (c ∷ []) h = refl
order_by-IsChain name n (r ∷ t ∷ rs) (c ∷ e ∷ cs) (named, pair, at, h) =
    let first : by_priority r t ≡ true = ground (arith, at, h.2) in
    ap (insert_by by_priority r) (order_by-IsChain name (suc n) (t ∷ rs) (e ∷ cs) h) ∙ rw first refl
order_by-IsChain name n [] (c ∷ cs) h = absurd h
order_by-IsChain name n (r ∷ rs) [] h = absurd h
order_by-IsChain name n (r ∷ []) (c ∷ e ∷ cs) h = absurd h.3
order_by-IsChain name n (r ∷ t ∷ rs) (c ∷ []) h = absurd h.3

pub filter_others :
    (name : String) (rows : List DeploymentRow)
    → (filter (is_of name) (filter (λ r. not (is_of name r)) rows) ≡ [])
      × (filter (λ r. not (is_of name r)) (filter (λ r. not (is_of name r)) rows)
          ≡ filter (λ r. not (is_of name r)) rows)
filter_others name [] = (refl, refl)
filter_others name (r ∷ rs) = ground (arith, filter_others name rs)

-- No name is listed twice.
abbrev pub Distinct : List String → Type 0
Distinct [] = Unit
Distinct (name ∷ names) = (any (λ other. name == other) names ≡ false) × Distinct names

abbrev pub providers_of : List (String × String) → List String
providers_of [] = []
providers_of ((provider_id, upstream_model) ∷ chain) = provider_id ∷ providers_of chain

-- Names of which none is among the seen.
abbrev IsNew : List String → List String → Type 0
IsNew seen names = All (λ name. any (λ p. p == name) seen ≡ false) names

IsNew-cons :
    (id : String) (seen names : List String)
    → IsNew (id ∷ seen) names
    → (any (λ other. id == other) names ≡ false) × IsNew seen names
IsNew-cons id seen [] h = (refl, tt)
IsNew-cons id seen (name ∷ names) (first, rest) =
    let (apart, others) = IsNew-cons id seen names rest in
    (ground (arith, first, apart), (ground (arith, first), others))

repeated-none :
    (chain : List (String × String)) (seen : List String)
    → repeated chain seen ≡ none
    → IsNew seen (providers_of chain) × Distinct (providers_of chain)
unfolding repeated
repeated-none [] seen h = (tt, tt)
repeated-none ((id, upstream) ∷ chain) seen h = elim (Bool-cases (any (λ p. p == id) seen)) [
  | inl twice ↦ absurd (ground (arith, twice))
  | inr first ↦
      let (fresh, distinct) = repeated-none chain (id ∷ seen) (ground (arith, first)) in
      let (apart, others) = IsNew-cons id seen (providers_of chain) fresh in
      ((first, others), (apart, distinct))
]

-- A chain without a repeated provider names each provider once.
pub repeated-Distinct :
    (chain : List (String × String)) → repeated chain [] ≡ none → Distinct (providers_of chain)
repeated-Distinct chain h = (repeated-none chain [] h).1

IsNew-snoc :
    (id : String) (seen names : List String)
    → any (λ other. id == other) names ≡ false
    → IsNew seen names
    → IsNew (id ∷ seen) names
IsNew-snoc id seen [] h new = tt
IsNew-snoc id seen (name ∷ names) h (first, rest) =
    (ground (arith, h, first), IsNew-snoc id seen names (ground (arith, h)) rest)

none-repeated :
    (chain : List (String × String)) (seen : List String)
    → IsNew seen (providers_of chain)
    → Distinct (providers_of chain)
    → repeated chain seen ≡ none
unfolding repeated
none-repeated [] seen new once = refl
none-repeated ((id, upstream) ∷ chain) seen (first, new) (apart, once) =
    let rest =
      none-repeated chain (id ∷ seen) (IsNew-snoc id seen (providers_of chain) apart new) once in
    rw (repeated, first) rest

nothing_seen : (names : List String) → IsNew [] names
nothing_seen [] = tt
nothing_seen (name ∷ names) = (refl, nothing_seen names)

-- A chain that names each provider once has no repeated one.
pub Distinct-repeated :
    (chain : List (String × String)) → Distinct (providers_of chain) → repeated chain [] ≡ none
Distinct-repeated chain once = none-repeated chain [] (nothing_seen (providers_of chain)) once
