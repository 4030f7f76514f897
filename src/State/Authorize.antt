-- ===== src/State/Authorize.antt =====
-- Which identity a request gets, `authorize` of src/state.rs.
use Prim.Native.String.{◌++◌}
use lite_agentify.Prelude.{
  subst, Bool-cases, eq_of_beq, bytes_eq, String, true, ◌≡◌, ◌↔◌, refl, Option, none, some, List,
  [], ◌∷◌, All, arith, inl, inr, Option-cases, find_map, nat_eq, beq_refl, any, ◌==◌, string_eq,
  bytes_eq,
}
use lite_agentify.Prelude.Map.{get}
use lite_agentify.Decimal.{DecimalOps}
use lite_agentify.Account.{KeyIdentity, Digest}
use lite_agentify.State.Presented.{
  strip_prefix-append, Presents, candidate-Presents, Presents-candidate,
}
use lite_agentify.State.{GatewayState, HeaderText, authorize, gateway_key_candidates}

find_map-none {ℓ κ} :
    {A : Type ℓ} {B : Type κ} (f : A → Option B) (xs : List A)
    → (find_map f xs ≡ none) ↔ All (λ x. f x ≡ none) xs
find_map-none f [] = (λ h. tt, λ h. refl)
find_map-none f (x ∷ xs) = (
  λ h. (ground arith, (find_map-none f xs).0 (ground arith)),
  λ h. let rest = (find_map-none f xs).1 h.1 in ground (arith, h.0),
)

find_map-found {ℓ} :
    {B : Type ℓ} (f : String → Option B) (xs : List String) (b : B)
    → find_map f xs ≡ some b
    → (x : String) × (any (λ y. y == x) xs ≡ true) × (f x ≡ some b)
find_map-found f [] b h = absurd (cc h)
find_map-found f (x ∷ xs) b h = elim (Option-cases (f x)) [
  | inl miss ↦
      let (y, listed, found) = find_map-found f xs b (ground arith) in (y, ground arith, found)
  | inr (c, hit) ↦ (x, ground (arith, beq_refl x), ground arith)
]

listed-All {ℓ} :
    (P : String → Type ℓ) (key : String) (xs : List String)
    → All P xs
    → any (λ c. c == key) xs ≡ true
    → P key
listed-All P key [] all h = absurd (cc h)
listed-All P key (x ∷ xs) (first, rest) h = elim (Bool-cases (x == key)) [
  | inl same ↦ subst P (eq_of_beq x key same) first
  | inr differ ↦ listed-All P key xs rest (ground (arith, h, differ))
]

module _ (d : DecimalOps) (hash : String → Digest) where
  -- A request is turned away exactly if no text that its headers offer as a key has a registered
  -- digest.
  pub authorize_refuses :
      (s : GatewayState d) (headers : HeaderText)
      → (authorize d hash s headers ≡ none)
        ↔ All (λ c. get (hash c) s.api_keys ≡ none) (gateway_key_candidates headers)
  unfolding authorize
  authorize_refuses s headers =
      find_map-none (λ c. get (hash c) s.api_keys) (gateway_key_candidates headers)

  -- A presented key that is registered.
  abbrev pub Admits : GatewayState d → HeaderText → KeyIdentity d → Type 0
  Admits s headers identity =
      (key : String) × Presents headers key × (get (hash key) s.api_keys ≡ some identity)

  abbrev pub Authorized : GatewayState d → HeaderText → Option (KeyIdentity d) → Type 0
  Authorized s headers (some identity) = Admits s headers identity
  Authorized s headers none = ¬ ((identity : KeyIdentity d) × Admits s headers identity)

  -- Nobody is let in without presenting a key, and nobody who presents a registered one is turned
  -- away: an identity that `authorize` returns is the one registered under the digest of a text that
  -- stands in the request's headers, as the value of `authorization`, behind `Bearer ` or `bearer `
  -- in it, or as the value of `x-api-key` or `api-key`; and it returns none only if no such text has
  -- a registered digest.
  pub authorize_presented :
      (s : GatewayState d) (headers : HeaderText)
      → Authorized s headers (authorize d hash s headers)
  unfolding authorize
  authorize_presented s headers = decided (authorize d hash s headers) refl
    where
      decided :
          (found : Option (KeyIdentity d))
          → find_map (λ c. get (hash c) s.api_keys) (gateway_key_candidates headers) ≡ found
          → Authorized s headers found
      decided (some identity) h =
          let (key, listed, registered) =
            find_map-found (λ c. get (hash c) s.api_keys) (gateway_key_candidates headers) identity
              h in
          (key, candidate-Presents headers key listed, registered)
      decided none h = λ (identity, (key, presented, registered)).
          let missing =
            listed-All (λ c. get (hash c) s.api_keys ≡ none) key (gateway_key_candidates headers)
              ((find_map-none (λ c. get (hash c) s.api_keys) (gateway_key_candidates headers)).0 h)
              (Presents-candidate headers key presented) in
          cc

  -- The key behind an identity that is let in.
  pub authorize-Admits :
      (s : GatewayState d) (headers : HeaderText) (identity : KeyIdentity d)
      → authorize d hash s headers ≡ some identity
      → Admits s headers identity
  authorize-Admits s headers identity h =
      subst (Authorized s headers) h (authorize_presented s headers)

  -- A request with `Authorization: Bearer <key>` gets the identity registered for the key,
  -- whatever the other headers hold.
  pub authorize_bearer :
      (s : GatewayState d) (headers : HeaderText) (key : String) (identity : KeyIdentity d)
      → headers "authorization" ≡ some ("Bearer " ++ key)
      → get (hash key) s.api_keys ≡ some identity
      → authorize d hash s headers ≡ some identity
  unfolding authorize gateway_key_candidates
  authorize_bearer s headers key identity h g =
      let stripped = strip_prefix-append "Bearer " key in ground arith
