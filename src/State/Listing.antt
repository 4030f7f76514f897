-- ===== src/State/Listing.antt =====
-- The listing of models, `listable_models` of src/state.rs.
use lite_agentify.Prelude.{
  String, Bool, true, false, ◌&&◌, ◌≡◌, refl, sym, ap, ◌∙◌, some, List, [], ◌∷◌, arith, inl, inr,
  filter, is_some, is_empty, Bool-cases, Option-cases, subst, ◌==◌, if◌then◌else◌, string_eq,
  eq_of_beq,
}
use lite_agentify.Prelude.Map.{Map, get, retain, keep, IsDistinct, get-retain}
use lite_agentify.Prelude.Order.{text_leb, text_leb-total}
use lite_agentify.Model.{Protocol, ModelEntry}
use lite_agentify.Decimal.{DecimalOps}
use lite_agentify.Account.{KeyIdentity, may_call}
use lite_agentify.State.{
  GatewayState, ResolvedDeployment, Resolution, chain, unknown_model, forbidden, wrong_protocol,
  walk_deployments, resolve,
}

-- Sorting by name. The names are distinct, so an unstable sort gives the same list.
unfoldable pub insert_sorted : String × ModelEntry → Map String ModelEntry → Map String ModelEntry
insert_sorted e [] = e ∷ []
insert_sorted e (x ∷ xs) =
    let rest = insert_sorted e xs in if text_leb e.0 x.0 then e ∷ x ∷ xs else x ∷ rest

unfoldable pub sort_by_name : Map String ModelEntry → Map String ModelEntry
unfolding insert_sorted
sort_by_name [] = []
sort_by_name (e ∷ es) = insert_sorted e (sort_by_name es)

get-insert_sorted :
    (name : String) (e : String × ModelEntry) (es : Map String ModelEntry)
    → get name (insert_sorted e es) ≡ (if e.0 == name then some e.1 else get name es)
unfolding insert_sorted get
get-insert_sorted name e [] = refl
get-insert_sorted name e (x ∷ xs) = elim (Bool-cases (text_leb e.0 x.0)) [
  | inl before ↦ rw before refl
  | inr after ↦ rw after (elim (Bool-cases (x.0 == name)) [
    | inr other ↦ rw other (get-insert_sorted name e xs)
    | inl here ↦ elim (Bool-cases (e.0 == name)) [
      | inr other ↦ rw (here, other) refl
      | inl same ↦
          let twin : x.0 ≡ e.0 = eq_of_beq x.0 name here ∙ sym (eq_of_beq e.0 name same) in
          let against : text_leb e.0 e.0 ≡ false = subst (λ n. text_leb e.0 n ≡ false) twin after in
          absurd (cc (against, text_leb-total e.0 e.0 against))
    ]
  ])
]

get-sort_by_name :
    (name : String) (es : Map String ModelEntry) → get name (sort_by_name es) ≡ get name es
unfolding sort_by_name get
get-sort_by_name name [] = refl
get-sort_by_name name (e ∷ es) =
    get-insert_sorted name e (sort_by_name es) ∙ rw (get-sort_by_name name es) refl

-- No name comes before one that stands in front of it.
abbrev pub IsAfter : String → Map String ModelEntry → Type 0
IsAfter name [] = Unit
IsAfter name (x ∷ xs) = text_leb name x.0 ≡ true

abbrev pub IsSorted : Map String ModelEntry → Type 0
IsSorted [] = Unit
IsSorted (x ∷ xs) = IsAfter x.0 xs × IsSorted xs

insert_sorted-IsAfter :
    (name : String) (e : String × ModelEntry) (es : Map String ModelEntry)
    → text_leb name e.0 ≡ true
    → IsAfter name es
    → IsAfter name (insert_sorted e es)
unfolding insert_sorted
insert_sorted-IsAfter name e [] h hs = h
insert_sorted-IsAfter name e (x ∷ xs) h hs = elim (Bool-cases (text_leb e.0 x.0)) [
  | inl before ↦ rw before h
  | inr after ↦ rw after hs
]

insert_sorted-IsSorted :
    (e : String × ModelEntry) (es : Map String ModelEntry)
    → IsSorted es
    → IsSorted (insert_sorted e es)
unfolding insert_sorted
insert_sorted-IsSorted e [] h = (tt, tt)
insert_sorted-IsSorted e (x ∷ xs) h = elim (Bool-cases (text_leb e.0 x.0)) [
  | inl before ↦ rw before (before, h)
  | inr after ↦ rw after (
    insert_sorted-IsAfter x.0 e xs (text_leb-total e.0 x.0 after) h.0,
    insert_sorted-IsSorted e xs h.1,
  )
]

sort_by_name-IsSorted : (es : Map String ModelEntry) → IsSorted (sort_by_name es)
unfolding sort_by_name
sort_by_name-IsSorted [] = tt
sort_by_name-IsSorted (e ∷ es) =
    insert_sorted-IsSorted e (sort_by_name es) (sort_by_name-IsSorted es)

filter-retain :
    (p : String → ModelEntry → Bool) (es : Map String ModelEntry)
    → filter (λ e. p e.0 e.1) es ≡ retain p es
unfolding retain
filter-retain p [] = refl
filter-retain p (e ∷ es) = ground (arith, filter-retain p es)

-- What `resolve` answers of a model that is there for the caller.
abbrev pub is_recognised : Resolution → Bool
is_recognised (chain hops) = true
is_recognised (wrong_protocol available) = true
is_recognised unknown_model = false
is_recognised forbidden = false

-- Whichever of the two lists is answered, the model is recognised.
answer :
    (hops : List ResolvedDeployment) (available : List Protocol)
    → is_recognised (if is_empty hops then wrong_protocol available else chain hops) ≡ true
answer [] available = refl
answer (h ∷ hops) available = refl

module _ (d : DecimalOps) where
  abbrev pub is_listable : KeyIdentity d → String → ModelEntry → Bool
  is_listable identity name entry = entry.enabled && may_call d identity name

  unfoldable pub listable_models : GatewayState d → KeyIdentity d → Map String ModelEntry
  unfolding sort_by_name
  listable_models s identity = sort_by_name (filter (λ e. is_listable identity e.0 e.1) s.models)

  get-listable_models :
      (s : GatewayState d) (identity : KeyIdentity d) (name : String)
      → IsDistinct s.models
      → get name (listable_models s identity) ≡ keep (is_listable identity name) (get name s.models)
  unfolding listable_models
  get-listable_models s identity name distinct =
      get-sort_by_name name (filter (λ e. is_listable identity e.0 e.1) s.models)
      ∙ ap (get name) (filter-retain (is_listable identity) s.models)
      ∙ get-retain (is_listable identity) name s.models distinct

  recognised :
      (s : GatewayState d) (protocol : Protocol) (identity : KeyIdentity d) (name : String)
      → is_recognised (resolve d s protocol name identity)
        ≡ is_some (keep (is_listable identity name) (get name s.models))
  unfolding resolve
  recognised s protocol identity name = elim (Option-cases (get name s.models)) [
    | inl missing ↦ rw (resolve, missing) refl
    | inr (entry, found) ↦ elim (Bool-cases entry.enabled) [
      | inr off ↦ rw (resolve, found, off) refl
      | inl on ↦ elim (Bool-cases (may_call d identity name)) [
        | inr barred ↦ rw (resolve, found, on, barred) refl
        | inl may ↦
            let walked = walk_deployments s.providers protocol entry.deployments [] [] in
            rw (resolve, found, on, may) (answer walked.0 walked.1)
      ]
    ]
  ]

  -- The listing is sorted by name, holds a model exactly if `resolve` would not answer this caller
  -- that it is unknown or forbidden, on whichever endpoint, and gives each with the entry that the
  -- snapshot has for it, where the snapshot has each name once.
  pub listable_models-resolve :
      (s : GatewayState d) (protocol : Protocol) (identity : KeyIdentity d) (name : String)
      → IsDistinct s.models
      → IsSorted (listable_models s identity)
        × (is_some (get name (listable_models s identity))
            ≡ is_recognised (resolve d s protocol name identity))
        × (get name (listable_models s identity)
            ≡ keep (is_listable identity name) (get name s.models))
  unfolding listable_models
  listable_models-resolve s protocol identity name distinct =
      let entry = get-listable_models s identity name distinct in
      (
        sort_by_name-IsSorted (filter (λ e. is_listable identity e.0 e.1) s.models),
        ap is_some entry ∙ sym (recognised s protocol identity name),
        entry,
      )
