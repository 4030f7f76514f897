-- ===== src/State/Resolve.antt =====
-- What `resolve` of src/state.rs answers.
use mathlib.Core.List.{append-nil, append_assoc}
use lite_agentify.Prelude.{
  String, true, not, ◌≡◌, ◌≢◌, ◌⊎◌, refl, sym, none, some, List, [], ◌∷◌, ◌++◌, All, arith, inl,
  inr, Bool-cases, Option-cases, subst, ◌==◌, if◌then◌else◌, string_eq,
}
use lite_agentify.Prelude.Map.{get}
use lite_agentify.Model.{Protocol, open_ai, anthropic, protocol_eq, Deployment}
use lite_agentify.Decimal.{DecimalOps}
use lite_agentify.Account.{KeyIdentity, may_call}
use lite_agentify.Build.{ProviderMap}
use lite_agentify.Build.Closed.{AllKnown}
use lite_agentify.State.{
  GatewayState, ResolvedDeployment, Resolution, chain, unknown_model, forbidden, wrong_protocol,
  walk_deployments, resolve, hop_of, push_hop, push_protocol,
}
use lite_agentify.State.Valid.{IsValid}

-- The hops of a chain, as a plain recursion: the deployments whose provider speaks the protocol,
-- in the order of the catalog.
abbrev pub serving : ProviderMap → Protocol → List Deployment → List ResolvedDeployment
serving providers protocol [] = []
serving providers protocol (c ∷ cs) = elim (get c.provider_id providers) [
  | none ↦ serving providers protocol cs
  | some p ↦
      let rest = serving providers protocol cs in
      if p.protocol == protocol then hop_of p c ∷ rest else rest
]

-- The protocol that is not the one asked for.
abbrev pub other_protocol : Protocol → Protocol
other_protocol open_ai = anthropic
other_protocol anthropic = open_ai

other_unless_same :
    (p protocol : Protocol) → ((p == protocol) ≡ true) ⊎ (p ≡ other_protocol protocol)
other_unless_same p protocol = ground arith

walk-hops :
    (providers : ProviderMap) (protocol : Protocol) (cs : List Deployment)
    (hops : List ResolvedDeployment) (available : List Protocol)
    → (walk_deployments providers protocol cs hops available).0
      ≡ hops ++ serving providers protocol cs
unfolding walk_deployments
walk-hops providers protocol [] hops available = sym (append-nil hops)
walk-hops providers protocol (c ∷ cs) hops available =
    elim (Option-cases (get c.provider_id providers)) [
      | inl e ↦ ground (arith, walk-hops providers protocol cs hops available)
      | inr (p, e) ↦ ground (
        arith,
        walk-hops providers protocol cs (push_hop protocol p c hops)
            (push_protocol protocol p available),
        append_assoc hops (hop_of p c ∷ []) (serving providers protocol cs),
      )
    ]

-- With nothing served, what the second list ends as.
walk-available :
    (providers : ProviderMap) (protocol : Protocol) (cs : List Deployment)
    (hops : List ResolvedDeployment)
    → AllKnown providers cs
    → serving providers protocol cs ≡ []
    → (walk_deployments providers protocol cs hops (other_protocol protocol ∷ [])).1
      ≡ other_protocol protocol ∷ []
unfolding walk_deployments
walk-available providers protocol [] hops k h = refl
walk-available providers protocol (c ∷ cs) hops k h =
    elim (Option-cases (get c.provider_id providers)) [
      | inl e ↦ ground arith
      | inr (p, e) ↦ ground (
        arith,
        walk-available providers protocol cs (push_hop protocol p c hops) k.1,
        other_unless_same p.protocol protocol,
      )
    ]

walk-available_nil :
    (providers : ProviderMap) (protocol : Protocol) (c : Deployment) (cs : List Deployment)
    → AllKnown providers (c ∷ cs)
    → serving providers protocol (c ∷ cs) ≡ []
    → (walk_deployments providers protocol (c ∷ cs) [] []).1 ≡ other_protocol protocol ∷ []
unfolding walk_deployments
walk-available_nil providers protocol c cs k h = elim (Option-cases (get c.provider_id providers)) [
  | inl e ↦ ground arith
  | inr (p, e) ↦ ground (
    arith,
    walk-available providers protocol cs (push_hop protocol p c []) k.1,
    other_unless_same p.protocol protocol,
  )
]

-- The protocols that the hint of a refusal names: none without deployments, else the other one.
abbrev pub hint : Protocol → List Deployment → List Protocol
hint protocol [] = []
hint protocol (c ∷ cs) = other_protocol protocol ∷ []

walk-hint :
    (providers : ProviderMap) (protocol : Protocol) (cs : List Deployment)
    → AllKnown providers cs
    → serving providers protocol cs ≡ []
    → (walk_deployments providers protocol cs [] []).1 ≡ hint protocol cs
unfolding walk_deployments
walk-hint providers protocol [] k h = refl
walk-hint providers protocol (c ∷ cs) k h = walk-available_nil providers protocol c cs k h

serving-protocol :
    (providers : ProviderMap) (protocol : Protocol) (cs : List Deployment)
    → All (λ hop. hop.provider.protocol ≡ protocol) (serving providers protocol cs)
serving-protocol providers protocol [] = tt
serving-protocol providers protocol (c ∷ cs) =
    let rest = serving-protocol providers protocol cs in
    elim (Option-cases (get c.provider_id providers)) [
      | inl e ↦
          let skip : serving providers protocol cs ≡ serving providers protocol (c ∷ cs) =
            ground arith in
          subst (All (λ hop. hop.provider.protocol ≡ protocol)) skip rest
      | inr (p, e) ↦ elim (Bool-cases (p.protocol == protocol)) [
        | inl same ↦
            let push : hop_of p c ∷ serving providers protocol cs
                ≡ serving providers protocol (c ∷ cs) =
              ground arith in
            subst (All (λ hop. hop.provider.protocol ≡ protocol)) push (ground arith, rest)
        | inr other ↦
            let skip : serving providers protocol cs ≡ serving providers protocol (c ∷ cs) =
              ground arith in
            subst (All (λ hop. hop.provider.protocol ≡ protocol)) skip rest
      ]
    ]

-- What the client is told once the model is found, enabled and allowed.
abbrev pub route : List ResolvedDeployment → List Protocol → Resolution
route [] names = wrong_protocol names
route (hop ∷ hops) names = chain (hop ∷ hops)

module _ (d : DecimalOps) where
  -- In a well-formed snapshot: a model that is absent or disabled is unknown; a key that may not
  -- call it is refused; otherwise the chain is exactly the deployments whose provider speaks the
  -- endpoint's protocol, in catalog order, and if there is none the client is told of the other
  -- protocol, or of no protocol where the model has no deployment at all.
  pub resolve_exact :
      (s : GatewayState d) (protocol : Protocol) (model : String) (identity : KeyIdentity d)
      → IsValid d s
      → resolve d s protocol model identity ≡ (elim (get model s.models) [
        | none ↦ unknown_model
        | some entry ↦
            if not entry.enabled
            then unknown_model
            else if not (may_call d identity model)
            then forbidden
            else route
                (serving s.providers protocol entry.deployments)
                (hint protocol entry.deployments)
      ])
  unfolding resolve
  resolve_exact s protocol model identity v = elim (Option-cases (get model s.models)) [
    | inl e ↦ ground arith
    | inr (entry, e) ↦ ground (
      arith,
      walk-hops s.providers protocol entry.deployments [] [],
      walk-hint s.providers protocol entry.deployments (v.closed model entry e),
    )
  ]

  -- A chain to walk is never empty, and every hop of it speaks the endpoint's protocol.
  pub resolve-chain_sound :
      (s : GatewayState d) (protocol : Protocol) (model : String) (identity : KeyIdentity d)
      (hops : List ResolvedDeployment)
      → resolve d s protocol model identity ≡ chain hops
      → (hops ≢ []) × All (λ hop. hop.provider.protocol ≡ protocol) hops
  unfolding resolve
  resolve-chain_sound s protocol model identity hops h = elim (Option-cases (get model s.models)) [
    | inl e ↦ absurd (ground arith)
    | inr (entry, e) ↦
        let walked : serving s.providers protocol entry.deployments ≡ hops =
          ground (arith, walk-hops s.providers protocol entry.deployments [] []) in
        (
          ground arith,
          subst (All (λ hop. hop.provider.protocol ≡ protocol)) walked
              (serving-protocol s.providers protocol entry.deployments),
        )
  ]
