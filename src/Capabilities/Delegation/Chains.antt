-- ===== src/Capabilities/Delegation/Chains.antt =====
-- The proof paths of packages/capabilities/src/delegation-graph.ts (buildCapabilityProofGraph).
use local_first_p2p_app.Common.{
  ℕ, zero, suc, ◌<◌, ◌≡◌, ◌↔◌, ◌⊎◌, refl, sym, ap, ◌∙◌, String, Bool, true, false, ◌||◌, Option,
  none, some, List, [], ◌∷◌, ◌++◌, arith, contains, str_eq, eq_iff, length, inl, inr, Bool-cases,
  Option-cases, append_assoc, append-nil,
}
use local_first_p2p_app.Common.Dict.{Dict, lookup}
use local_first_p2p_app.Capabilities.{CapabilityGrant}
use local_first_p2p_app.Capabilities.Delegation.{
  CapabilityDelegationGraph, CapabilityDelegationPath, ids, parents, create_path, path_if_any,
  root_path, traverse_all, traverse, is_delegation_path_valid, any_valid, detect_delegation_cycle,
  build_capability_proof_graph, is_capability_authorized,
}
use local_first_p2p_app.Capabilities.Delegation.Cycles.{Cyclic, Reaches, enter-Reaches}
use local_first_p2p_app.Capabilities.Delegation.Rounds.{
  remaining, remaining_falls, remaining_all, is_some-ids, parents-is_some,
}
use local_first_p2p_app.Capabilities.Delegation.Detection.{detect_delegation_cycle_iff}

-- The grants from one without proofs down to that of `id`, each proven by the one before.
pub data Proven (grants : Dict CapabilityGrant) : String → List CapabilityGrant → Type 0 where
  root :
      {id : String} (grant : CapabilityGrant)
      → lookup id grants ≡ some grant
      → grant.proof_refs ≡ []
      → Proven grants id (grant ∷ [])
  delegated :
      {id : String} {chain : List CapabilityGrant} (grant : CapabilityGrant) (parent : String)
      → lookup id grants ≡ some grant
      → contains (parents grants grant) parent ≡ true
      → Proven grants parent chain
      → Proven grants id (chain ++ grant ∷ [])

List-cases {ℓ} :
    {A : Type ℓ} (xs : List A) → (xs ≡ []) ⊎ ((x : A) × (rest : List A) × (xs ≡ x ∷ rest))
List-cases [] = inl refl
List-cases (x ∷ rest) = inr (x, rest, refl)

-- The cases of the traversal at a node.
module _ (grants : Dict CapabilityGrant) (rounds : ℕ) (id : String) (chain : List CapabilityGrant)
    (visited : List String) where
  at_absent :
      lookup id grants ≡ none → traverse grants (suc rounds) id chain visited ≡ path_if_any chain
  unfolding traverse
  at_absent absent = rw (absent, traverse) refl

  module _ (grant : CapabilityGrant) (there : lookup id grants ≡ some grant) where
    at_visited : contains visited id ≡ true → traverse grants (suc rounds) id chain visited ≡ []
    unfolding traverse
    at_visited old = rw (there, traverse) (rw (old, traverse) refl)

    at_top :
        contains visited id ≡ false
        → parents grants grant ≡ []
        → traverse grants (suc rounds) id chain visited ≡ root_path grant (grant ∷ chain)
    unfolding traverse
    at_top new top = rw (there, traverse) (rw (new, traverse) (rw (top, traverse) refl))

    at_proven :
        (parent : String) (rest : List String)
        → contains visited id ≡ false
        → parents grants grant ≡ parent ∷ rest
        → traverse grants (suc rounds) id chain visited
          ≡ traverse_all
              (λ p. traverse grants rounds p (grant ∷ chain) (id ∷ visited))
              (parents grants grant)
    unfolding traverse
    at_proven parent rest new up =
        rw (there, traverse) (rw (new, traverse) (rw (up, traverse) refl))

module _ (parse : String → Option ℕ) (graph : CapabilityDelegationGraph) (now : String) where
  abbrev any : List CapabilityDelegationPath → Bool
  any paths = any_valid parse graph paths now

  abbrev valid : List CapabilityGrant → Bool
  valid chain = is_delegation_path_valid parse graph (create_path chain) now

  any-append : (xs ys : List CapabilityDelegationPath) → any (xs ++ ys) ≡ (any xs || any ys)
  unfolding any_valid
  any-append [] ys = refl
  any-append (x ∷ xs) ys = ground (arith, any-append xs ys)

  any_one : (chain : List CapabilityGrant) → any (create_path chain ∷ []) ≡ valid chain
  unfolding any_valid
  any_one chain = ground arith

  any_none : any [] ≡ false
  unfolding any_valid
  any_none = refl

  any-traverse_all :
      (go : String → List CapabilityDelegationPath) (all : List String)
      → any (traverse_all go all) ≡ true
      → (id : String) × (contains all id ≡ true) × (any (go id) ≡ true)
  unfolding traverse_all
  any-traverse_all go [] h = cc (h, any_none)
  any-traverse_all go (id ∷ rest) h = elim (Bool-cases (any (go id))) [
    | inl here ↦ (id, ground (arith, eq_iff id id), here)
    | inr not_here ↦
        let later : any (traverse_all go rest) ≡ true =
          ground (arith, h, not_here, any-append (go id) (traverse_all go rest)) in
        let (p, on, found) = any-traverse_all go rest later in (p, ground (arith, on), found)
  ]

  any-traverse_all_of :
      (go : String → List CapabilityDelegationPath) (all : List String) (id : String)
      → contains all id ≡ true
      → any (go id) ≡ true
      → any (traverse_all go all) ≡ true
  unfolding traverse_all
  any-traverse_all_of go [] id on found = cc on
  any-traverse_all_of go (x ∷ rest) id on found = elim (Bool-cases (str_eq x id)) [
    | inl same ↦
        let here : any (go x) ≡ true = ap (λ y. any (go y)) ((eq_iff x id).0 same) ∙ found in
        ground (arith, here, any-append (go x) (traverse_all go rest))
    | inr differ ↦
        let later = any-traverse_all_of go rest id (ground (arith, on, differ)) found in
        ground (arith, later, any-append (go x) (traverse_all go rest))
  ]

  any-root_path :
      (grant : CapabilityGrant) (chain : List CapabilityGrant)
      → any (root_path grant chain) ≡ true
      → (grant.proof_refs ≡ []) × (valid chain ≡ true)
  any-root_path grant chain h = elim (List-cases grant.proof_refs) [
    | inl top ↦ (top, sym (any_one chain) ∙ (rw top at h))
    | inr (proof, rest, e) ↦ cc (rw e at h, any_none)
  ]

  -- A path that is found is a proof, and what follows it.
  any-traverse :
      (rounds : ℕ) (id : String) (chain : List CapabilityGrant) (visited : List String)
      → (lookup id graph.grants ≡ none → chain ≡ [])
      → any (traverse graph.grants rounds id chain visited) ≡ true
      → (proof : List CapabilityGrant) × Proven graph.grants id proof
        × (valid (proof ++ chain) ≡ true)
  any-traverse zero id chain visited start h = unfold traverse in cc (h, any_none)
  any-traverse (suc rounds) id chain visited start h =
      elim (Option-cases (lookup id graph.grants)) [
        | inl absent ↦
            let e = at_absent graph.grants rounds id chain visited absent in
            let nothing : any (path_if_any chain) ≡ false = rw (start absent) any_none in
            cc (h, ap any e, nothing)
        | inr (grant, there) ↦ elim (Bool-cases (contains visited id)) [
          | inl old ↦ cc (
            h,
            ap any (at_visited graph.grants rounds id chain visited grant there old),
            any_none,
          )
          | inr new ↦ elim (List-cases (parents graph.grants grant)) [
            | inl top ↦
                let (bare, good) = any-root_path grant (grant ∷ chain) (
                  sym (ap any (at_top graph.grants rounds id chain visited grant there new top))
                  ∙ h) in
                (grant ∷ [], root grant there bare, good)
            | inr (parent, rest, up) ↦
                let (p, is_parent, found) =
                  any-traverse_all
                    (λ p. traverse graph.grants rounds p (grant ∷ chain) (id ∷ visited))
                    (parents graph.grants grant)
                    (sym (
                        ap any (
                          at_proven graph.grants rounds id chain visited grant there parent rest new
                            up))
                      ∙ h) in
                let (proof, proven, good) =
                  any-traverse rounds p (grant ∷ chain) (id ∷ visited)
                    (λ absent. cc (absent, parents-is_some graph.grants grant p is_parent)) found in
                (
                  proof ++ grant ∷ [],
                  delegated grant p there is_parent proven,
                  ap valid (append_assoc proof (grant ∷ []) chain) ∙ good,
                )
          ]
        ]
      ]

  no_parents : (grant : CapabilityGrant) → grant.proof_refs ≡ [] → parents graph.grants grant ≡ []
  unfolding parents
  no_parents grant bare = rw bare refl

  -- Without a cycle, no proof is cut off: neither by the ids passed nor by the rounds.
  any-traverse_of :
      ¬ (Cyclic graph.grants)
      → (rounds : ℕ) (id : String) (chain : List CapabilityGrant) (visited : List String)
        (proof : List CapabilityGrant)
      → Proven graph.grants id proof
      → Reaches graph.grants visited id
      → remaining visited (ids graph.grants) < rounds
      → valid (proof ++ chain) ≡ true
      → any (traverse graph.grants rounds id chain visited) ≡ true
  any-traverse_of acyclic zero id chain visited proof p r enough good =
      let none_left : ⊥ = omega (arith, enough) in absurd none_left
  any-traverse_of acyclic (suc rounds) id chain visited _ (root grant there bare) r enough good =
      elim (Bool-cases (contains visited id)) [
        | inl old ↦ absurd (acyclic (id, r id old))
        | inr new ↦
            let top =
              at_top graph.grants rounds id chain visited grant there new (no_parents grant bare) in
            let e : root_path grant (grant ∷ chain) ≡ create_path (grant ∷ chain) ∷ [] =
              rw bare refl in
            ap any (top ∙ e) ∙ any_one (grant ∷ chain) ∙ good
      ]
  any-traverse_of acyclic (suc rounds) id chain visited _
        (delegated {chain = up} grant parent there is_parent p) r enough good =
      elim (Bool-cases (contains visited id)) [
        | inl old ↦ absurd (acyclic (id, r id old))
        | inr new ↦ elim (List-cases (parents graph.grants grant)) [
          | inl top ↦ cc (ap (λ xs. contains xs parent) top, is_parent)
          | inr (first, rest, e) ↦
              let less : remaining (id ∷ visited) (ids graph.grants) < rounds = omega (
                arith,
                enough,
                remaining_falls id visited (ids graph.grants) new
                    (is_some-ids id graph.grants (rw there refl)),
              ) in
              let found =
                any-traverse_of acyclic rounds parent (grant ∷ chain) (id ∷ visited) up p
                  (enter-Reaches graph.grants visited id parent (grant, there, is_parent) r) less
                  (ap valid (sym (append_assoc up (grant ∷ []) chain)) ∙ good) in
              ap any (at_proven graph.grants rounds id chain visited grant there first rest new e)
              ∙ any-traverse_all_of
                  (λ q. traverse graph.grants rounds q (grant ∷ chain) (id ∷ visited))
                  (parents graph.grants grant) parent is_parent found
        ]
      ]

  -- A capability is authorized exactly if the graph has no cycle and one of the proofs of the
  -- capability, from a grant without proofs down to its own grant and each proven by the one before,
  -- is valid at that time.
  pub is_capability_authorized_iff :
      (id : String)
      → (is_capability_authorized parse graph id now ≡ true) ↔ (
          (¬ (Cyclic graph.grants))
          × (proof : List CapabilityGrant) × Proven graph.grants id proof
          × (is_delegation_path_valid parse graph (create_path proof) now ≡ true))
  unfolding is_capability_authorized build_capability_proof_graph
  is_capability_authorized_iff id =
      let cyclic = detect_delegation_cycle_iff graph in
      let all = suc (length (ids graph.grants)) in
      elim (Bool-cases (detect_delegation_cycle graph)) [
        | inl found ↦ (λ h. let h1 = rw found at h in cc h1, λ w. absurd ((w.0) (cyclic.0 found)))
        | inr none_found ↦
            let acyclic : ¬ (Cyclic graph.grants) = λ c. cc (cyclic.1 c, none_found) in
            (
              λ h.
                  let (proof, proven, good) =
                    any-traverse all id [] [] (λ absent. refl) (rw none_found at h) in
                  (acyclic, proof, proven, ap valid (sym (append-nil proof)) ∙ good),
              λ w.
                  let (_, proof, proven, good) = w in
                  rw none_found (
                    any-traverse_of acyclic all id [] [] proof proven (λ x on. cc on)
                      (omega (arith, remaining_all (ids graph.grants)))
                      (ap valid (append-nil proof) ∙ good)),
            )
      ]
