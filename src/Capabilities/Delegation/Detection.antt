-- ===== src/Capabilities/Delegation/Detection.antt =====
-- What detectDelegationCycle of packages/capabilities/src/delegation-graph.ts finds.
use local_first_p2p_app.Common.{
  ◌≡◌, ◌↔◌, refl, ap, suc, String, true, List, [], arith, length, inl, inr,
}
use local_first_p2p_app.Capabilities.Delegation.{
  CapabilityDelegationGraph, ids, cycle, done, out_of_rounds, has_cycle, is_cycle, search_cycle,
  detect_delegation_cycle,
}
use local_first_p2p_app.Capabilities.Delegation.Cycles.{
  Search-cases, Walk, Safe-not_cyclic, first-Edge, visit_all-Cleared, visit_all-Cyclic,
  has_cycle-Cleared, has_cycle-Cyclic,
}
use local_first_p2p_app.Capabilities.Delegation.Rounds.{
  remaining_all, visit_all_ends, has_cycle_ends, is_some-ids,
}

-- The search for cycles always ends, with a cycle or with every grant searched, in one round for each
-- grant and a last one.
pub search_cycle_ends : (graph : CapabilityDelegationGraph) → ¬ (search_cycle graph ≡ out_of_rounds)
search_cycle_ends graph =
    visit_all_ends graph.grants (has_cycle graph.grants (suc (length (ids graph.grants))) [])
      (ids graph.grants) []
      (λ id v.
        has_cycle_ends graph.grants (suc (length (ids graph.grants))) [] id v
          (omega (arith, remaining_all (ids graph.grants))))

found_cycle :
    (graph : CapabilityDelegationGraph)
    → search_cycle graph ≡ cycle
    → (id : String) × Walk graph.grants id id
found_cycle graph h =
    visit_all-Cyclic graph.grants (has_cycle graph.grants (suc (length (ids graph.grants))) [])
      (ids graph.grants) []
      (λ id v is_id e.
        has_cycle-Cyclic graph.grants (suc (length (ids graph.grants))) [] id v (λ x on. cc on) e)
      h

not_found :
    (graph : CapabilityDelegationGraph) (seen : List String) (id : String)
    → search_cycle graph ≡ done seen
    → ¬ (Walk graph.grants id id)
not_found graph seen id h w =
    let (_, all) =
      visit_all-Cleared graph.grants (has_cycle graph.grants (suc (length (ids graph.grants))) [])
        []
        (λ p v s c e. has_cycle-Cleared graph.grants (suc (length (ids graph.grants))) [] p v s c e)
        (ids graph.grants) [] seen (λ x visited off. cc visited) h in
    let (_, (_, there, _), _) = first-Edge graph.grants w in
    Safe-not_cyclic graph.grants (all id (is_some-ids id graph.grants (rw there refl))) w

-- A cycle is detected exactly if some grant is reached from itself by going from grants to their
-- proofs, inside the graph and in one step or more.
pub detect_delegation_cycle_iff :
    (graph : CapabilityDelegationGraph)
    → (detect_delegation_cycle graph ≡ true) ↔ ((id : String) × Walk graph.grants id id)
unfolding detect_delegation_cycle
detect_delegation_cycle_iff graph = elim (Search-cases (search_cycle graph)) [
  | inl e ↦ (λ h. found_cycle graph e, λ w. ap is_cycle e)
  | inr (inr e) ↦ absurd (search_cycle_ends graph e)
  | inr (inl (seen, e)) ↦
      (λ h. cc (h, ap is_cycle e), λ w. absurd (not_found graph seen (w.0) e (w.1)))
]
