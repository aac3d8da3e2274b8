-- ===== src/Capabilities/Delegation/Tests.antt =====
-- Graphs of packages/capabilities/src/delegation-graph.ts, and the theorems at them.
use local_first_p2p_app.Common.{
  ℕ, ◌≤◌, ◌≡◌, ◌↔◌, refl, String, true, false, Option, none, some, List, [], ◌∷◌, if◌then◌else◌,
  str_eq, length, All,
}
use local_first_p2p_app.Common.Dict.{lookup, insert}
use local_first_p2p_app.Capabilities.{CapabilityGrant, CapabilityProofRef}
use local_first_p2p_app.Capabilities.Delegation.{
  CapabilityDelegationGraph, CapabilityRevocationRecord, new_graph, add_grant, add_grants,
  add_revocation, add_revocations, parents, visit_all, has_cycle, search_cycle, out_of_rounds,
  detect_delegation_cycle, create_path, traverse, traverse_all, build_capability_proof_graph,
  all_in, validate_delegation_step, validate_steps, validate_delegation_path, is_revoked,
  is_in_force, all_in_force, is_delegation_path_valid, any_valid, is_capability_authorized,
}
use local_first_p2p_app.Capabilities.Delegation.Cycles.{Walk, Cyclic}
use local_first_p2p_app.Capabilities.Delegation.Detection.{
  detect_delegation_cycle_iff, search_cycle_ends,
}
use local_first_p2p_app.Capabilities.Delegation.Chains.{Proven, is_capability_authorized_iff}
use local_first_p2p_app.Capabilities.Delegation.Authority.{
  Attenuates, InForce, authorized-Attenuates,
}

-- Three dates, and no others.
abbrev dates : String → Option ℕ
dates s =
    if str_eq s "monday"
    then some 100
    else if str_eq s "tuesday"
    then some 200
    else if str_eq s "friday"
    then some 500
    else none

abbrev proof : String → CapabilityProofRef
proof id = record { proof_id = id; scheme = "lfp2p" }

abbrev source : CapabilityGrant
source = record {
  capability_id = "root";
  issuer = record { kind = "controller"; id = "ada" };
  audience = record { kind = "device"; id = "phone" };
  resource = record { kind = "room"; id = "garden" };
  actions = "read" ∷ "write" ∷ [];
  scope = record { kind = "room"; id = "garden" };
  caveats = [];
  not_before = none;
  expires_at = "friday";
  delegation_depth = 1;
  proof_refs = [];
}

abbrev given : CapabilityGrant
given = record source {
  capability_id = "leaf";
  issuer = record { kind = "device"; id = "phone" };
  audience = record { kind = "bot"; id = "gardener" };
  actions = "read" ∷ [];
  expires_at = "tuesday";
  delegation_depth = 0;
  proof_refs = proof "root" ∷ [];
}

abbrev revoked_on : String → CapabilityRevocationRecord
revoked_on date = record {
  capability_id = "root";
  revoked_at = date;
  revoked_by = "ada";
  reason = "lost phone";
}

abbrev graph : CapabilityDelegationGraph
graph = record {
  grants = ("root", source) ∷ ("leaf", given) ∷ [];
  revocations = ("root", revoked_on "friday" ∷ []) ∷ [];
}

graph_made : new_graph (source ∷ given ∷ []) (revoked_on "friday" ∷ []) ≡ graph
unfolding new_graph add_grants add_grant add_revocations add_revocation insert lookup
graph_made = refl

path_found : build_capability_proof_graph graph "leaf" ≡ create_path (source ∷ given ∷ []) ∷ []
unfolding build_capability_proof_graph traverse traverse_all parents lookup
path_found = refl

authorized : is_capability_authorized dates graph "leaf" "monday" ≡ true
unfolding is_capability_authorized detect_delegation_cycle visit_all has_cycle
    build_capability_proof_graph traverse traverse_all parents lookup any_valid
    is_delegation_path_valid validate_delegation_path validate_steps validate_delegation_step all_in
    create_path all_in_force is_in_force is_revoked
authorized = refl

revoked_later : is_capability_authorized dates graph "leaf" "friday" ≡ false
unfolding is_capability_authorized detect_delegation_cycle visit_all has_cycle
    build_capability_proof_graph traverse traverse_all parents lookup any_valid
    is_delegation_path_valid validate_delegation_path validate_steps validate_delegation_step all_in
    create_path all_in_force is_in_force is_revoked
revoked_later = refl

abbrev knot : CapabilityDelegationGraph
knot = record graph {
  grants = ("root", record source { proof_refs = proof "leaf" ∷ [] }) ∷ ("leaf", given) ∷ [];
}

knot_detected : detect_delegation_cycle knot ≡ true
unfolding detect_delegation_cycle visit_all has_cycle parents lookup
knot_detected = refl

detect_delegation_cycle_iff_example :
    (detect_delegation_cycle knot ≡ true) ↔ ((id : String) × Walk knot.grants id id)
detect_delegation_cycle_iff_example = detect_delegation_cycle_iff knot

is_capability_authorized_iff_example :
    (is_capability_authorized dates graph "leaf" "monday" ≡ true) ↔ (
      (¬ (Cyclic graph.grants))
      × (proof : List CapabilityGrant) × Proven graph.grants "leaf" proof
      × (is_delegation_path_valid dates graph (create_path proof) "monday" ≡ true))
is_capability_authorized_iff_example = is_capability_authorized_iff dates graph "monday" "leaf"

authorized-Attenuates_example :
    (top : CapabilityGrant) × (rest : List CapabilityGrant) × (instant : ℕ) × Proven graph.grants
      "leaf"
      (top ∷ rest)
    × (top.proof_refs ≡ [])
    × Attenuates dates top 1 rest
    × (length rest ≤ top.delegation_depth)
    × (dates "monday" ≡ some instant)
    × All (InForce dates graph instant) (top ∷ rest)
authorized-Attenuates_example = authorized-Attenuates dates graph "leaf" "monday" authorized

search_cycle_ends_example : ¬ (search_cycle knot ≡ out_of_rounds)
search_cycle_ends_example = search_cycle_ends knot
