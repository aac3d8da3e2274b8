-- ===== src/Capabilities/Delegation.antt =====
-- packages/capabilities/src/delegation-graph.ts. `parse` is `Date.parse`, and `none` where the date is
-- not finite. The graph is two maps in insertion order.
pub mod Cycles
pub mod Rounds
pub mod Detection
pub mod Chains
pub mod Authority
mod Tests
use local_first_p2p_app.Common.{
  ℕ, zero, suc, String, Bool, true, false, not, ◌&&◌, ◌||◌, Option, none, some, List, [], ◌∷◌, ◌++◌,
  ltb, leb, ◌==◌, if◌then◌else◌, is_some, contains, str_eq, length, keep,
}
use local_first_p2p_app.Common.Dict.{Dict, lookup, insert}
use local_first_p2p_app.Capabilities.{
  CapabilityGrant, CapabilityProofRef, same_party, same_resource, same_scope,
}

pub record CapabilityRevocationRecord : Type 0 where
  pub capability_id : String
  pub revoked_at : String
  pub revoked_by : String
  pub reason : String

pub record CapabilityDelegationGraph : Type 0 where
  pub grants : Dict CapabilityGrant
  pub revocations : Dict (List CapabilityRevocationRecord)

pub record CapabilityDelegationEdge : Type 0 where
  pub from : String
  pub to : String

pub record CapabilityDelegationPath : Type 0 where
  pub edges : List CapabilityDelegationEdge
  pub grants : List CapabilityGrant

abbrev pub or_empty {ℓ} : {A : Type ℓ} → Option (List A) → List A
or_empty none = []
or_empty (some xs) = xs

unfoldable pub add_grant : CapabilityGrant → CapabilityDelegationGraph → CapabilityDelegationGraph
add_grant grant graph = record graph { grants = insert grant.capability_id grant graph.grants }

unfoldable pub add_revocation :
    CapabilityRevocationRecord → CapabilityDelegationGraph → CapabilityDelegationGraph
add_revocation revocation graph =
    let list = or_empty (lookup revocation.capability_id graph.revocations) in
    record graph {
      revocations = insert revocation.capability_id (list ++ revocation ∷ []) graph.revocations;
    }

-- The two loops of the constructor.
unfoldable pub add_grants :
    List CapabilityGrant → CapabilityDelegationGraph → CapabilityDelegationGraph
add_grants [] graph = graph
add_grants (grant ∷ rest) graph = add_grants rest (add_grant grant graph)

unfoldable pub add_revocations :
    List CapabilityRevocationRecord → CapabilityDelegationGraph → CapabilityDelegationGraph
add_revocations [] graph = graph
add_revocations (revocation ∷ rest) graph = add_revocations rest (add_revocation revocation graph)

unfoldable pub new_graph :
    List CapabilityGrant → List CapabilityRevocationRecord → CapabilityDelegationGraph
unfolding add_grants add_revocations
new_graph grants revocations =
    add_revocations revocations (add_grants grants (record { grants = []; revocations = [] }))

-- `graph.grants.keys()`
abbrev pub ids {ℓ} : {V : Type ℓ} → Dict V → List String
ids [] = []
ids ((id, value) ∷ rest) = id ∷ ids rest

abbrev pub proof_ids : List CapabilityProofRef → List String
proof_ids [] = []
proof_ids (proof ∷ rest) = proof.proof_id ∷ proof_ids rest

-- The proofs of a grant that the graph holds.
unfoldable pub parents : Dict CapabilityGrant → CapabilityGrant → List String
parents grants grant = keep (λ id. is_some (lookup id grants)) (proof_ids grant.proof_refs)

-- What a search comes to: a cycle, or the nodes visited so far; or it has used up its rounds.
pub data Search : Type 0 where
  cycle : Search
  done : List String → Search
  out_of_rounds : Search

-- The loop over a node's proofs, and that over the keys.
unfoldable pub visit_all : (String → List String → Search) → List String → List String → Search
visit_all visit [] visited = done visited
visit_all visit (id ∷ rest) visited = elim (visit id visited) [
  | cycle ↦ cycle
  | done seen ↦ visit_all visit rest seen
  | out_of_rounds ↦ out_of_rounds
]

-- `recStack` is handed down, since a node is taken off it as soon as its search ends without a cycle.
unfoldable pub has_cycle : Dict CapabilityGrant → ℕ → List String → String → List String → Search
has_cycle grants zero stack id visited = out_of_rounds
has_cycle grants (suc rounds) stack id visited = elim (contains stack id) [
  | true ↦ cycle
  | false ↦ elim (contains visited id) [
    | true ↦ done visited
    | false ↦ elim (lookup id grants) [
      | none ↦ done (id ∷ visited)
      | some grant ↦
          visit_all (has_cycle grants rounds (id ∷ stack)) (parents grants grant) (id ∷ visited)
    ]
  ]
]

abbrev pub is_cycle : Search → Bool
is_cycle cycle = true
is_cycle (done visited) = false
is_cycle out_of_rounds = false

abbrev pub search_cycle : CapabilityDelegationGraph → Search
search_cycle graph =
    visit_all (has_cycle graph.grants (suc (length (ids graph.grants))) []) (ids graph.grants) []

unfoldable pub detect_delegation_cycle : CapabilityDelegationGraph → Bool
detect_delegation_cycle graph = is_cycle (search_cycle graph)

unfoldable pub edges_of : List CapabilityGrant → List CapabilityDelegationEdge
edges_of [] = []
edges_of (from ∷ []) = []
edges_of (from ∷ to ∷ rest) =
    record { from = from.capability_id; to = to.capability_id } ∷ edges_of (to ∷ rest)

unfoldable pub create_path : List CapabilityGrant → CapabilityDelegationPath
create_path grants = record { edges = edges_of grants; grants = grants }

abbrev pub path_if_any : List CapabilityGrant → List CapabilityDelegationPath
path_if_any [] = []
path_if_any (grant ∷ rest) = create_path (grant ∷ rest) ∷ []

-- A node whose proofs the graph does not hold: a root if it has none at all.
abbrev pub root_path : CapabilityGrant → List CapabilityGrant → List CapabilityDelegationPath
root_path grant chain = elim grant.proof_refs [ [] ↦ create_path chain ∷ [] | proof ∷ rest ↦ [] ]

unfoldable pub traverse_all :
    (String → List CapabilityDelegationPath) → List String → List CapabilityDelegationPath
traverse_all go [] = []
traverse_all go (id ∷ rest) = go id ++ traverse_all go rest

-- The paths from a root to `id` and on along `chain`, in the order in which they are pushed.
unfoldable pub traverse :
    Dict CapabilityGrant
    → ℕ
    → String
    → List CapabilityGrant
    → List String
    → List CapabilityDelegationPath
traverse grants zero id chain visited = []
traverse grants (suc rounds) id chain visited = elim (lookup id grants) [
  | none ↦ path_if_any chain
  | some grant ↦ elim (contains visited id) [
    | true ↦ []
    | false ↦ elim (parents grants grant) [
      | [] ↦ root_path grant (grant ∷ chain)
      | parent ∷ rest ↦
          traverse_all (λ p. traverse grants rounds p (grant ∷ chain) (id ∷ visited))
            (parent ∷ rest)
    ]
  ]
]

unfoldable pub build_capability_proof_graph :
    CapabilityDelegationGraph → String → List CapabilityDelegationPath
build_capability_proof_graph graph id =
    traverse graph.grants (suc (length (ids graph.grants))) id [] []

unfoldable pub all_in : List String → List String → Bool
all_in parent_actions [] = true
all_in parent_actions (action ∷ rest) = contains parent_actions action && all_in parent_actions rest

-- Both dates are finite, and the test holds of them.
abbrev pub both : (ℕ → ℕ → Bool) → Option ℕ → Option ℕ → Bool
both test none b = false
both test (some a) none = false
both test (some a) (some b) = test a b

module _ (parse : String → Option ℕ) where
  abbrev pub starts_no_earlier : Option String → Option String → Bool
  starts_no_earlier none child = true
  starts_no_earlier (some parent) none = false
  starts_no_earlier (some parent) (some child) = both leb (parse parent) (parse child)

  unfoldable pub validate_delegation_step : CapabilityGrant → CapabilityGrant → Bool
  validate_delegation_step parent child =
      same_party child.issuer parent.audience
      && same_resource child.resource parent.resource
      && all_in parent.actions child.actions
      && same_scope child.scope parent.scope
      && both leb (parse child.expires_at) (parse parent.expires_at)
      && starts_no_earlier parent.not_before child.not_before
      && ltb 0 parent.delegation_depth
      && ltb child.delegation_depth parent.delegation_depth

  -- The loop of `validateDelegationPath` over neighbours.
  unfoldable pub validate_steps : List CapabilityGrant → Bool
  validate_steps [] = true
  validate_steps (grant ∷ []) = true
  validate_steps (parent ∷ child ∷ rest) =
      validate_delegation_step parent child && validate_steps (child ∷ rest)

  unfoldable pub validate_delegation_path : CapabilityDelegationPath → Bool
  validate_delegation_path path = not (length path.grants == 0) && validate_steps path.grants

  abbrev pub has_started : Option String → ℕ → Bool
  has_started none now = true
  has_started (some not_before) now = both leb (parse not_before) (some now)

  -- A revocation counts from its time on, if the issuer of the grant made it.
  abbrev pub is_effective : CapabilityGrant → ℕ → CapabilityRevocationRecord → Bool
  is_effective grant now revocation =
      str_eq revocation.revoked_by grant.issuer.id
      && both leb (parse revocation.revoked_at) (some now)

  unfoldable pub is_revoked : CapabilityGrant → ℕ → List CapabilityRevocationRecord → Bool
  is_revoked grant now [] = false
  is_revoked grant now (revocation ∷ rest) =
      is_effective grant now revocation || is_revoked grant now rest

  unfoldable pub is_in_force : CapabilityDelegationGraph → ℕ → CapabilityGrant → Bool
  is_in_force graph now grant =
      both ltb (some now) (parse grant.expires_at)
      && has_started grant.not_before now
      && not (is_revoked grant now (or_empty (lookup grant.capability_id graph.revocations)))

  unfoldable pub all_in_force : CapabilityDelegationGraph → ℕ → List CapabilityGrant → Bool
  all_in_force graph now [] = true
  all_in_force graph now (grant ∷ rest) = is_in_force graph now grant && all_in_force graph now rest

  abbrev pub all_in_force_at : CapabilityDelegationGraph → Option ℕ → List CapabilityGrant → Bool
  all_in_force_at graph none grants = false
  all_in_force_at graph (some now) grants = all_in_force graph now grants

  unfoldable pub is_delegation_path_valid :
      CapabilityDelegationGraph → CapabilityDelegationPath → String → Bool
  is_delegation_path_valid graph path now =
      validate_delegation_path path && all_in_force_at graph (parse now) path.grants

  unfoldable pub any_valid :
      CapabilityDelegationGraph → List CapabilityDelegationPath → String → Bool
  any_valid graph [] now = false
  any_valid graph (path ∷ rest) now =
      is_delegation_path_valid graph path now || any_valid graph rest now

  unfoldable pub is_capability_authorized : CapabilityDelegationGraph → String → String → Bool
  is_capability_authorized graph id now =
      if detect_delegation_cycle graph
      then false
      else any_valid graph (build_capability_proof_graph graph id) now
