-- ===== src/Capabilities/Delegation/Rounds.antt =====
-- The rounds that the searches of packages/capabilities/src/delegation-graph.ts take: each goes down
-- to an id of the graph that it has not gone through, so there is one for each id, and a last one.
use local_first_p2p_app.Common.{
  ℕ, zero, suc, ◌<◌, ◌≤◌, ◌≡◌, refl, sym, ap, subst, ◌∙◌, String, Bool, true, false, List, [], ◌∷◌,
  arith, if◌then◌else◌, is_some, contains, str_eq, eq_iff, length, keep, inl, inr, Bool-cases,
  Option-cases,
}
use local_first_p2p_app.Common.Dict.{Dict, lookup}
use local_first_p2p_app.Capabilities.{CapabilityGrant}
use local_first_p2p_app.Capabilities.Delegation.{
  ids, proof_ids, parents, Search, out_of_rounds, visit_all, has_cycle,
}
use local_first_p2p_app.Capabilities.Delegation.Cycles.{
  Search-cases, at_stacked, at_visited, at_absent, at_new,
}

-- How many ids are not in the list.
abbrev pub remaining : List String → List String → ℕ
remaining passed [] = 0
remaining passed (id ∷ rest) =
    let others = remaining passed rest in if contains passed id then others else suc others

remaining_shrinks :
    (id : String) (passed all : List String) → remaining (id ∷ passed) all ≤ remaining passed all
remaining_shrinks id passed [] = omega arith
remaining_shrinks id passed (x ∷ rest) = ground (arith, remaining_shrinks id passed rest)

pub remaining_falls :
    (id : String) (passed all : List String)
    → contains passed id ≡ false
    → contains all id ≡ true
    → remaining (id ∷ passed) all < remaining passed all
remaining_falls id passed [] off there = cc there
remaining_falls id passed (x ∷ rest) off there = elim (Bool-cases (str_eq x id)) [
  | inl same ↦
      let off_x : contains passed x ≡ false = ap (contains passed) ((eq_iff x id).0 same) ∙ off in
      ground (arith, off_x, remaining_shrinks id passed rest, eq_iff id x, (eq_iff x id).0 same)
  | inr differ ↦
      ground (arith, differ, there, remaining_falls id passed rest off, eq_iff id x, eq_iff x id)
]

pub remaining_all : (all : List String) → remaining [] all ≡ length all
remaining_all [] = refl
remaining_all (x ∷ rest) = ap suc (remaining_all rest)

pub is_some-ids :
    (id : String) (grants : Dict CapabilityGrant)
    → is_some (lookup id grants) ≡ true
    → contains (ids grants) id ≡ true
unfolding lookup
is_some-ids id [] h = cc h
is_some-ids id ((j, held) ∷ rest) h = elim (Bool-cases (str_eq j id)) [
  | inl same ↦ rw same refl
  | inr differ ↦ rw differ (is_some-ids id rest (rw differ at h))
]

contains-keep :
    (p : String → Bool) (xs : List String) (k : String) → contains (keep p xs) k ≡ true → p k ≡ true
contains-keep p [] k h = cc h
contains-keep p (x ∷ xs) k h = elim (Bool-cases (p x)) [
  | inl yes_x ↦ elim (Bool-cases (str_eq x k)) [
    | inl same ↦ subst (λ y. p y ≡ true) ((eq_iff x k).0 same) yes_x
    | inr differ ↦ contains-keep p xs k (ground (arith, h, yes_x, differ))
  ]
  | inr no_x ↦ contains-keep p xs k (ground (arith, h, no_x))
]

pub parents-is_some :
    (grants : Dict CapabilityGrant) (grant : CapabilityGrant) (id : String)
    → contains (parents grants grant) id ≡ true
    → is_some (lookup id grants) ≡ true
unfolding parents
parents-is_some grants grant id h =
    contains-keep (λ x. is_some (lookup x grants)) (proof_ids grant.proof_refs) id h

module _ (grants : Dict CapabilityGrant) where
  pub visit_all_ends :
      (visit : String → List String → Search) (all visited : List String)
      → ((id : String) (v : List String) → ¬ (visit id v ≡ out_of_rounds))
      → ¬ (visit_all visit all visited ≡ out_of_rounds)
  unfolding visit_all
  visit_all_ends visit [] visited each h = cc h
  visit_all_ends visit (id ∷ rest) visited each h = elim (Search-cases (visit id visited)) [
    | inl e ↦ cc (rw (e, visit_all) at h)
    | inr (inr e) ↦ each id visited e
    | inr (inl (between, e)) ↦ visit_all_ends visit rest between each (rw (e, visit_all) at h)
  ]

  -- More rounds than there are ids off the stack are enough.
  pub has_cycle_ends :
      (rounds : ℕ) (stack : List String) (id : String) (visited : List String)
      → remaining stack (ids grants) < rounds
      → ¬ (has_cycle grants rounds stack id visited ≡ out_of_rounds)
  has_cycle_ends zero stack id visited enough h = omega (arith, enough)
  has_cycle_ends (suc rounds) stack id visited enough h = elim (Bool-cases (contains stack id)) [
    | inl on ↦ cc (h, at_stacked grants rounds stack id visited on)
    | inr off ↦ elim (Bool-cases (contains visited id)) [
      | inl old ↦ cc (h, at_visited grants rounds stack id visited off old)
      | inr new ↦ elim (Option-cases (lookup id grants)) [
        | inl absent ↦ cc (h, at_absent grants rounds stack id visited off new absent)
        | inr (grant, there) ↦
            let is_id = is_some-ids id grants (rw there refl) in
            let less : remaining (id ∷ stack) (ids grants) < rounds =
              omega (arith, enough, remaining_falls id stack (ids grants) off is_id) in
            visit_all_ends (has_cycle grants rounds (id ∷ stack)) (parents grants grant)
              (id ∷ visited) (λ p v. has_cycle_ends rounds (id ∷ stack) p v less)
              (sym (at_new grants rounds stack id visited grant off new there) ∙ h)
      ]
    ]
  ]
