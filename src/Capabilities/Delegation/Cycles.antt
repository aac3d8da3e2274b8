-- ===== src/Capabilities/Delegation/Cycles.antt =====
-- The search for cycles of packages/capabilities/src/delegation-graph.ts (detectDelegationCycle).
use local_first_p2p_app.Common.{
  ℕ, zero, suc, ◌≡◌, ◌⊎◌, refl, sym, subst, ◌∙◌, String, true, false, none, some, List, [], ◌∷◌,
  arith, contains, str_eq, eq_iff, inl, inr, Bool-cases, Option-cases,
}
use local_first_p2p_app.Common.Dict.{Dict, lookup}
use local_first_p2p_app.Capabilities.{CapabilityGrant}
use local_first_p2p_app.Capabilities.Delegation.{
  parents, Search, cycle, done, out_of_rounds, visit_all, has_cycle,
}

-- `b` is a proof of the grant `a`, and the graph holds both.
abbrev pub Edge : Dict CapabilityGrant → String → String → Type 0
Edge grants a b =
    (grant : CapabilityGrant) × (lookup a grants ≡ some grant)
    × (contains (parents grants grant) b ≡ true)

-- A walk of one edge or more.
pub data Walk (grants : Dict CapabilityGrant) : String → String → Type 0 where
  one : {a b : String} → Edge grants a b → Walk grants a b
  more : {a b c : String} → Walk grants a b → Edge grants b c → Walk grants a c

-- Every walk from `a` ends.
pub data Safe (grants : Dict CapabilityGrant) : String → Type 0 where
  safe : {a : String} → ((b : String) → Edge grants a b → Safe grants b) → Safe grants a

pub Search-cases :
    (r : Search) → (r ≡ cycle) ⊎ (((seen : List String) × (r ≡ done seen)) ⊎ (r ≡ out_of_rounds))
Search-cases cycle = inl refl
Search-cases (done seen) = inr (inl (seen, refl))
Search-cases out_of_rounds = inr (inr refl)

module _ (grants : Dict CapabilityGrant) where
  pub first-Edge :
      {a b : String}
      → Walk grants a b
      → (m : String) × Edge grants a m × ((m ≡ b) ⊎ Walk grants m b)
  first-Edge {b = b} (one e) = (b, e, inl refl)
  first-Edge {b = b} (more w e) =
      let (m, f, rest) = first-Edge w in
      (
        m,
        f,
        elim rest [
          | inl same ↦ inr (one (subst (λ x. Edge grants x b) (sym same) e))
          | inr v ↦ inr (more v e)
        ],
      )

  pub Safe-not_cyclic : {a : String} → Safe grants a → ¬ (Walk grants a a)
  Safe-not_cyclic {a} (safe next) w =
      let (m, f, rest) = first-Edge w in
      Safe-not_cyclic (next m f) (elim rest [
        | inl same ↦ one (subst (λ x. Edge grants x m) (sym same) f)
        | inr v ↦ more v f
      ])

  -- What has been visited and left is safe.
  abbrev pub Cleared : List String → List String → Type 0
  Cleared stack visited =
      (x : String) → contains visited x ≡ true → contains stack x ≡ false → Safe grants x

  pub visit_all-Cleared :
      (visit : String → List String → Search) (stack : List String)
      → ((id : String) (visited seen : List String)
          → Cleared stack visited
          → visit id visited ≡ done seen
          → Cleared stack seen × Safe grants id)
      → (ids : List String) (visited seen : List String) → Cleared stack visited
      → visit_all visit ids visited ≡ done seen
      → Cleared stack seen × ((x : String) → contains ids x ≡ true → Safe grants x)
  unfolding visit_all
  visit_all-Cleared visit stack each [] visited seen c h =
      let same : visited ≡ seen = cc h in (subst (Cleared stack) same c, λ x k. cc k)
  visit_all-Cleared visit stack each (id ∷ rest) visited seen c h =
      elim (Search-cases (visit id visited)) [
        | inl e ↦ cc (rw (e, visit_all) at h)
        | inr (inr e) ↦ cc (rw (e, visit_all) at h)
        | inr (inl (between, e)) ↦
            let (c1, s) = each id visited between c e in
            let (c2, all) =
              visit_all-Cleared visit stack each rest between seen c1 (rw (e, visit_all) at h) in
            (
              c2,
              λ x k. elim (Bool-cases (str_eq id x)) [
                | inl same ↦ subst (Safe grants) ((eq_iff id x).0 same) s
                | inr differ ↦ all x (ground (arith, k, differ))
              ],
            )
      ]

  -- The four cases of the search at a node.
  module _ (rounds : ℕ) (stack : List String) (id : String) (visited : List String) where
    pub at_stacked :
        contains stack id ≡ true → has_cycle grants (suc rounds) stack id visited ≡ cycle
    unfolding has_cycle
    at_stacked on = rw (on, has_cycle) refl

    pub at_visited :
        contains stack id ≡ false
        → contains visited id ≡ true
        → has_cycle grants (suc rounds) stack id visited ≡ done visited
    unfolding has_cycle
    at_visited off old = rw (off, has_cycle) (rw (old, has_cycle) refl)

    pub at_absent :
        contains stack id ≡ false
        → contains visited id ≡ false
        → lookup id grants ≡ none
        → has_cycle grants (suc rounds) stack id visited ≡ done (id ∷ visited)
    unfolding has_cycle
    at_absent off new absent =
        rw (off, has_cycle) (rw (new, has_cycle) (rw (absent, has_cycle) refl))

    pub at_new :
        (grant : CapabilityGrant)
        → contains stack id ≡ false
        → contains visited id ≡ false
        → lookup id grants ≡ some grant
        → has_cycle grants (suc rounds) stack id visited
          ≡ visit_all (has_cycle grants rounds (id ∷ stack)) (parents grants grant) (id ∷ visited)
    unfolding has_cycle
    at_new grant off new there =
        rw (off, has_cycle) (rw (new, has_cycle) (rw (there, has_cycle) refl))

  enter-Cleared :
      (stack visited : List String) (id : String)
      → Cleared stack visited
      → Cleared (id ∷ stack) (id ∷ visited)
  enter-Cleared stack visited id c x seen off =
      c x (ground (arith, seen, off)) (ground (arith, off))

  leave-Cleared :
      (stack visited : List String) (id : String)
      → Safe grants id
      → Cleared (id ∷ stack) visited
      → Cleared stack visited
  leave-Cleared stack visited id s c x seen off = elim (Bool-cases (str_eq id x)) [
    | inl same ↦ subst (Safe grants) ((eq_iff id x).0 same) s
    | inr differ ↦ c x seen (ground (arith, off, differ))
  ]

  add-Cleared :
      (stack visited : List String) (id : String)
      → Safe grants id
      → Cleared stack visited
      → Cleared stack (id ∷ visited)
  add-Cleared stack visited id s c x seen off = elim (Bool-cases (str_eq id x)) [
    | inl same ↦ subst (Safe grants) ((eq_iff id x).0 same) s
    | inr differ ↦ c x (ground (arith, seen, differ)) off
  ]

  absent-Safe : (id : String) → lookup id grants ≡ none → Safe grants id
  absent-Safe id absent = safe (λ b e. let (grant, there, _) = e in cc (absent, there))

  parents-Safe :
      (id : String) (grant : CapabilityGrant)
      → lookup id grants ≡ some grant
      → ((x : String) → contains (parents grants grant) x ≡ true → Safe grants x)
      → Safe grants id
  parents-Safe id grant there all = safe (λ b e.
      let (held, at, is_parent) = e in
      let same : held ≡ grant = cc (at, there) in
      all b (subst (λ g. contains (parents grants g) b ≡ true) same is_parent))

  pub has_cycle-Cleared :
      (rounds : ℕ) (stack : List String) (id : String) (visited seen : List String)
      → Cleared stack visited
      → has_cycle grants rounds stack id visited ≡ done seen
      → Cleared stack seen × Safe grants id
  has_cycle-Cleared zero stack id visited seen c h = unfold has_cycle in cc h
  has_cycle-Cleared (suc rounds) stack id visited seen c h = elim (Bool-cases (contains stack id)) [
    | inl on ↦ cc (h, at_stacked rounds stack id visited on)
    | inr off ↦ elim (Bool-cases (contains visited id)) [
      | inl old ↦
          let same : visited ≡ seen = cc (h, at_visited rounds stack id visited off old) in
          (subst (Cleared stack) same c, c id old off)
      | inr new ↦ elim (Option-cases (lookup id grants)) [
        | inl absent ↦
            let same : id ∷ visited ≡ seen =
              cc (h, at_absent rounds stack id visited off new absent) in
            let s = absent-Safe id absent in
            (subst (Cleared stack) same (add-Cleared stack visited id s c), s)
        | inr (grant, there) ↦
            let (c1, all) =
              visit_all-Cleared (has_cycle grants rounds (id ∷ stack)) (id ∷ stack)
                (λ p v w k e. has_cycle-Cleared rounds (id ∷ stack) p v w k e)
                (parents grants grant) (id ∷ visited) seen (enter-Cleared stack visited id c)
                (sym (at_new rounds stack id visited grant off new there) ∙ h) in
            let s = parents-Safe id grant there all in (leave-Cleared stack seen id s c1, s)
      ]
    ]
  ]

  -- Every node of the stack has a walk to `id`.
  abbrev pub Reaches : List String → String → Type 0
  Reaches stack id = (x : String) → contains stack x ≡ true → Walk grants x id

  pub enter-Reaches :
      (stack : List String) (id b : String)
      → Edge grants id b
      → Reaches stack id
      → Reaches (id ∷ stack) b
  enter-Reaches stack id b e r x on = elim (Bool-cases (str_eq id x)) [
    | inl same ↦ subst (λ y. Walk grants y b) ((eq_iff id x).0 same) (one e)
    | inr differ ↦ more (r x (ground (arith, on, differ))) e
  ]

  abbrev pub Cyclic : Type 0
  Cyclic = (x : String) × Walk grants x x

  pub visit_all-Cyclic :
      (visit : String → List String → Search) (ids visited : List String)
      → ((id : String) (v : List String) → contains ids id ≡ true → visit id v ≡ cycle → Cyclic)
      → visit_all visit ids visited ≡ cycle
      → Cyclic
  unfolding visit_all
  visit_all-Cyclic visit [] visited each h = cc h
  visit_all-Cyclic visit (id ∷ rest) visited each h = elim (Search-cases (visit id visited)) [
    | inl e ↦ each id visited (ground (arith, eq_iff id id)) e
    | inr (inr e) ↦ cc (rw (e, visit_all) at h)
    | inr (inl (between, e)) ↦
        visit_all-Cyclic visit rest between (λ x v k. each x v (ground (arith, k)))
          (rw (e, visit_all) at h)
  ]

  pub has_cycle-Cyclic :
      (rounds : ℕ) (stack : List String) (id : String) (visited : List String)
      → Reaches stack id
      → has_cycle grants rounds stack id visited ≡ cycle
      → Cyclic
  has_cycle-Cyclic zero stack id visited r h = unfold has_cycle in cc h
  has_cycle-Cyclic (suc rounds) stack id visited r h = elim (Bool-cases (contains stack id)) [
    | inl on ↦ (id, r id on)
    | inr off ↦ elim (Bool-cases (contains visited id)) [
      | inl old ↦ cc (h, at_visited rounds stack id visited off old)
      | inr new ↦ elim (Option-cases (lookup id grants)) [
        | inl absent ↦ cc (h, at_absent rounds stack id visited off new absent)
        | inr (grant, there) ↦
            visit_all-Cyclic (has_cycle grants rounds (id ∷ stack)) (parents grants grant)
              (id ∷ visited)
              (λ p v is_parent e.
                has_cycle-Cyclic rounds (id ∷ stack) p v
                  (enter-Reaches stack id p (grant, there, is_parent) r) e)
              (sym (at_new rounds stack id visited grant off new there) ∙ h)
      ]
    ]
  ]
