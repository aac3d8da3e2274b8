-- ===== src/Projections/Entries.antt =====
-- Maps of entries in the projections: what one change of one entry does to each key.
use local_first_p2p_app.Common.{
  ◌≡◌, not, ◌&&◌, is_some, refl, sym, ap, subst, ◌∙◌, String, Bool, true, Option, none, some, [],
  arith, if◌then◌else◌, str_eq, eq_iff, inl, inr, Bool-cases, Option-cases,
}
use local_first_p2p_app.Common.Dict.{Dict, lookup, insert, lookup-insert, lookup-empty}

abbrev pub change_option {ℓ} : {V : Type ℓ} → (V → V) → Option V → Option V
change_option f none = none
change_option f (some v) = some (f v)

pub some-eq : {V : Type 0} (a b : V) (o : Option V) → o ≡ some a → o ≡ some b → a ≡ b
some-eq a b o h j = cc (h, j)

module _ {V : Type 0} where
  -- `d'` is `d` with the entry of `id`, if there is one, changed by `f`.
  abbrev pub Changes : (V → V) → String → Dict V → Dict V → Type 0
  Changes f id d d' =
      (k : String)
      → lookup k d' ≡ (if str_eq id k then change_option f (lookup k d) else lookup k d)

  pub Changes-none : (f : V → V) (id : String) (d : Dict V) → lookup id d ≡ none → Changes f id d d
  Changes-none f id d absent k = elim (Bool-cases (str_eq id k)) [
    | inl same ↦
        let none_k : lookup k d ≡ none =
          ap (λ j. lookup j d) (sym ((eq_iff id k).0 same)) ∙ absent in
        rw (same, none_k) refl
    | inr other ↦ rw other refl
  ]

  pub Changes-same :
      (f : V → V) (id : String) (d : Dict V) (v : V)
      → lookup id d ≡ some v
      → f v ≡ v
      → Changes f id d d
  Changes-same f id d v there fixed k = elim (Bool-cases (str_eq id k)) [
    | inl same ↦
        let some_k : lookup k d ≡ some v =
          ap (λ j. lookup j d) (sym ((eq_iff id k).0 same)) ∙ there in
        rw (same, some_k, fixed) refl
    | inr other ↦ rw other refl
  ]

  pub Changes-insert :
      (f : V → V) (id : String) (d : Dict V) (v : V)
      → lookup id d ≡ some v
      → Changes f id d (insert id (f v) d)
  Changes-insert f id d v there k = elim (Bool-cases (str_eq id k)) [
    | inl same ↦
        let some_k : lookup k d ≡ some v =
          ap (λ j. lookup j d) (sym ((eq_iff id k).0 same)) ∙ there in
        rw (lookup-insert id k (f v) d, same, some_k) refl
    | inr other ↦ rw (lookup-insert id k (f v) d, other) refl
  ]

  -- The entry of `id` is replaced, where there is one that does not stop the change.
  unfoldable pub update_entry : (V → Bool) → (V → V) → String → Dict V → Dict V
  update_entry stops change id d = elim (lookup id d) [
    | none ↦ d
    | some v ↦ if stops v then d else insert id (change v) d
  ]

  abbrev pub unless : (V → Bool) → (V → V) → V → V
  unless stops change v = if stops v then v else change v

  pub update_entry-Changes :
      (stops : V → Bool) (change : V → V) (id : String) (d : Dict V)
      → Changes (unless stops change) id d (update_entry stops change id d)
  unfolding update_entry
  update_entry-Changes stops change id d =
      let f = unless stops change in
      elim (Option-cases (lookup id d)) [
        | inl absent ↦
            subst (Changes f id d) (rw (update_entry, absent) refl) (Changes-none f id d absent)
        | inr (v, there) ↦ elim (Bool-cases (stops v)) [
          | inl stop ↦
              subst (Changes f id d) (rw (update_entry, there, stop) refl)
                (Changes-same f id d v there (rw stop refl))
          | inr go ↦
              let e : f v ≡ change v = rw go refl in
              let made : insert id (f v) d ≡ update_entry stops change id d =
                rw (update_entry, there, go) refl in
              subst (Changes f id d) made (Changes-insert f id d v there)
        ]
      ]

  unfoldable pub add_entry : Bool → String → V → Dict V → Dict V
  add_entry mine id v d = if mine && not (is_some (lookup id d)) then insert id v d else d

  -- Every entry of `d` is still there in `d'`, in the relation to what it was.
  abbrev pub Steps : (V → V → Type 0) → Dict V → Dict V → Type 0
  Steps R d d' =
      (k : String) (v : V) → lookup k d ≡ some v → (v' : V) × (lookup k d' ≡ some v') × R v v'

  -- Every entry of `d` satisfies `P` with its key.
  abbrev pub Entries : (String → V → Type 0) → Dict V → Type 0
  Entries P d = (k : String) (v : V) → lookup k d ≡ some v → P k v

module _ {V : Type 0} (R : V → V → Type 0) (same : (v : V) → R v v) where
  pub Steps-refl : (d : Dict V) → Steps R d d
  Steps-refl d k v there = (v, there, same v)

  pub Steps-Changes :
      (f : V → V) (id : String) (d d' : Dict V)
      → Changes f id d d'
      → ((v : V) → R v (f v))
      → Steps R d d'
  Steps-Changes f id d d' changes step k v there = elim (Bool-cases (str_eq id k)) [
    | inl hit ↦ (f v, changes k ∙ rw (hit, there) refl, step v)
    | inr miss ↦ (v, changes k ∙ rw (miss, there) refl, same v)
  ]

  pub Steps-new :
      (id : String) (v : V) (d : Dict V) → lookup id d ≡ none → Steps R d (insert id v d)
  Steps-new id v d absent k w there = elim (Bool-cases (str_eq id k)) [
    | inl hit ↦
        let none_k : lookup k d ≡ none =
          ap (λ j. lookup j d) (sym ((eq_iff id k).0 hit)) ∙ absent in
        cc (none_k, there)
    | inr miss ↦ (w, lookup-insert id k v d ∙ rw miss there, same w)
  ]

  -- A new entry is made where a condition holds and the key has none.
  pub Steps-add :
      (mine : Bool) (id : String) (v : V) (d : Dict V) → Steps R d (add_entry mine id v d)
  unfolding add_entry
  Steps-add mine id v d = elim (Bool-cases (mine && not (is_some (lookup id d)))) [
    | inl go ↦
        let absent : lookup id d ≡ none = ground (arith, go) in
        subst (Steps R d) (rw (add_entry, go) refl) (Steps-new id v d absent)
    | inr stop ↦ subst (Steps R d) (rw (add_entry, stop) refl) (Steps-refl d)
  ]

module _ {V : Type 0} (R : V → V → Type 0) (chain : (a b c : V) → R a b → R b c → R a c) where
  pub Steps-trans : (d e f : Dict V) → Steps R d e → Steps R e f → Steps R d f
  Steps-trans d e f p q k v there =
      let (w, there', r) = p k v there in
      let (x, there'', r') = q k w there' in (x, there'', chain v w x r r')

module _ {V : Type 0} (P : String → V → Type 0) where
  pub Entries-empty : Entries P []
  Entries-empty k v there = cc (lookup-empty k, there)

  pub Entries-changes :
      (f : V → V) (id : String) (d d' : Dict V)
      → Changes f id d d'
      → ((k : String) (v : V) → P k v → P k (f v))
      → Entries P d
      → Entries P d'
  Entries-changes f id d d' changes step all k v' there' = elim (Option-cases (lookup k d)) [
    | inl absent ↦ cc (
      elim (Bool-cases (str_eq id k)) as (λ b. lookup k d' ≡ none) [
        | inl hit ↦ changes k ∙ rw (hit, absent) refl
        | inr miss ↦ changes k ∙ rw (miss, absent) refl
      ],
      there',
    )
    | inr (v, there) ↦ elim (Bool-cases (str_eq id k)) [
      | inl hit ↦
          let e : v' ≡ f v =
            some-eq v' (f v) (lookup k d') there' (changes k ∙ rw (hit, there) refl) in
          rw e (step k v (all k v there))
      | inr miss ↦
          let e : v' ≡ v = some-eq v' v (lookup k d') there' (changes k ∙ rw (miss, there) refl) in
          rw e (all k v there)
    ]
  ]

  pub Entries-insert :
      (id : String) (v : V) (d : Dict V) → P id v → Entries P d → Entries P (insert id v d)
  Entries-insert id v d new all k w there = elim (Bool-cases (str_eq id k)) [
    | inl hit ↦
        let w_eq : w ≡ v =
          some-eq w v (lookup k (insert id v d)) there (lookup-insert id k v d ∙ rw hit refl) in
        rw w_eq (subst (λ j. P j v) ((eq_iff id k).0 hit) new)
    | inr miss ↦ all k w (sym (lookup-insert id k v d ∙ rw miss refl) ∙ there)
  ]

  pub Entries-add :
      (mine : Bool) (id : String) (v : V) (d : Dict V)
      → (mine ≡ true → P id v)
      → Entries P d
      → Entries P (add_entry mine id v d)
  unfolding add_entry
  Entries-add mine id v d new all = elim (Bool-cases (mine && not (is_some (lookup id d)))) [
    | inl go ↦
        let fits : P id v = new (ground (arith, go)) in
        subst (Entries P) (rw (add_entry, go) refl) (Entries-insert id v d fits all)
    | inr stop ↦ subst (Entries P) (rw (add_entry, stop) refl) all
  ]
