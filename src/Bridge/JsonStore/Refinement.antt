-- ===== src/Bridge/JsonStore/Refinement.antt =====
-- The JSON file store of stores.ts answers as the memory store does, restarts included.
use local_first_p2p_app.Common.{
  ℕ, ◌≤◌, arith, max, All-map, ◌≡◌, refl, sym, subst, ap, ◌∙◌, Option, none, some, List, [], ◌∷◌,
  length, Option-cases, inl, inr,
}
use local_first_p2p_app.Bridge.Store.{
  StoredBridgeRecordDraft, StoredBridgeRecord, StoreOptions, StoreState, BridgeStorePutResult,
  BridgeStoreSnapshot, next_sequence, is_current, evict_expired, evict_to_capacity, find_key,
}
use local_first_p2p_app.Bridge.Store
use local_first_p2p_app.Bridge.JsonStore.{
  JsonStore, validate_state, empty_state, load_fresh_state, load_cached_state, load_pruned,
  persist_state, set_cached_state, get, put_found, put_if_absent, list_after, prune_expired,
  snapshot,
}
use local_first_p2p_app.Bridge.JsonStore.Trace.{
  Request, put, lookup, list, prune, count, put_result, record_found, listed, counted, Step, serve,
  restart, answer, answer_json, answers, answers_json, IsOrdered, raised, AreAscending,
}
use local_first_p2p_app.Bridge.JsonStore.Mirrors.{
  IsNormal, highest-max, Agrees, prune_state, Mirrors, Agrees-later, Agrees-refl, prune_state-same,
  validate_state-normal, empty_IsNormal, if-Mirrors, prune_state-Mirrors, persist_state-Mirrors,
  put_if_absent-IsNormal,
}

-- Loading either way leaves the store as it was, as far as later reads can tell.
module _ (initial from : ℕ) (m : StoreState) where
  fresh-Mirrors :
      (file cached : Option StoreState)
      → Mirrors initial from m (record { file = file; cached = cached })
      → Mirrors initial from m
          (load_fresh_state initial (record { file = file; cached = cached })).1
  unfolding load_fresh_state
  fresh-Mirrors none cached v = record {
    normal = v.normal;
    durable =
        subst (Agrees from m)
          (sym (validate_state-normal initial (empty_state initial) (empty_IsNormal initial)))
          v.durable;
    held = v.durable;
  }
  fresh-Mirrors (some f) cached v = record {
    normal = v.normal;
    durable = v.durable;
    held = v.durable;
  }

  cached-Mirrors :
      (file cached : Option StoreState)
      → Mirrors initial from m (record { file = file; cached = cached })
      → Mirrors initial from m
          (load_cached_state initial (record { file = file; cached = cached })).1
        × Agrees from m (load_cached_state initial (record { file = file; cached = cached })).0
  unfolding load_cached_state
  cached-Mirrors file none v = (fresh-Mirrors file none v, v.durable)
  cached-Mirrors file (some c) v = (v, v.held)

  -- What the pruned load yields is the memory store's state, pruned.
  load_pruned-Mirrors :
      (now : ℕ) (j : JsonStore)
      → from ≤ now
      → Mirrors initial from m j
      → ((load_pruned initial now j).0 ≡ prune_state now m)
        × Mirrors initial now (prune_state now m) (load_pruned initial now j).1
  unfolding load_pruned load_cached_state load_fresh_state
  load_pruned-Mirrors now j later v =
      let loaded = load_cached_state initial j in
      let (v', agrees) = cached-Mirrors j.file j.cached v in
      let same = prune_state-same now m loaded.0 (Agrees-later from now m loaded.0 later agrees) in
      let current = prune_state-Mirrors initial from now m loaded.1 later v' in
      (
        same,
        if-Mirrors initial now (prune_state now m) _
            (set_cached_state (prune_state now loaded.0) loaded.1) loaded.1
            (record {
              normal = current.normal;
              durable = current.durable;
              held =
                  subst (Agrees now (prune_state now m)) (sym same)
                    (Agrees-refl now (prune_state now m));
            })
            current,
      )

  put_if_absent-Agrees :
      (o : StoreOptions) (d : StoredBridgeRecordDraft) (now : ℕ) (j : JsonStore)
      → Agrees now m (load_fresh_state initial j).0
      → put_if_absent o initial d now j
        ≡ ((Store.put_if_absent o d now m).0, persist_state (Store.put_if_absent o d now m).1)
  unfolding put_if_absent Store.put_if_absent
  put_if_absent-Agrees o d now j agrees =
      let key = d.idempotency_key in
      let same = prune_state-same now m (load_fresh_state initial j).0 agrees in
      ap (λ s. put_found o d now s (find_key key s.records)) same
      ∙ elim (Option-cases (find_key key (evict_expired now m.records))) [
        | inr (r, found) ↦ rw found refl
        | inl absent ↦ rw absent refl
      ]

  prune_expired-Mirrors :
      (now : ℕ) (j : JsonStore)
      → from ≤ now
      → Mirrors initial from m j
      → Mirrors initial now (prune_state now m) (prune_expired initial now j)
  unfolding prune_expired load_fresh_state
  prune_expired-Mirrors now j later v =
      let fresh = load_fresh_state initial j in
      let same = prune_state-same now m fresh.0 (Agrees-later from now m fresh.0 later v.durable) in
      let current =
        prune_state-Mirrors initial from now m fresh.1 later (fresh-Mirrors j.file j.cached v) in
      if-Mirrors initial now (prune_state now m) _ (persist_state (prune_state now fresh.0))
        (set_cached_state (prune_state now fresh.0) fresh.1)
        (subst (λ s. Mirrors initial now (prune_state now m) (persist_state s)) (sym same)
          (persist_state-Mirrors initial now (prune_state now m) current.normal))
        (record {
          normal = current.normal;
          durable = current.durable;
          held =
              subst (Agrees now (prune_state now m)) (sym same)
                (Agrees-refl now (prune_state now m));
        })

  answer_json-Mirrors :
      (o : StoreOptions) (request : Request) (now : ℕ) (j : JsonStore)
      → from ≤ now
      → Mirrors initial from m j
      → ((answer_json o initial request now j).0 ≡ (answer o request now m).0)
        × Mirrors initial now (answer o request now m).1 (answer_json o initial request now j).1
  unfolding answer answer_json get list_after snapshot Store.get Store.list_after Store.snapshot
      Store.prune_expired
  answer_json-Mirrors o (put d) now j later v =
      let same = put_if_absent-Agrees o d now j (Agrees-later from now m _ later v.durable) in
      let m' = (Store.put_if_absent o d now m).1 in
      (
        ap (λ p. put_result p.0) same,
        subst (λ p. Mirrors initial now m' p.1) (sym same)
            (persist_state-Mirrors initial now m'
              (put_if_absent-IsNormal o initial d now m v.normal)),
      )
  answer_json-Mirrors o (lookup key) now j later v =
      let (same, v') = load_pruned-Mirrors now j later v in
      (ap (λ s. record_found (find_key key s.records)) same, v')
  answer_json-Mirrors o (list target after limit) now j later v =
      let (same, v') = load_pruned-Mirrors now j later v in
      (ap (λ s. listed (Store.collect target after limit [] s.records)) same, v')
  answer_json-Mirrors o prune now j later v = (refl, prune_expired-Mirrors now j later v)
  answer_json-Mirrors o count now j later v =
      let (same, v') = load_pruned-Mirrors now j later v in
      (
        ap
            (λ s.
              counted
                (record { accepted_count = length s.records; latest_sequence = s.latest_sequence }))
            same,
        v',
      )

-- What a fresh load finds once the initial number has risen.
raised-fresh :
    (initial next from : ℕ) (m : StoreState) (file : Option StoreState)
    → initial ≤ next
    → Agrees from m (load_fresh_state initial (record { file = file; cached = none })).0
    → Agrees from (raised next m) (load_fresh_state next (record { file = file; cached = none })).0
unfolding load_fresh_state Agrees validate_state
raised-fresh initial next from m none rises (same, latest) = (same, omega (arith, latest))
raised-fresh initial next from m (some f) rises (same, latest) =
    let base : max next f.latest_sequence ≡ max next (max initial f.latest_sequence) =
      omega arith in
    (same, rw (base, highest-max next (max initial f.latest_sequence) f.records, latest) refl)

raised-IsNormal :
    (initial next : ℕ) (m : StoreState) → IsNormal initial m → IsNormal next (raised next m)
unfolding IsNormal
raised-IsNormal initial next m (low, known) =
    (omega arith, All-map _ _ m.records (λ r h. omega (arith, h)) known)

restart-Mirrors :
    (initial next from : ℕ) (m : StoreState) (file cached : Option StoreState)
    → initial ≤ next
    → Mirrors initial from m (record { file = file; cached = cached })
    → Mirrors next from (raised next m) (record { file = file; cached = none })
unfolding load_fresh_state
restart-Mirrors initial next from m none cached rises v = record {
  normal = raised-IsNormal initial next m v.normal;
  durable = raised-fresh initial next from m none rises v.durable;
  held = tt;
}
restart-Mirrors initial next from m (some f) cached rises v = record {
  normal = raised-IsNormal initial next m v.normal;
  durable = raised-fresh initial next from m (some f) rises v.durable;
  held = tt;
}

answers_json-Mirrors :
    (o : StoreOptions) (initial from : ℕ) (steps : List Step) (m : StoreState) (j : JsonStore)
    → IsOrdered from steps
    → AreAscending initial steps
    → Mirrors initial from m j
    → answers_json o initial steps j ≡ answers o steps m
unfolding answers answers_json
answers_json-Mirrors o initial from [] m j ordered ascending v = refl
answers_json-Mirrors o initial from (serve request now ∷ steps) m j (later, ordered) ascending v =
    let (same, v') = answer_json-Mirrors initial from m o request now j later v in
    cc (
      same,
      answers_json-Mirrors o initial now steps (answer o request now m).1
          (answer_json o initial request now j).1 ordered ascending v',
    )
answers_json-Mirrors o initial from (restart next ∷ steps) m j ordered (rises, ascending) v =
    answers_json-Mirrors o next from steps (raised next m) (record j { cached = none }) ordered
      ascending (restart-Mirrors initial next from m j.file j.cached rises v)

-- From no file, with a clock that does not go back and initial sequence numbers that do not fall from
-- one start of the process to the next, the file store gives every request the same reply as one
-- memory store that starts at the first of these numbers, is never restarted, and has its counter
-- raised to at least the new number wherever the process of the file store starts again.
pub answers_json-answers :
    (o : StoreOptions) (initial from : ℕ) (steps : List Step)
    → IsOrdered from steps
    → AreAscending initial steps
    → answers_json o initial steps (record { file = none; cached = none })
      ≡ answers o steps (empty_state initial)
answers_json-answers o initial from steps ordered ascending =
    answers_json-Mirrors o initial from steps (empty_state initial) _ ordered ascending (record {
      normal = empty_IsNormal initial;
      durable = unfold load_fresh_state in Agrees-refl from (empty_state initial);
      held = tt;
    })
