-- ===== src/Bridge/JsonStore/Mirrors.antt =====
-- When a state of the JSON file store of stores.ts stands for a state of the memory store.
use local_first_p2p_app.Common.{
  ℕ, ◌≤◌, ◌≡◌, refl, sym, subst, ap, ◌∙◌, Bool, true, false, Option, none, some, List, [], ◌∷◌,
  arith, All, All-keep, max, if◌then◌else◌, Option-cases, inl, inr,
}
use local_first_p2p_app.Bridge.Store.{
  StoredBridgeRecordDraft, StoredBridgeRecord, StoreOptions, StoreState, BridgeStorePutResult,
  BridgeStoreSnapshot, next_sequence, is_current, evict_expired, evict_to_capacity, find_key,
}
use local_first_p2p_app.Bridge.Store
use local_first_p2p_app.Bridge.Store.Records.{next_sequence-lt, put_found-allocated}
use local_first_p2p_app.Bridge.JsonStore.{
  JsonStore, highest, validate_state, empty_state, load_fresh_state, persist_state,
}

-- Nothing that is current from an instant on tells two states apart.
unfoldable pub Agrees : ℕ → StoreState → StoreState → Type 0
Agrees from m s =
    (evict_expired from m.records ≡ evict_expired from s.records)
    × (m.latest_sequence ≡ s.latest_sequence)

-- What `validateJsonBridgeStoreState` raises the latest number to has been reached.
unfoldable pub IsNormal : ℕ → StoreState → Type 0
IsNormal initial m =
    (initial ≤ m.latest_sequence) × All (λ r. r.sequence ≤ m.latest_sequence) m.records

abbrev pub prune_state : ℕ → StoreState → StoreState
prune_state now s = record s { records = evict_expired now s.records }

abbrev pub HeldAgrees : ℕ → StoreState → Option StoreState → Type 0
HeldAgrees from m none = Unit
HeldAgrees from m (some c) = Agrees from m c

pub record Mirrors (initial from : ℕ) (m : StoreState) (j : JsonStore) : Type 0 where
  pub normal : IsNormal initial m
  pub durable : Agrees from m (load_fresh_state initial j).0
  pub held : HeldAgrees from m j.cached

evict_expired-later :
    (a b : ℕ) (rs : List StoredBridgeRecord)
    → a ≤ b
    → evict_expired b (evict_expired a rs) ≡ evict_expired b rs
unfolding evict_expired
evict_expired-later a b [] h = refl
evict_expired-later a b (r ∷ rs) h = ground (arith, h, evict_expired-later a b rs h)

pub Agrees-later : (a b : ℕ) (m s : StoreState) → a ≤ b → Agrees a m s → Agrees b m s
unfolding Agrees
Agrees-later a b m s h (same, latest) = (
  sym (evict_expired-later a b m.records h)
      ∙ ap (evict_expired b) same
      ∙ evict_expired-later a b s.records h,
  latest,
)

pub Agrees-prune : (now : ℕ) (m s : StoreState) → Agrees now m s → Agrees now (prune_state now m) s
unfolding Agrees
Agrees-prune now m s (same, latest) =
    (evict_expired-later now now m.records (omega arith) ∙ same, latest)

pub Agrees-refl : (now : ℕ) (m : StoreState) → Agrees now m m
unfolding Agrees
Agrees-refl now m = (refl, refl)

pub prune_state-same :
    (now : ℕ) (m s : StoreState) → Agrees now m s → prune_state now s ≡ prune_state now m
unfolding Agrees
prune_state-same now m s (same, latest) = cc (same, latest)

highest-bounded :
    (base : ℕ) (rs : List StoredBridgeRecord)
    → All (λ r. r.sequence ≤ base) rs
    → highest base rs ≡ base
unfolding highest
highest-bounded base [] h = refl
highest-bounded base (r ∷ rs) (first, h) = ground (arith, first, highest-bounded base rs h)

-- Raising the base raises the result.
pub highest-max :
    (n base : ℕ) (rs : List StoredBridgeRecord) → highest (max n base) rs ≡ max n (highest base rs)
unfolding highest
highest-max n base [] = refl
highest-max n base (r ∷ rs) = rw (highest-max n base rs) (omega arith)

pub validate_state-normal :
    (initial : ℕ) (s : StoreState) → IsNormal initial s → validate_state initial s ≡ s
unfolding IsNormal validate_state
validate_state-normal initial s (low, h) =
    let same : max initial s.latest_sequence ≡ s.latest_sequence = omega (arith, low) in
    cc (same, highest-bounded s.latest_sequence s.records h)

pub prune_state-IsNormal :
    (initial now : ℕ) (m : StoreState) → IsNormal initial m → IsNormal initial (prune_state now m)
unfolding IsNormal evict_expired
prune_state-IsNormal initial now m (low, h) =
    (low, All-keep (λ r. r.sequence ≤ m.latest_sequence) (is_current now) m.records h)

pub put_if_absent-IsNormal :
    (o : StoreOptions) (initial : ℕ) (d : StoredBridgeRecordDraft) (now : ℕ) (m : StoreState)
    → IsNormal initial m
    → IsNormal initial (Store.put_if_absent o d now m).1
unfolding Store.put_if_absent IsNormal
put_if_absent-IsNormal o initial d now m normal =
    let current = prune_state-IsNormal initial now m normal in
    elim (Option-cases (find_key d.idempotency_key (evict_expired now m.records))) [
      | inr (r, found) ↦ rw found current
      | inl absent ↦ rw absent (
        omega (arith, normal.0, next_sequence-lt m.latest_sequence now),
        put_found-allocated o d now (prune_state now m) current.1,
      )
    ]

module _ (initial : ℕ) where
  pub empty_IsNormal : IsNormal initial (empty_state initial)
  unfolding IsNormal
  empty_IsNormal = (omega arith, tt)

  pub if-Mirrors :
      (from : ℕ) (m : StoreState) (b : Bool) (x y : JsonStore)
      → Mirrors initial from m x
      → Mirrors initial from m y
      → Mirrors initial from m (if b then x else y)
  if-Mirrors from m true x y v w = v
  if-Mirrors from m false x y v w = w

  pub prune_state-Mirrors :
      (from now : ℕ) (m : StoreState) (j : JsonStore)
      → from ≤ now
      → Mirrors initial from m j
      → Mirrors initial now (prune_state now m) j
  prune_state-Mirrors from now m j later v = record {
    normal = prune_state-IsNormal initial now m v.normal;
    durable = Agrees-prune now m _ (Agrees-later from now m _ later v.durable);
    held = held_later j.cached v.held;
  }
    where
      held_later :
          (c : Option StoreState) → HeldAgrees from m c → HeldAgrees now (prune_state now m) c
      held_later none h = tt
      held_later (some c) h = Agrees-prune now m c (Agrees-later from now m c later h)

  pub persist_state-Mirrors :
      (now : ℕ) (m : StoreState) → IsNormal initial m → Mirrors initial now m (persist_state m)
  unfolding load_fresh_state
  persist_state-Mirrors now m normal = record {
    normal = normal;
    durable =
        subst (Agrees now m) (sym (validate_state-normal initial m normal)) (Agrees-refl now m);
    held = Agrees-refl now m;
  }
