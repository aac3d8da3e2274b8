-- ===== src/Bridge/JsonStore.antt =====
-- apps/bridge-service/src/stores.ts, with the helpers of utils.ts: the store of accepted records in a
-- JSON file. The file is the state that was written last (its JSON text is read back as it was
-- written), `cached` is the copy in memory, and `none` stands for a file that does not exist and a
-- state that was not loaded yet. Each start takes its
-- initial number anew, as the clock gives it (`restart` of JsonStore/Trace.antt). A lock runs the operations one after the other. Reads and writes of
-- the file succeed, and sequence numbers are safe integers.
pub mod Trace
pub mod Mirrors
pub mod Refinement
mod Tests
use local_first_p2p_app.Common.{
  ℕ, max, String, Bool, not, Option, none, some, List, [], ◌∷◌, ◌++◌, ◌==◌, if◌then◌else◌, length,
}
use local_first_p2p_app.Bridge.Store.{
  StoredBridgeRecordDraft, StoredBridgeRecord, StoreOptions, StoreState, BridgeStorePutResult,
  BridgeStoreSnapshot, existing, inserted, next_sequence, evict_expired, find_key,
  evict_to_capacity, with_allocated_sequence, collect,
}

pub record JsonStore : Type 0 where
  pub file : Option StoreState
  pub cached : Option StoreState

-- `Math.max(base, ...records.map((record) => record.sequence))`
unfoldable pub highest : ℕ → List StoredBridgeRecord → ℕ
highest base [] = base
highest base (r ∷ rs) = max r.sequence (highest base rs)

-- `validateJsonBridgeStoreState` on a state that the store wrote.
unfoldable pub validate_state : ℕ → StoreState → StoreState
validate_state initial s = record s {
  latest_sequence = highest (max initial s.latest_sequence) s.records;
}

abbrev pub set_cached_state : StoreState → JsonStore → JsonStore
set_cached_state state j = record j { cached = some state }

abbrev pub persist_state : StoreState → JsonStore
persist_state state = record { file = some state; cached = some state }

abbrev pub empty_state : ℕ → StoreState
empty_state initial = record { records = []; latest_sequence = initial }

unfoldable pub load_fresh_state : ℕ → JsonStore → StoreState × JsonStore
load_fresh_state initial j = elim j.file [
  | none ↦ (empty_state initial, persist_state (empty_state initial))
  | some state ↦ (validate_state initial state, set_cached_state (validate_state initial state) j)
]

unfoldable pub load_cached_state : ℕ → JsonStore → StoreState × JsonStore
load_cached_state initial j = elim j.cached [
  | none ↦ load_fresh_state initial j
  | some state ↦ (state, j)
]

-- `pruneExpiredRecords`: the state after it, and whether a record went.
abbrev pub prune_expired_records : ℕ → StoreState → Bool × StoreState
prune_expired_records now s =
    let records = evict_expired now s.records in
    (not (length records == length s.records), record s { records = records })

unfoldable pub load_pruned : ℕ → ℕ → JsonStore → StoreState × JsonStore
load_pruned initial now j =
    let (state, loaded) = load_cached_state initial j in
    let (changed, pruned) = prune_expired_records now state in
    (pruned, if changed then set_cached_state pruned loaded else loaded)

unfoldable pub get : ℕ → String → ℕ → JsonStore → Option StoredBridgeRecord × JsonStore
get initial key now j =
    let (state, j') = load_pruned initial now j in (find_key key state.records, j')

-- The end of `putIfAbsent`, after the search for the key among the current records.
abbrev pub put_found :
    StoreOptions
    → StoredBridgeRecordDraft
    → ℕ
    → StoreState
    → Option StoredBridgeRecord
    → BridgeStorePutResult × JsonStore
put_found o d now state (some r) = (record { status = existing; stored = r }, persist_state state)
put_found o d now state none =
    let n = next_sequence state.latest_sequence now in
    let stored = with_allocated_sequence d n in
    (
      record { status = inserted; stored = stored },
      persist_state (record {
        records = evict_to_capacity o.max_records state.records ++ stored ∷ [];
        latest_sequence = n;
      }),
    )

unfoldable pub put_if_absent :
    StoreOptions → ℕ → StoredBridgeRecordDraft → ℕ → JsonStore → BridgeStorePutResult × JsonStore
put_if_absent o initial d now j =
    let state = (prune_expired_records now (load_fresh_state initial j).0).1 in
    put_found o d now state (find_key d.idempotency_key state.records)

unfoldable pub list_after : ℕ → String → ℕ → ℕ → ℕ → JsonStore → List StoredBridgeRecord × JsonStore
list_after initial target after limit now j =
    let (state, j') = load_pruned initial now j in (collect target after limit [] state.records, j')

unfoldable pub prune_expired : ℕ → ℕ → JsonStore → JsonStore
prune_expired initial now j =
    let (state, loaded) = load_fresh_state initial j in
    let (changed, pruned) = prune_expired_records now state in
    if changed then persist_state pruned else set_cached_state pruned loaded

unfoldable pub snapshot : ℕ → ℕ → JsonStore → BridgeStoreSnapshot × JsonStore
snapshot initial now j =
    let (state, j') = load_pruned initial now j in
    (record { accepted_count = length state.records; latest_sequence = state.latest_sequence }, j')
