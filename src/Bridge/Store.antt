-- ===== src/Bridge/Store.antt =====
-- apps/bridge-service/src/stores.ts, with the helpers of utils.ts: the in-memory store of accepted
-- records. A Map keeps its keys in insertion order, and each record stands under its own key, so the
-- map is the list of its records. The signed event is opaque to the stores, and its text stands for
-- it; `expires_at` is the parsed date. A draft has passed `validateStoredBridgeRecordDraft`.
pub mod Records
pub mod Idempotence
pub mod Paging
mod Tests
use local_first_p2p_app.Common.{
  ℕ, suc, ◌+◌, ◌*◌, min, max, String, Bool, true, false, not, ◌||◌, ◌&&◌, Option, none, some, List,
  [], ◌∷◌, ◌++◌, ltb, leb, if◌then◌else◌, length, keep, str_eq, is_some,
}

pub record StoredBridgeRecordDraft : Type 0 where
  pub idempotency_key : String
  pub target : String
  pub event_id : String
  pub author : String
  pub privacy : String
  pub accepted_at : ℕ
  pub expires_at : ℕ
  pub event : Option String

pub record StoredBridgeRecord : Type 0 where
  pub draft : StoredBridgeRecordDraft
  pub open draft use *
  pub sequence : ℕ

pub record StoreOptions : Type 0 where
  pub max_records : ℕ
  pub ttl_ms : ℕ

pub record StoreState : Type 0 where
  pub records : List StoredBridgeRecord
  pub latest_sequence : ℕ

pub data PutStatus : Type 0 where
  existing inserted : PutStatus

pub record BridgeStorePutResult : Type 0 where
  pub status : PutStatus
  pub stored : StoredBridgeRecord

-- `Number.MAX_SAFE_INTEGER - 1`
abbrev pub max_sequence_base : ℕ
max_sequence_base = 9_007_199_254_740_990

unfoldable pub next_sequence : ℕ → ℕ → ℕ
next_sequence current now = max (current + 1) (min (now * 1_000) max_sequence_base)

abbrev pub is_current : ℕ → StoredBridgeRecord → Bool
is_current now r = ltb now r.expires_at

unfoldable pub evict_expired : ℕ → List StoredBridgeRecord → List StoredBridgeRecord
evict_expired now records = keep (is_current now) records

unfoldable pub find_key : String → List StoredBridgeRecord → Option StoredBridgeRecord
find_key key [] = none
find_key key (r ∷ rs) = if str_eq r.idempotency_key key then some r else find_key key rs

-- The oldest records go while there are `maxRecords` of them or more.
unfoldable pub evict_to_capacity : ℕ → List StoredBridgeRecord → List StoredBridgeRecord
evict_to_capacity most [] = []
evict_to_capacity most (r ∷ rs) =
    let fewer = evict_to_capacity most rs in if leb most (length (r ∷ rs)) then fewer else r ∷ rs

abbrev pub with_allocated_sequence : StoredBridgeRecordDraft → ℕ → StoredBridgeRecord
with_allocated_sequence d n = record { draft = d; sequence = n }

unfoldable pub get : String → ℕ → StoreState → Option StoredBridgeRecord × StoreState
get key now s =
    let records = evict_expired now s.records in
    (find_key key records, record s { records = records })

-- The end of `putIfAbsent`, after the search for the key among the current records.
abbrev pub put_found :
    StoreOptions
    → StoredBridgeRecordDraft
    → ℕ
    → StoreState
    → Option StoredBridgeRecord
    → BridgeStorePutResult × StoreState
put_found o d now s (some r) = (record { status = existing; stored = r }, s)
put_found o d now s none =
    let n = next_sequence s.latest_sequence now in
    let stored = with_allocated_sequence d n in
    (
      record { status = inserted; stored = stored },
      record {
        records = evict_to_capacity o.max_records s.records ++ stored ∷ [];
        latest_sequence = n;
      },
    )

unfoldable pub put_if_absent :
    StoreOptions → StoredBridgeRecordDraft → ℕ → StoreState → BridgeStorePutResult × StoreState
put_if_absent o d now s =
    let records = evict_expired now s.records in
    put_found o d now (record s { records = records }) (find_key d.idempotency_key records)

-- `record.target === target && record.sequence > afterSequence && record.event !== undefined`
abbrev pub is_listed : String → ℕ → StoredBridgeRecord → Bool
is_listed target after r = str_eq r.target target && ltb after r.sequence && is_some r.event

-- The loop of `listAfter`: it stops once `limit` records are collected.
unfoldable pub collect :
    String → ℕ → ℕ → List StoredBridgeRecord → List StoredBridgeRecord → List StoredBridgeRecord
collect target after limit found [] = found
collect target after limit found (r ∷ rs) =
    let skip = collect target after limit found rs in
    let more = collect target after limit (found ++ r ∷ []) rs in
    if not (is_listed target after r)
    then skip
    else if leb limit (length (found ++ r ∷ []))
    then found ++ r ∷ []
    else more

unfoldable pub list_after : String → ℕ → ℕ → ℕ → StoreState → List StoredBridgeRecord × StoreState
list_after target after limit now s =
    let records = evict_expired now s.records in
    (collect target after limit [] records, record s { records = records })

unfoldable pub prune_expired : ℕ → StoreState → StoreState
prune_expired now s = record s { records = evict_expired now s.records }

pub record BridgeStoreSnapshot : Type 0 where
  pub accepted_count : ℕ
  pub latest_sequence : ℕ

unfoldable pub snapshot : ℕ → StoreState → BridgeStoreSnapshot × StoreState
snapshot now s =
    let records = evict_expired now s.records in
    (
      record { accepted_count = length records; latest_sequence = s.latest_sequence },
      record s { records = records },
    )
