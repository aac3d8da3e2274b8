-- ===== src/Bridge/Store/Records.antt =====
-- The well-formedness of the store's records, kept by every operation of stores.ts.
use local_first_p2p_app.Common.{
  ℕ, ◌≤◌, ◌<◌, ◌≡◌, refl, String, Bool, true, false, none, List, [], ◌∷◌, ◌++◌, arith, All, leb,
  if◌then◌else◌, length, keep, str_eq, contains, IsDistinct, keys, All-map, ◌||◌, All-keep,
  All-append_last, length-append, length-keep, Option-cases, inl, inr, str_eq_sym,
}
use local_first_p2p_app.Bridge.Store.{
  StoredBridgeRecordDraft, StoredBridgeRecord, StoreOptions, StoreState, next_sequence, is_current,
  evict_expired, find_key, evict_to_capacity, put_if_absent, put_found, with_allocated_sequence,
}

abbrev pub record_keys : List StoredBridgeRecord → List String
record_keys rs = keys (λ r. r.idempotency_key) rs

-- Sequence numbers grow along the list.
abbrev pub IsAscending : List StoredBridgeRecord → Type 0
IsAscending [] = Unit
IsAscending (r ∷ rs) = All (λ q. r.sequence < q.sequence) rs × IsAscending rs

pub record IsValid (o : StoreOptions) (s : StoreState) : Type 0 where
  pub distinct : IsDistinct (record_keys s.records)
  pub ascending : IsAscending s.records
  pub allocated : All (λ r. r.sequence ≤ s.latest_sequence) s.records
  pub within : length s.records ≤ o.max_records

contains-keep :
    (p : StoredBridgeRecord → Bool) (rs : List StoredBridgeRecord) (k : String)
    → contains (record_keys rs) k ≡ false
    → contains (record_keys (keep p rs)) k ≡ false
contains-keep p [] k h = h
contains-keep p (r ∷ rs) k h = ground (arith, contains-keep p rs k)

IsDistinct-keep_records :
    (p : StoredBridgeRecord → Bool) (rs : List StoredBridgeRecord)
    → IsDistinct (record_keys rs)
    → IsDistinct (record_keys (keep p rs))
IsDistinct-keep_records p [] d = d
IsDistinct-keep_records p (r ∷ rs) d =
    ground (arith, IsDistinct-keep_records p rs d.1, contains-keep p rs r.idempotency_key d.0)

pub IsAscending-keep :
    (p : StoredBridgeRecord → Bool) (rs : List StoredBridgeRecord)
    → IsAscending rs
    → IsAscending (keep p rs)
IsAscending-keep p [] a = a
IsAscending-keep p (r ∷ rs) (first, a) =
    elim (p r) as (λ b. IsAscending (if b then r ∷ keep p rs else keep p rs)) [
      | true ↦ (All-keep (λ q. r.sequence < q.sequence) p rs first, IsAscending-keep p rs a)
      | false ↦ IsAscending-keep p rs a
    ]

evict_expired-IsValid :
    (o : StoreOptions) (now : ℕ) (s : StoreState)
    → IsValid o s
    → IsValid o (record s { records = evict_expired now s.records })
unfolding evict_expired
evict_expired-IsValid o now s v = record {
  distinct = IsDistinct-keep_records (is_current now) s.records v.distinct;
  ascending = IsAscending-keep (is_current now) s.records v.ascending;
  allocated = All-keep (λ r. r.sequence ≤ s.latest_sequence) (is_current now) s.records v.allocated;
  within = omega (arith, length-keep (is_current now) s.records, v.within);
}

evict_to_capacity-IsDistinct :
    (most : ℕ) (rs : List StoredBridgeRecord)
    → IsDistinct (record_keys rs)
    → IsDistinct (record_keys (evict_to_capacity most rs))
unfolding evict_to_capacity
evict_to_capacity-IsDistinct most [] d = d
evict_to_capacity-IsDistinct most (r ∷ rs) d =
    ground (arith, d, evict_to_capacity-IsDistinct most rs d.1)

evict_to_capacity-absent :
    (most : ℕ) (rs : List StoredBridgeRecord) (k : String)
    → contains (record_keys rs) k ≡ false
    → contains (record_keys (evict_to_capacity most rs)) k ≡ false
unfolding evict_to_capacity
evict_to_capacity-absent most [] k h = h
evict_to_capacity-absent most (r ∷ rs) k h = ground (arith, h, evict_to_capacity-absent most rs k)

-- What holds of all records and is kept by leaving out the first holds after the eviction.
module _ (P : List StoredBridgeRecord → Type 0)
    (tail : (r : StoredBridgeRecord) (rs : List StoredBridgeRecord) → P (r ∷ rs) → P rs) where
  evict_to_capacity-keeps :
      (most : ℕ) (rs : List StoredBridgeRecord) → P rs → P (evict_to_capacity most rs)
  unfolding evict_to_capacity
  evict_to_capacity-keeps most [] h = h
  evict_to_capacity-keeps most (r ∷ rs) h =
      elim (leb most (length (r ∷ rs)))
        as (λ b. P (if b then evict_to_capacity most rs else r ∷ rs)) [
          | true ↦ evict_to_capacity-keeps most rs (tail r rs h)
          | false ↦ h
        ]

pub length-evict_to_capacity :
    (most : ℕ) (rs : List StoredBridgeRecord) → 0 < most → length (evict_to_capacity most rs) < most
unfolding evict_to_capacity
length-evict_to_capacity most [] h = h
length-evict_to_capacity most (r ∷ rs) h = ground (arith, h, length-evict_to_capacity most rs h)

pub find_key-absent :
    (key : String) (rs : List StoredBridgeRecord)
    → find_key key rs ≡ none
    → contains (record_keys rs) key ≡ false
unfolding find_key
find_key-absent key [] h = refl
find_key-absent key (r ∷ rs) h = ground (arith, h, find_key-absent key rs)

contains-append_last :
    (xs : List StoredBridgeRecord) (x : StoredBridgeRecord) (k : String)
    → contains (record_keys (xs ++ x ∷ [])) k
      ≡ (contains (record_keys xs) k || str_eq x.idempotency_key k)
contains-append_last [] x k = ground arith
contains-append_last (y ∷ xs) x k = ground (arith, contains-append_last xs x k)

IsDistinct-append_last :
    (rs : List StoredBridgeRecord) (r : StoredBridgeRecord)
    → IsDistinct (record_keys rs)
    → contains (record_keys rs) r.idempotency_key ≡ false
    → IsDistinct (record_keys (rs ++ r ∷ []))
IsDistinct-append_last [] r d h = (refl, tt)
IsDistinct-append_last (q ∷ rs) r d h = ground (
  arith,
  d,
  h,
  IsDistinct-append_last rs r d.1,
  contains-append_last rs r q.idempotency_key,
  str_eq_sym q.idempotency_key r.idempotency_key,
)

IsAscending-append_last :
    (rs : List StoredBridgeRecord) (r : StoredBridgeRecord)
    → IsAscending rs
    → All (λ q. q.sequence < r.sequence) rs
    → IsAscending (rs ++ r ∷ [])
IsAscending-append_last [] r a h = (tt, tt)
IsAscending-append_last (q ∷ rs) r (first, a) (lt, h) =
    (All-append_last (λ x. q.sequence < x.sequence) rs r first lt, IsAscending-append_last rs r a h)

pub next_sequence-lt : (current now : ℕ) → current < next_sequence current now
unfolding next_sequence
next_sequence-lt current now = ground arith

pub put_found-allocated :
    (o : StoreOptions) (d : StoredBridgeRecordDraft) (now : ℕ) (s : StoreState)
    → All (λ r. r.sequence ≤ s.latest_sequence) s.records
    → All
        (λ r. r.sequence ≤ next_sequence s.latest_sequence now)
        (put_found o d now s none).1.records
put_found-allocated o d now s fits =
    let n = next_sequence s.latest_sequence now in
    let kept = evict_to_capacity o.max_records s.records in
    All-append_last (λ r. r.sequence ≤ n) kept (with_allocated_sequence d n)
      (All-map (λ r. r.sequence ≤ s.latest_sequence) (λ r. r.sequence ≤ n) kept
        (λ x h. omega (arith, next_sequence-lt s.latest_sequence now))
        (evict_to_capacity-keeps (λ rs. All (λ r. r.sequence ≤ s.latest_sequence) rs)
          (λ r rs h. h.1) o.max_records s.records fits))
      (omega arith)

put_found-IsValid :
    (o : StoreOptions) (d : StoredBridgeRecordDraft) (now : ℕ) (s : StoreState)
    → 0 < o.max_records
    → IsValid o s
    → find_key d.idempotency_key s.records ≡ none
    → IsValid o (put_found o d now s none).1
put_found-IsValid o d now s room v absent =
    let n = next_sequence s.latest_sequence now in
    let kept = evict_to_capacity o.max_records s.records in
    let fits =
      evict_to_capacity-keeps (λ rs. All (λ r. r.sequence ≤ s.latest_sequence) rs) (λ r rs h. h.1)
        o.max_records s.records v.allocated in
    record {
      distinct =
          IsDistinct-append_last kept (with_allocated_sequence d n)
            (evict_to_capacity-IsDistinct o.max_records s.records v.distinct)
            (evict_to_capacity-absent o.max_records s.records d.idempotency_key
              (find_key-absent d.idempotency_key s.records absent));
      ascending =
          IsAscending-append_last kept (with_allocated_sequence d n)
            (evict_to_capacity-keeps IsAscending (λ r rs h. h.1) o.max_records s.records
              v.ascending)
            (All-map (λ r. r.sequence ≤ s.latest_sequence) (λ q. q.sequence < n) kept
              (λ x h. omega (arith, next_sequence-lt s.latest_sequence now)) fits);
      allocated = put_found-allocated o d now s v.allocated;
      within = omega (
        arith,
        length-append kept (with_allocated_sequence d n ∷ []),
        length-evict_to_capacity o.max_records s.records room,
      );
    }

-- Offering a record keeps the store well formed: keys distinct, sequence numbers growing along the
-- records and none above the latest, and at most `maxRecords` records.
pub put_if_absent-IsValid :
    (o : StoreOptions) (d : StoredBridgeRecordDraft) (now : ℕ) (s : StoreState)
    → 0 < o.max_records
    → IsValid o s
    → IsValid o (put_if_absent o d now s).1
unfolding put_if_absent
put_if_absent-IsValid o d now s room v =
    let current = evict_expired-IsValid o now s v in
    elim (Option-cases (find_key d.idempotency_key (evict_expired now s.records))) [
      | inl absent ↦ rw absent (put_found-IsValid o d now _ room current absent)
      | inr (r, found) ↦ rw found current
    ]
