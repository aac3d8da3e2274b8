-- ===== src/Bridge/Store/Idempotence.antt =====
-- Idempotent delivery in stores.ts.
use local_first_p2p_app.Common.{
  ℕ, ◌<◌, ◌≡◌, refl, sym, ap, subst, keep, ltb, String, none, some, List, [], ◌∷◌, ◌++◌, arith,
  if◌then◌else◌, str_eq, eq_iff, Option-cases, inl, inr,
}
use local_first_p2p_app.Bridge.Store.{
  StoredBridgeRecordDraft, StoredBridgeRecord, StoreOptions, StoreState, next_sequence,
  evict_expired, find_key, existing, inserted, evict_to_capacity, get, put_if_absent,
  with_allocated_sequence,
}
use local_first_p2p_app.Bridge.Store.Records.{next_sequence-lt}

find_key-append_last :
    (rs : List StoredBridgeRecord) (r : StoredBridgeRecord) (key : String)
    → find_key key rs ≡ none
    → find_key key (rs ++ r ∷ []) ≡ (if str_eq r.idempotency_key key then some r else none)
unfolding find_key
find_key-append_last [] r key h = refl
find_key-append_last (q ∷ rs) r key h = ground (arith, h, find_key-append_last rs r key)

find_key-evicted :
    (most : ℕ) (rs : List StoredBridgeRecord) (key : String)
    → find_key key rs ≡ none
    → find_key key (evict_to_capacity most rs) ≡ none
unfolding find_key evict_to_capacity
find_key-evicted most [] key h = refl
find_key-evicted most (r ∷ rs) key h = ground (arith, h, find_key-evicted most rs key)

find_key-keep_none :
    (now : ℕ) (rs : List StoredBridgeRecord) (key : String)
    → find_key key rs ≡ none
    → find_key key (evict_expired now rs) ≡ none
unfolding find_key evict_expired
find_key-keep_none now [] key h = refl
find_key-keep_none now (r ∷ rs) key h = ground (arith, h, find_key-keep_none now rs key)

-- A current record that is found is found as well among the current ones.
find_key-keep :
    (now : ℕ) (rs : List StoredBridgeRecord) (key : String) (r : StoredBridgeRecord)
    → find_key key rs ≡ some r
    → now < r.expires_at
    → find_key key (evict_expired now rs) ≡ some r
unfolding find_key evict_expired
find_key-keep now [] key r h fresh = cc
find_key-keep now (q ∷ rs) key r h fresh = ground (arith, h, fresh, find_key-keep now rs key r)

find_key-expiring :
    (now : ℕ) (rs : List StoredBridgeRecord) (key : String) (r : StoredBridgeRecord)
    → find_key key (evict_expired now rs) ≡ some r
    → now < r.expires_at
unfolding find_key evict_expired
find_key-expiring now [] key r h = cc
find_key-expiring now (q ∷ rs) key r h = ground (arith, h, find_key-expiring now rs key r)

-- After an offer, inserted or not, the store holds the record of the result under the key.
put_if_absent-holds :
    (o : StoreOptions) (d : StoredBridgeRecordDraft) (now : ℕ) (s : StoreState)
    → find_key d.idempotency_key (put_if_absent o d now s).1.records
      ≡ some (put_if_absent o d now s).0.stored
unfolding put_if_absent
put_if_absent-holds o d now s =
    let rs = evict_expired now s.records in
    let n = next_sequence s.latest_sequence now in
    elim (Option-cases (find_key d.idempotency_key rs)) [
      | inr (r, found) ↦ rw found found
      | inl absent ↦ ground (
        arith,
        absent,
        find_key-append_last (evict_to_capacity o.max_records rs) (with_allocated_sequence d n)
            d.idempotency_key (find_key-evicted o.max_records rs d.idempotency_key absent),
        eq_iff d.idempotency_key d.idempotency_key,
      )
    ]

put_found_again :
    (o : StoreOptions) (d : StoredBridgeRecordDraft) (key : String) (now : ℕ) (s : StoreState)
    (r : StoredBridgeRecord)
    → d.idempotency_key ≡ key
    → find_key key (evict_expired now s.records) ≡ some r
    → (put_if_absent o d now s).0 ≡ record { status = existing; stored = r }
unfolding put_if_absent
put_found_again o d key now s r same held =
    let found : find_key d.idempotency_key (evict_expired now s.records) ≡ some r =
      subst (λ k. find_key k (evict_expired now s.records) ≡ some r) (sym same) held in
    rw found

get_found :
    (key : String) (now : ℕ) (s : StoreState) (r : StoredBridgeRecord)
    → find_key key (evict_expired now s.records) ≡ some r
    → (get key now s).0 ≡ some r
unfolding get
get_found key now s r held = held

put_found_state :
    (o : StoreOptions) (d : StoredBridgeRecordDraft) (key : String) (now : ℕ) (s : StoreState)
    (r : StoredBridgeRecord)
    → d.idempotency_key ≡ key
    → find_key key (evict_expired now s.records) ≡ some r
    → (put_if_absent o d now s).1 ≡ record s { records = evict_expired now s.records }
unfolding put_if_absent
put_found_state o d key now s r same held =
    let found : find_key d.idempotency_key (evict_expired now s.records) ≡ some r =
      subst (λ k. find_key k (evict_expired now s.records) ≡ some r) (sym same) held in
    rw found refl

-- A second offer under the key of the first, before the first one's record expires, returns that
-- record with its sequence number, whatever draft comes with it, and so does a lookup of the key. It
-- stores nothing: the store after it has the records before it that have not expired, and the same
-- latest sequence number.
pub put_twice :
    (o : StoreOptions) (d again : StoredBridgeRecordDraft) (now later : ℕ) (s : StoreState)
    → again.idempotency_key ≡ d.idempotency_key
    → later < (put_if_absent o d now s).0.stored.expires_at
    → ((put_if_absent o again later (put_if_absent o d now s).1).0
        ≡ record { status = existing; stored = (put_if_absent o d now s).0.stored })
      × ((get d.idempotency_key later (put_if_absent o d now s).1).0
          ≡ some (put_if_absent o d now s).0.stored)
      × ((put_if_absent o again later (put_if_absent o d now s).1).1.records
          ≡ keep (λ r. ltb later r.expires_at) (put_if_absent o d now s).1.records)
      × ((put_if_absent o again later (put_if_absent o d now s).1).1.latest_sequence
          ≡ (put_if_absent o d now s).1.latest_sequence)
unfolding evict_expired
put_twice o d again now later s same fresh =
    let s' = (put_if_absent o d now s).1 in
    let held =
      find_key-keep later s'.records d.idempotency_key (put_if_absent o d now s).0.stored
        (put_if_absent-holds o d now s) fresh in
    let after =
      put_found_state o again d.idempotency_key later s' (put_if_absent o d now s).0.stored same
        held in
    (
      put_found_again o again d.idempotency_key later s' (put_if_absent o d now s).0.stored same
          held,
      get_found d.idempotency_key later s' (put_if_absent o d now s).0.stored held,
      ap (λ (x : StoreState). x.records) after,
      ap (λ (x : StoreState). x.latest_sequence) after,
    )

-- An inserted record gets a sequence number above the latest one before it, and becomes the latest.
inserted-sequence :
    (o : StoreOptions) (d : StoredBridgeRecordDraft) (now : ℕ) (s : StoreState)
    → (put_if_absent o d now s).0.status ≡ inserted
    → (s.latest_sequence < (put_if_absent o d now s).0.stored.sequence)
      × ((put_if_absent o d now s).1.latest_sequence ≡ (put_if_absent o d now s).0.stored.sequence)
      × ((put_if_absent o d now s).0.stored.draft ≡ d)
unfolding put_if_absent
inserted-sequence o d now s h = ground (arith, h, next_sequence-lt s.latest_sequence now)
