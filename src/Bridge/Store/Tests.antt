-- ===== src/Bridge/Store/Tests.antt =====
-- Runs of the in-memory store of stores.ts, and the theorems at concrete states.
use local_first_p2p_app.Common.{◌≤◌, keep, ltb, length, ◌≡◌, refl, String, some, [], ◌∷◌, arith}
use local_first_p2p_app.Bridge.Store.{
  StoredBridgeRecordDraft, StoreOptions, StoreState, existing, inserted, next_sequence,
  evict_expired, find_key, evict_to_capacity, put_if_absent, get,
}
use local_first_p2p_app.Bridge.Store.Records.{IsValid, IsAscending, put_if_absent-IsValid}
use local_first_p2p_app.Bridge.Store.Idempotence.{put_twice}
use local_first_p2p_app.Bridge.Store.Paging.{pending, read_pages, read_pages_complete}

abbrev draft : String → String → StoredBridgeRecordDraft
draft key event_id = record {
  idempotency_key = key;
  target = "bob";
  event_id = event_id;
  author = "alice";
  privacy = "dm";
  accepted_at = 10;
  expires_at = 100;
  event = some "{}";
}

abbrev options : StoreOptions
options = record { max_records = 2; ttl_ms = 90 }

abbrev empty : StoreState
empty = record { records = []; latest_sequence = 7 }

abbrev two : StoreState
two = record {
  records =
      record { draft = draft "k1" "e1"; sequence = 10_000 }
      ∷ record { draft = draft "k2" "e2"; sequence = 11_000 }
      ∷ [];
  latest_sequence = 11_000;
}

inserts : (put_if_absent options (draft "k1" "e1") 10 empty).0.stored.sequence ≡ 10_000
unfolding put_if_absent evict_expired find_key next_sequence
inserts = refl

inserts-status : (put_if_absent options (draft "k1" "e1") 10 empty).0.status ≡ inserted
unfolding put_if_absent evict_expired find_key
inserts-status = refl

inserts-expiry : (put_if_absent options (draft "k1" "e1") 10 empty).0.stored.expires_at ≡ 100
unfolding put_if_absent evict_expired find_key
inserts-expiry = refl

evicts :
    (put_if_absent options (draft "k3" "e3") 12 two).1.records
    ≡ record { draft = draft "k2" "e2"; sequence = 11_000 }
      ∷ record { draft = draft "k3" "e3"; sequence = 12_000 }
      ∷ []
unfolding put_if_absent evict_expired find_key next_sequence evict_to_capacity
evicts = refl

empty-IsValid : IsValid options empty
empty-IsValid = record { distinct = tt; ascending = tt; allocated = tt; within = omega arith }

two-IsValid : IsValid options two
two-IsValid = record {
  distinct = (refl, (refl, tt));
  ascending = omega arith;
  allocated = omega arith;
  within = omega arith;
}

put_if_absent-IsValid_example : IsValid options (put_if_absent options (draft "k1" "e1") 10 empty).1
put_if_absent-IsValid_example =
    put_if_absent-IsValid options (draft "k1" "e1") 10 empty (omega arith) empty-IsValid

put_twice_example :
    ((put_if_absent options
        (draft "k1" "e9")
        20
        (put_if_absent options (draft "k1" "e1") 10 empty).1).0
      ≡ record {
        status = existing;
        stored = (put_if_absent options (draft "k1" "e1") 10 empty).0.stored;
      })
    × ((get "k1" 20 (put_if_absent options (draft "k1" "e1") 10 empty).1).0
        ≡ some (put_if_absent options (draft "k1" "e1") 10 empty).0.stored)
    × ((put_if_absent options
          (draft "k1" "e9")
          20
          (put_if_absent options (draft "k1" "e1") 10 empty).1).1.records
        ≡ keep
            (λ r. ltb 20 r.expires_at)
            (put_if_absent options (draft "k1" "e1") 10 empty).1.records)
    × ((put_if_absent options
          (draft "k1" "e9")
          20
          (put_if_absent options (draft "k1" "e1") 10 empty).1).1.latest_sequence
        ≡ (put_if_absent options (draft "k1" "e1") 10 empty).1.latest_sequence)
put_twice_example =
    put_twice options (draft "k1" "e1") (draft "k1" "e9") 10 20 empty refl
      (omega (arith, inserts-expiry))

few_pending : length (pending "bob" 0 (evict_expired 50 two.records)) ≤ 2
unfolding evict_expired
few_pending = omega arith

read_pages_complete_example :
    (read_pages 2 "bob" 0 1 50 two ≡ pending "bob" 0 (evict_expired 50 two.records))
    × IsAscending (read_pages 2 "bob" 0 1 50 two)
read_pages_complete_example =
    read_pages_complete options 2 "bob" 0 1 50 two two-IsValid (omega arith) few_pending
