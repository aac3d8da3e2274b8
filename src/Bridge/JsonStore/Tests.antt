-- ===== src/Bridge/JsonStore/Tests.antt =====
-- Runs of the JSON file store of stores.ts, and its refinement theorem at concrete steps.
use local_first_p2p_app.Common.{◌≡◌, refl, String, some, none, List, [], ◌∷◌, arith}
use local_first_p2p_app.Bridge.Store.{
  StoredBridgeRecordDraft, StoreOptions, next_sequence, evict_expired, find_key, evict_to_capacity,
}
use local_first_p2p_app.Bridge.JsonStore.{
  JsonStore, validate_state, highest, load_fresh_state, load_cached_state, load_pruned, get,
  empty_state, put_if_absent,
}
use local_first_p2p_app.Bridge.JsonStore.Trace.{
  Step, serve, restart, put, lookup, list, prune, count, answers, answers_json,
}
use local_first_p2p_app.Bridge.JsonStore.Refinement.{answers_json-answers}

abbrev draft : String → StoredBridgeRecordDraft
draft key = record {
  idempotency_key = key;
  target = "bob";
  event_id = "e";
  author = "alice";
  privacy = "dm";
  accepted_at = 10;
  expires_at = 100;
  event = some "{}";
}

abbrev options : StoreOptions
options = record { max_records = 2; ttl_ms = 90 }

abbrev fresh : JsonStore
fresh = record { file = none; cached = none }

-- The reader after a restart finds what was written.
reads_back :
    (get 7 "k1" 20 (record (put_if_absent options 7 (draft "k1") 10 fresh).1 { cached = none })).0
    ≡ some (record { draft = draft "k1"; sequence = 10_000 })
unfolding get put_if_absent load_pruned load_cached_state load_fresh_state validate_state highest
    evict_expired find_key next_sequence evict_to_capacity
reads_back = refl

abbrev steps : List Step
steps =
    serve (put (draft "k1")) 10
    ∷ restart 9
    ∷ serve (put (draft "k1")) 20
    ∷ serve (put (draft "k2")) 30
    ∷ serve (lookup "k1") 40
    ∷ serve (list "bob" 0 5) 50
    ∷ serve prune 60
    ∷ restart 50_000
    ∷ serve count 100
    ∷ []

answers_json-answers_example :
    answers_json options 7 steps fresh ≡ answers options steps (empty_state 7)
answers_json-answers_example = answers_json-answers options 7 0 steps (omega arith) (omega arith)
