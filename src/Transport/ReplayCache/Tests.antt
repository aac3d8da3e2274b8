-- ===== src/Transport/ReplayCache/Tests.antt =====
-- Runs of replay-cache.ts, and the theorems at concrete caches.
use local_first_p2p_app.Common.{◌≡◌, refl, some, [], ◌∷◌, arith}
use local_first_p2p_app.Common.Dict.{lookup, insert, delete}
use local_first_p2p_app.Transport.ReplayCache.Invariant.{record_seen-IsValid}
use local_first_p2p_app.Transport.ReplayCache.{
  ReplayCacheConfig, ReplayCache, first_seen, duplicate, create_replay_cache, cutoff, copy_entries,
  prune_replay_cache, delete_all, evict_overflow, insert_seen, record_seen,
}
use local_first_p2p_app.Transport.ReplayCache.Invariant.{IsValid, create-IsValid}
use local_first_p2p_app.Transport.ReplayCache.Detection.{
  replay-detected, record_all, prune-keeps_live,
}

abbrev small : ReplayCacheConfig
small = record { ttl_ms = 1_000; max_entries = 3 }

abbrev with_a : ReplayCache
with_a = record { entries = ("a", 5) ∷ []; insertion_order = "a" ∷ [] }

fresh_key : (record_seen create_replay_cache "a" 5 small).outcome ≡ first_seen
unfolding record_seen lookup
fresh_key = refl

evicts_oldest :
    (record_all small create_replay_cache
      (("a", 5) ∷ ("b", 6) ∷ ("c", 7) ∷ ("d", 8) ∷ [])).insertion_order
    ≡ "b" ∷ "c" ∷ "d" ∷ []
unfolding record_all record_seen lookup insert delete cutoff copy_entries prune_replay_cache
    delete_all evict_overflow insert_seen
evicts_oldest = refl

with_a-IsValid : IsValid with_a
unfolding record_seen lookup insert delete cutoff copy_entries prune_replay_cache delete_all
    evict_overflow insert_seen
with_a-IsValid = record_seen-IsValid create_replay_cache "a" 5 small create-IsValid

replay-detected_example :
    (record_seen
      (record_all small
        (record_seen create_replay_cache "a" 5 small).cache
        (("b", 10) ∷ ("c", 20) ∷ []))
      "a"
      700
      small).outcome
    ≡ duplicate
replay-detected_example =
    replay-detected small create_replay_cache "a" 5 700 (("b", 10) ∷ ("c", 20) ∷ []) create-IsValid
      fresh_key (omega arith) (omega arith) (omega arith)

with_a-stamp : lookup "a" with_a.entries ≡ some 5
unfolding lookup
with_a-stamp = refl

prune-keeps_live_example : lookup "a" (prune_replay_cache with_a 600 small).entries ≡ some 5
prune-keeps_live_example =
    prune-keeps_live small with_a "a" 5 600 with_a-IsValid with_a-stamp (omega arith)
