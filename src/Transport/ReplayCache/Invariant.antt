-- ===== src/Transport/ReplayCache/Invariant.antt =====
-- The well-formedness of a replay cache, kept by every operation of replay-cache.ts.
use local_first_p2p_app.Common.{
  ℕ, ◌+◌, ◌-◌, String, ◌≡◌, refl, true, ◌&&◌, Option, none, some, List, [], ◌∷◌, arith,
  if◌then◌else◌, length, take, drop, keep, contains, str_eq, eq_iff, is_some, IsDistinct,
  Bool-cases, inl, inr, differs, contains-append, contains-keep-differs, contains-take-drop,
  take-disjoint, IsDistinct-drop, IsDistinct-keep, IsDistinct-append_last,
}
use local_first_p2p_app.Common.Dict.{
  Dict, lookup, delete, lookup-insert, lookup-delete, lookup-empty,
}
use local_first_p2p_app.Transport.ReplayCache.{
  ReplayCacheConfig, ReplayCache, create_replay_cache, cutoff, set_defined, copy_entries,
  prune_replay_cache, delete_all, evict_overflow, insert_seen, record_seen, is_live,
}

-- The order lists each key with an entry once, and nothing else.
pub record IsValid (c : ReplayCache) : Type 0 where
  pub indexed : (k : String) → is_some (lookup k c.entries) ≡ contains c.insertion_order k
  pub distinct : IsDistinct c.insertion_order

pub lookup-set_defined :
    (k j : String) (o : Option ℕ) (next : Dict ℕ)
    → lookup j (set_defined k o next) ≡ (if str_eq k j && is_some o then o else lookup j next)
lookup-set_defined k j none next = ground arith
lookup-set_defined k j (some v) next = ground (arith, lookup-insert k j v next)

pub lookup-copy_entries :
    (entries : Dict ℕ) (ks : List String) (next : Dict ℕ) (j : String)
    → lookup j (copy_entries entries ks next)
      ≡ (if contains ks j && is_some (lookup j entries) then lookup j entries else lookup j next)
unfolding copy_entries
lookup-copy_entries entries [] next j = refl
lookup-copy_entries entries (k ∷ ks) next j = ground (
  arith,
  lookup-copy_entries entries ks (set_defined k (lookup k entries) next) j,
  lookup-set_defined k j (lookup k entries) next,
  eq_iff k j,
)

pub lookup-delete_all :
    (ks : List String) (entries : Dict ℕ) (j : String)
    → lookup j (delete_all ks entries) ≡ (if contains ks j then none else lookup j entries)
unfolding delete_all
lookup-delete_all [] entries j = refl
lookup-delete_all (k ∷ ks) entries j =
    ground (arith, lookup-delete_all ks (delete k entries) j, lookup-delete k j entries)

pub lookup-prune :
    (c : ReplayCache) (now : ℕ) (cfg : ReplayCacheConfig) (j : String)
    → IsValid c
    → lookup j (prune_replay_cache c now cfg).entries ≡ (
        if contains (prune_replay_cache c now cfg).insertion_order j
        then lookup j c.entries
        else none)
unfolding prune_replay_cache
lookup-prune c now cfg j v =
    let n = cutoff c.entries now cfg.ttl_ms c.insertion_order in
    ground (
      arith,
      v.indexed j,
      lookup-copy_entries c.entries (drop n c.insertion_order) [] j,
      lookup-empty {V = ℕ} j,
    )

pub prune-IsValid :
    (c : ReplayCache) (now : ℕ) (cfg : ReplayCacheConfig)
    → IsValid c
    → IsValid (prune_replay_cache c now cfg)
prune-IsValid c now cfg v = record {
  indexed = λ j. ground (arith, v.indexed j, lookup-prune c now cfg j v, order j);
  distinct =
      unfold prune_replay_cache in ground (arith, IsDistinct-drop n c.insertion_order v.distinct);
}
  where
    n : ℕ
    n = cutoff c.entries now cfg.ttl_ms c.insertion_order

    order :
        (j : String)
        → contains (prune_replay_cache c now cfg).insertion_order j ≡ true
        → contains c.insertion_order j ≡ true
    order j = unfold prune_replay_cache in ground (arith, contains-take-drop n c.insertion_order j)

pub evict-IsValid :
    (c : ReplayCache) (cfg : ReplayCacheConfig) → IsValid c → IsValid (evict_overflow c cfg)
unfolding evict_overflow
evict-IsValid c cfg v =
    let n = length c.insertion_order - cfg.max_entries + 1 in
    record {
      indexed = λ j. ground (
        arith,
        v.indexed j,
        lookup-delete_all (take n c.insertion_order) c.entries j,
        contains-take-drop n c.insertion_order j,
        take-disjoint n c.insertion_order j v.distinct,
      );
      distinct = ground (arith, v.distinct, IsDistinct-drop n c.insertion_order v.distinct);
    }

pub insert_seen-IsValid :
    (c : ReplayCache) (key : String) (now : ℕ) → IsValid c → IsValid (insert_seen c key now)
unfolding insert_seen
insert_seen-IsValid c key now v =
    let kept = keep (differs key) c.insertion_order in
    record {
      indexed = λ j. ground (
        arith,
        v.indexed j,
        lookup-insert key j now c.entries,
        contains-append c.insertion_order (key ∷ []) j,
        contains-append kept (key ∷ []) j,
        contains-keep-differs key c.insertion_order j,
        eq_iff key j,
        eq_iff j key,
      );
      distinct = ground (
        arith,
        IsDistinct-append_last c.insertion_order key v.distinct,
        IsDistinct-append_last kept key (IsDistinct-keep key c.insertion_order v.distinct),
        contains-keep-differs key c.insertion_order key,
        eq_iff key key,
      );
    }

-- Recording a key keeps the cache well formed, whatever the outcome.
pub record_seen-IsValid :
    (c : ReplayCache) (key : String) (now : ℕ) (cfg : ReplayCacheConfig)
    → IsValid c
    → IsValid (record_seen c key now cfg).cache
unfolding record_seen
record_seen-IsValid c key now cfg v =
    let pruned = prune-IsValid c now cfg v in
    let evicted = evict-IsValid (prune_replay_cache c now cfg) cfg pruned in
    elim (Bool-cases (is_live (lookup key c.entries) now cfg.ttl_ms)) [
      | inl live ↦ rw live v
      | inr gone ↦ rw gone (insert_seen-IsValid _ key now evicted)
    ]

pub create-IsValid : IsValid create_replay_cache
unfolding lookup
create-IsValid = record { indexed = λ k. refl; distinct = tt }
