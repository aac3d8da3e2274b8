-- ===== src/Transport/ReplayCache/Detection.antt =====
-- Replay detection and the capacity bound of replay-cache.ts.
use local_first_p2p_app.Common.{
  ℕ, zero, suc, ◌+◌, ◌-◌, ◌≤◌, ◌<◌, String, ◌≡◌, ◌≢◌, refl, true, false, some, List, [], ◌∷◌, ◌++◌,
  arith, if◌then◌else◌, length, take, drop, keep, contains, str_eq, eq_iff, All, IsDistinct,
  Bool-cases, inl, inr, differs, contains-keep-differs, contains-drop-false, length-drop,
  length-append, length-keep, take-disjoint, ap,
}
use local_first_p2p_app.Common.Dict.{Dict, lookup, lookup-insert}
use local_first_p2p_app.Transport.ReplayCache.{
  ReplayCacheConfig, ReplayCache, first_seen, duplicate, cutoff, prune_replay_cache, evict_overflow,
  insert_seen, record_seen, is_live, is_expired,
}
use local_first_p2p_app.Transport.ReplayCache.Invariant.{
  IsValid, lookup-prune, lookup-delete_all, prune-IsValid, evict-IsValid, insert_seen-IsValid,
  record_seen-IsValid,
}

-- The number of keys behind the first occurrence of a key.
abbrev after : List String → String → ℕ
after [] k = 0
after (x ∷ xs) k = if str_eq x k then length xs else after xs k

after-lt-length : (xs : List String) (k : String) → contains xs k ≡ true → after xs k < length xs
after-lt-length [] k h = cc
after-lt-length (x ∷ xs) k h = ground (arith, after-lt-length xs k)

contains-drop :
    (n : ℕ) (xs : List String) (k : String)
    → contains xs k ≡ true
    → n + after xs k < length xs
    → contains (drop n xs) k ≡ true
contains-drop zero xs k h b = h
contains-drop (suc n) [] k h b = h
contains-drop (suc n) (x ∷ xs) k h b = ground (arith, contains-drop n xs k)

after-drop :
    (n : ℕ) (xs : List String) (k : String)
    → IsDistinct xs
    → contains (drop n xs) k ≡ true
    → after (drop n xs) k ≡ after xs k
after-drop zero xs k d h = refl
after-drop (suc n) [] k d h = refl
after-drop (suc n) (x ∷ xs) k d h =
    ground (arith, after-drop n xs k d.1, eq_iff x k, contains-drop-false n xs k)

after-keep :
    (key k : String) (xs : List String) → key ≢ k → after (keep (differs key) xs) k ≤ after xs k
after-keep key k [] h = omega arith
after-keep key k (x ∷ xs) h =
    ground (arith, after-keep key k xs h, length-keep (differs key) xs, eq_iff x k, eq_iff x key)

after-append :
    (xs : List String) (k key : String)
    → contains xs k ≡ true
    → after (xs ++ key ∷ []) k ≡ after xs k + 1
after-append [] k key h = cc
after-append (x ∷ xs) k key h = ground (arith, after-append xs k key, length-append xs (key ∷ []))

after-append_new :
    (xs : List String) (k : String) → contains xs k ≡ false → after (xs ++ k ∷ []) k ≡ 0
after-append_new [] k h = ground (arith, eq_iff k k)
after-append_new (x ∷ xs) k h = ground (arith, after-append_new xs k)

contains-drop-cutoff :
    (entries : Dict ℕ) (now ttl : ℕ) (xs : List String) (k : String)
    → contains xs k ≡ true
    → is_expired (lookup k entries) now ttl ≡ false
    → contains (drop (cutoff entries now ttl xs) xs) k ≡ true
unfolding cutoff
contains-drop-cutoff entries now ttl [] k h live = h
contains-drop-cutoff entries now ttl (x ∷ xs) k h live =
    ground (arith, contains-drop-cutoff entries now ttl xs k, eq_iff x k)

-- The key `k` was recorded at `ts`, and at most `n` keys have come since.
record Remembers (c : ReplayCache) (k : String) (ts n : ℕ) : Type 0 where
  valid : IsValid c
  stamped : lookup k c.entries ≡ some ts
  recent : after c.insertion_order k ≤ n

module _ (cfg : ReplayCacheConfig) (k : String) (ts now : ℕ) (fresh : now < ts + cfg.ttl_ms) where
  prune-Remembers :
      (c : ReplayCache) (n : ℕ)
      → Remembers c k ts n
      → Remembers (prune_replay_cache c now cfg) k ts n
  prune-Remembers c n r = record {
    valid = prune-IsValid c now cfg r.valid;
    stamped = ground (arith, lookup-prune c now cfg k r.valid, r.stamped, listed);
    recent =
        unfold prune_replay_cache in
        ground (arith, r.recent, after-drop m c.insertion_order k r.valid.distinct, kept);
  }
    where
      m : ℕ
      m = cutoff c.entries now cfg.ttl_ms c.insertion_order

      there : contains c.insertion_order k ≡ true
      there = ground (arith, r.valid.indexed k, r.stamped)

      kept : contains (drop m c.insertion_order) k ≡ true
      kept = ground (
        arith,
        contains-drop-cutoff c.entries now cfg.ttl_ms c.insertion_order k there,
        r.stamped,
        fresh,
      )

      listed : contains (prune_replay_cache c now cfg).insertion_order k ≡ true
      listed = unfold prune_replay_cache in ground (arith, there, kept)

there :
    {c : ReplayCache} {k : String} {ts n : ℕ}
    → Remembers c k ts n
    → contains c.insertion_order k ≡ true
there {c} {k} r = ground (arith, r.valid.indexed k, r.stamped)

evict-Remembers :
    (cfg : ReplayCacheConfig) (k : String) (ts n : ℕ) (c : ReplayCache)
    → n + 1 < cfg.max_entries
    → Remembers c k ts n
    → Remembers (evict_overflow c cfg) k ts n
evict-Remembers cfg k ts n c room r = record {
  valid = evict-IsValid c cfg r.valid;
  stamped =
      unfold evict_overflow in
      ground (
        arith,
        r.stamped,
        lookup-delete_all (take m c.insertion_order) c.entries k,
        take-disjoint m c.insertion_order k r.valid.distinct,
        kept,
      );
  recent =
      unfold evict_overflow in
      ground (arith, r.recent, kept, after-drop m c.insertion_order k r.valid.distinct);
}
  where
    m : ℕ
    m = length c.insertion_order - cfg.max_entries + 1

    kept : cfg.max_entries ≤ length c.insertion_order → contains (drop m c.insertion_order) k ≡ true
    kept full =
        contains-drop m c.insertion_order k (there r)
          (omega (arith, r.recent, after-lt-length c.insertion_order k (there r)))

insert_seen-Remembers :
    (key k : String) (ts n now : ℕ) (c : ReplayCache)
    → key ≢ k
    → Remembers c k ts n
    → Remembers (insert_seen c key now) k ts (n + 1)
insert_seen-Remembers key k ts n now c other r = record {
  valid = insert_seen-IsValid c key now r.valid;
  stamped =
      unfold insert_seen in
      ground (arith, r.stamped, lookup-insert key k now c.entries, eq_iff key k, other);
  recent =
      unfold insert_seen in
      ground (
        arith,
        r.recent,
        there r,
        other,
        after-append c.insertion_order k key,
        after-append (keep (differs key) c.insertion_order) k key,
        after-keep key k c.insertion_order other,
        contains-keep-differs key c.insertion_order k,
        eq_iff k key,
      );
}

weaken : {c : ReplayCache} {k : String} {ts n : ℕ} → Remembers c k ts n → Remembers c k ts (n + 1)
weaken r = record { valid = r.valid; stamped = r.stamped; recent = omega (arith, r.recent) }

-- Recording a key, the remembered one or another, ages the memory by one place at most.
record_seen-Remembers :
    (cfg : ReplayCacheConfig) (c : ReplayCache) (key k : String) (ts n now : ℕ)
    → now < ts + cfg.ttl_ms
    → n + 1 < cfg.max_entries
    → Remembers c k ts n
    → Remembers (record_seen c key now cfg).cache k ts (n + 1)
unfolding record_seen
record_seen-Remembers cfg c key k ts n now fresh room r =
    elim (Bool-cases (is_live (lookup key c.entries) now cfg.ttl_ms)) [
      | inl live ↦ rw live (weaken r)
      | inr gone ↦ rw gone (
          insert_seen-Remembers key k ts n now _ (other gone)
            (evict-Remembers cfg k ts n _ room (prune-Remembers cfg k ts now fresh c n r)))
    ]
  where
    other : is_live (lookup key c.entries) now cfg.ttl_ms ≡ false → key ≢ k
    other gone same =
        let live : is_live (lookup k c.entries) now cfg.ttl_ms ≡ true = ground (arith, r.stamped) in
        cc (ap (λ j. is_live (lookup j c.entries) now cfg.ttl_ms) same)

-- The cache after a run of arrivals, each a key and its time.
unfoldable pub record_all : ReplayCacheConfig → ReplayCache → List (String × ℕ) → ReplayCache
record_all cfg c [] = c
record_all cfg c ((key, now) ∷ rest) = record_all cfg (record_seen c key now cfg).cache rest

pub record_all-none : (cfg : ReplayCacheConfig) (c : ReplayCache) → record_all cfg c [] ≡ c
unfolding record_all
record_all-none cfg c = refl

record_all-Remembers :
    (cfg : ReplayCacheConfig) (c : ReplayCache) (k : String) (ts n : ℕ)
    (arrivals : List (String × ℕ))
    → All (λ a. a.1 < ts + cfg.ttl_ms) arrivals
    → n + length arrivals < cfg.max_entries
    → Remembers c k ts n
    → Remembers (record_all cfg c arrivals) k ts (n + length arrivals)
unfolding record_all
record_all-Remembers cfg c k ts n [] early room r = record {
  valid = r.valid;
  stamped = r.stamped;
  recent = omega (arith, r.recent);
}
record_all-Remembers cfg c k ts n ((key, now) ∷ rest) (fresh, early) room r =
    let step = record_seen-Remembers cfg c key k ts n now fresh (omega arith) r in
    let done =
      record_all-Remembers cfg (record_seen c key now cfg).cache k ts (n + 1) rest early
        (omega arith) step in
    record { valid = done.valid; stamped = done.stamped; recent = omega (arith, done.recent) }

first_seen-Remembers :
    (cfg : ReplayCacheConfig) (c : ReplayCache) (k : String) (ts : ℕ)
    → IsValid c
    → (record_seen c k ts cfg).outcome ≡ first_seen
    → Remembers (record_seen c k ts cfg).cache k ts 0
first_seen-Remembers cfg c k ts v first = record {
  valid = record_seen-IsValid c k ts cfg v;
  stamped =
      unfold record_seen insert_seen in
      ground (
        arith,
        lookup-insert k k ts (evict_overflow (prune_replay_cache c ts cfg) cfg).entries,
        eq_iff k k,
      );
  recent =
      unfold record_seen insert_seen in
      ground (
        arith,
        after-append_new (evict_overflow (prune_replay_cache c ts cfg) cfg).insertion_order k,
        after-append_new
            (keep (differs k) (evict_overflow (prune_replay_cache c ts cfg) cfg).insertion_order) k,
        contains-keep-differs k (evict_overflow (prune_replay_cache c ts cfg) cfg).insertion_order
            k,
        eq_iff k k,
      );
}

live-duplicate :
    (cfg : ReplayCacheConfig) (c : ReplayCache) (k : String) (ts n now : ℕ)
    → now < ts + cfg.ttl_ms
    → Remembers c k ts n
    → (record_seen c k now cfg).outcome ≡ duplicate
unfolding record_seen
live-duplicate cfg c k ts n now fresh r = ground (arith, r.stamped)

-- From a well-formed cache: a key that was recorded as first seen is reported as a duplicate at any
-- later time before its lifetime ends, whatever fewer than `max_entries` arrivals came between.
pub replay-detected :
    (cfg : ReplayCacheConfig) (c : ReplayCache) (k : String) (ts now : ℕ)
    (arrivals : List (String × ℕ))
    → IsValid c
    → (record_seen c k ts cfg).outcome ≡ first_seen
    → All (λ a. a.1 < ts + cfg.ttl_ms) arrivals
    → length arrivals < cfg.max_entries
    → now < ts + cfg.ttl_ms
    → (record_seen (record_all cfg (record_seen c k ts cfg).cache arrivals) k now cfg).outcome
      ≡ duplicate
replay-detected cfg c k ts now arrivals v first early room fresh =
    live-duplicate cfg _ k ts _ now fresh (
      record_all-Remembers cfg _ k ts 0 arrivals early (omega arith)
        (first_seen-Remembers cfg c k ts v first))

-- Pruning forgets no key whose lifetime has not ended.
pub prune-keeps_live :
    (cfg : ReplayCacheConfig) (c : ReplayCache) (k : String) (ts now : ℕ)
    → IsValid c
    → lookup k c.entries ≡ some ts
    → now < ts + cfg.ttl_ms
    → lookup k (prune_replay_cache c now cfg).entries ≡ some ts
prune-keeps_live cfg c k ts now v stamped fresh =
    (prune-Remembers cfg k ts now fresh c (after c.insertion_order k)
      (record { valid = v; stamped = stamped; recent = omega arith })).stamped

-- With room for at least one key, the number of keys never passes `max_entries`.
record_seen-bounded :
    (cfg : ReplayCacheConfig) (c : ReplayCache) (k : String) (now : ℕ)
    → 0 < cfg.max_entries
    → length c.insertion_order ≤ cfg.max_entries
    → length (record_seen c k now cfg).cache.insertion_order ≤ cfg.max_entries
unfolding record_seen insert_seen evict_overflow
record_seen-bounded cfg c k now some_room fits =
    let pruned = (prune_replay_cache c now cfg).insertion_order in
    let m = length pruned - cfg.max_entries + 1 in
    ground (
      arith,
      some_room,
      fits,
      length-drop m pruned,
      length-append (drop m pruned) (k ∷ []),
      length-append (keep (differs k) (drop m pruned)) (k ∷ []),
      length-keep (differs k) (drop m pruned),
      length-append pruned (k ∷ []),
      length-append (keep (differs k) pruned) (k ∷ []),
      length-keep (differs k) pruned,
    )
