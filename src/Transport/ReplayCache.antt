-- ===== src/Transport/ReplayCache.antt =====
-- packages/trust-safety/src/transport-admission/replay-cache.ts
-- Times are epoch milliseconds. The source compares with `now - ttlMs`, which may be negative; the
-- model adds `ttlMs` on the other side.
pub mod Invariant
pub mod Detection
mod Tests
use local_first_p2p_app.Common.{
  ℕ, suc, ◌+◌, ◌-◌, String, Bool, false, not, ◌&&◌, Option, none, some, List, [], ◌∷◌, ◌++◌, ltb,
  leb, ◌==◌, if◌then◌else◌, length, take, drop, keep, contains, str_eq,
}
use local_first_p2p_app.Common.Dict.{Dict, lookup, insert, delete}

pub record ReplayCacheConfig : Type 0 where
  pub ttl_ms : ℕ
  pub max_entries : ℕ

abbrev pub default_replay_cache : ReplayCacheConfig
default_replay_cache = record { ttl_ms = 86_400_000; max_entries = 100_000 }

-- `validateReplayCacheConfig` throws where this is false.
unfoldable pub is_valid_replay_config : ReplayCacheConfig → Bool
is_valid_replay_config config =
    leb 1_000 config.ttl_ms
    && leb config.ttl_ms 604_800_000
    && leb 16 config.max_entries
    && leb config.max_entries 100_000_000

pub record ReplayCache : Type 0 where
  pub entries : Dict ℕ
  pub insertion_order : List String

abbrev pub create_replay_cache : ReplayCache
create_replay_cache = record { entries = []; insertion_order = [] }

pub data ReplayOutcome : Type 0 where
  first_seen duplicate : ReplayOutcome

pub record ReplayResult : Type 0 where
  pub outcome : ReplayOutcome
  pub cache : ReplayCache

-- `ts !== undefined && ts <= now - ttlMs`
abbrev pub is_expired : Option ℕ → ℕ → ℕ → Bool
is_expired none now ttl = false
is_expired (some ts) now ttl = leb (ts + ttl) now

-- `existingTs !== undefined && existingTs > now - ttlMs`
abbrev pub is_live : Option ℕ → ℕ → ℕ → Bool
is_live none now ttl = false
is_live (some ts) now ttl = ltb now (ts + ttl)

-- The `while` loop that counts the expired head of the order.
unfoldable pub cutoff : Dict ℕ → ℕ → ℕ → List String → ℕ
cutoff entries now ttl [] = 0
cutoff entries now ttl (k ∷ ks) =
    let more = cutoff entries now ttl ks in
    if is_expired (lookup k entries) now ttl then suc more else 0

abbrev pub set_defined : String → Option ℕ → Dict ℕ → Dict ℕ
set_defined k none next = next
set_defined k (some ts) next = insert k ts next

-- The loop that copies the entries of the kept keys into a fresh object.
unfoldable pub copy_entries : Dict ℕ → List String → Dict ℕ → Dict ℕ
copy_entries entries [] next = next
copy_entries entries (k ∷ ks) next = copy_entries entries ks (set_defined k (lookup k entries) next)

unfoldable pub prune_replay_cache : ReplayCache → ℕ → ReplayCacheConfig → ReplayCache
prune_replay_cache cache now config =
    let n = cutoff cache.entries now config.ttl_ms cache.insertion_order in
    let tail = drop n cache.insertion_order in
    if n == 0
    then cache
    else record { entries = copy_entries cache.entries tail []; insertion_order = tail }

unfoldable pub delete_all : List String → Dict ℕ → Dict ℕ
delete_all [] entries = entries
delete_all (k ∷ ks) entries = delete_all ks (delete k entries)

-- At or over capacity, the oldest keys go whatever their age.
unfoldable pub evict_overflow : ReplayCache → ReplayCacheConfig → ReplayCache
evict_overflow cache config =
    let overflow = length cache.insertion_order - config.max_entries + 1 in
    if leb config.max_entries (length cache.insertion_order)
    then record {
      entries = delete_all (take overflow cache.insertion_order) cache.entries;
      insertion_order = drop overflow cache.insertion_order;
    }
    else cache

-- The new key goes to the end of the order, and leaves its old place there.
unfoldable pub insert_seen : ReplayCache → String → ℕ → ReplayCache
insert_seen cache key now = record {
  entries = insert key now cache.entries;
  insertion_order =
      if contains cache.insertion_order key
      then keep (λ k. not (str_eq k key)) cache.insertion_order ++ key ∷ []
      else cache.insertion_order ++ key ∷ [];
}

unfoldable pub record_seen : ReplayCache → String → ℕ → ReplayCacheConfig → ReplayResult
record_seen cache key now config =
    if is_live (lookup key cache.entries) now config.ttl_ms
    then record { outcome = duplicate; cache = cache }
    else record {
      outcome = first_seen;
      cache = insert_seen (evict_overflow (prune_replay_cache cache now config) config) key now;
    }
