-- ===== src/BlockStore/Fetch/Tests.antt =====
-- Runs of block-store.ts over the integers, and the theorems at concrete inputs. The hash of a test
-- is the number of bytes and 31 zeros, its text a word for that number.
use local_first_p2p_app.Common.{
  ℕ, ◌+◌, ◌*◌, ◌≤◌, ◌≡◌, refl, ap, String, Bool, false, none, some, List, [], ◌∷◌, arith, length,
  replicate, ◌==◌, ltb, if◌then◌else◌, str_eq,
}
use local_first_p2p_app.Common.Dict.{lookup, insert}
use local_first_p2p_app.Common.Numbers.{integers, pos}
use local_first_p2p_app.Common.Result.{ok, err}
use local_first_p2p_app.Content.Digest.{sha_256, DigestRef, Platform, create_digest, verify_digest}
use local_first_p2p_app.Content.BlockRef.{
  BlockRef, digest_source, public, gzip, check_block_ref, check_sizes, validate_block_ref,
  validate_compression,
}
use local_first_p2p_app.BlockStore.Errors.{bs_error, bs_aborted}
use local_first_p2p_app.BlockStore.Decode.{done, chunk, Decoders, read_chunks, decode_block_bytes}
use local_first_p2p_app.BlockStore.Health.{
  BreakerState, Tracker, state_for, attempt, can_attempt, record_success, record_failure, grants,
  is_valid_breaker,
}
use local_first_p2p_app.BlockStore.Fetch.{
  BlockStoreConfig, BlockStore, VerifiedBlock, has_good_ids, new_block_store, check_caps, prepare,
  open_block, visit_fetcher, fetch_from, get_block,
}
use local_first_p2p_app.BlockStore.Fetch.Attempt.{
  World, FetchAttempt, BlockFetchResult, fetched, verified, length_mismatch, threw, verify_bytes,
  handle_result, attempt_once, attempt_loop, try_fetcher,
}
use local_first_p2p_app.BlockStore.Fetch.Delivery.{get_block-attempts}
use local_first_p2p_app.BlockStore.Fetch.Verified.{Unpacked, get_block-verified, get_block-size}
use local_first_p2p_app.BlockStore.Fetch.Served.{IsQuiet, Serves, Readable, get_block-served}
use local_first_p2p_app.BlockStore.Fetch.Abandoned.{abort-loses_probe}

abbrev toy : Platform
toy = record {
  hash = λ algorithm bytes. length bytes ∷ replicate 31 0;
  base64_url_encode =
      λ bytes. elim bytes [ [] ↦ "none" | n ∷ rest ↦ if n == 2 then "two" else "other" ];
}

abbrev two : DigestRef
two = record { algorithm = sha_256; digest = "two" }

-- The fetcher "good" has two bytes, "bad" three, and any other throws.
abbrev answer : String → BlockFetchResult
answer id =
    if str_eq id "good"
    then fetched (some (7 ∷ 8 ∷ []))
    else if str_eq id "bad"
    then fetched (some (7 ∷ 8 ∷ 9 ∷ []))
    else threw

abbrev world : (ℕ → Bool) → World integers
world aborted = record {
  reply = λ id k. answer id;
  clock = λ k. 100 + k;
  random = λ k. some (pos 0);
  aborted = aborted;
  interleave = λ k t. t;
}

abbrev calm : World integers
calm = world (λ k. false)

abbrev hurried : World integers
hurried = world (λ k. ltb 1 k)

abbrev ref : BlockRef
ref = record {
  source = digest_source two;
  byte_length = 2;
  offset = 0;
  privacy = public;
  encryption = none;
  compression =
      some (record { algorithm = gzip; encoded_size = 2; decoded_size = 3; dictionary_ref = none });
  storage_hints = 0;
}

abbrev decoders : Decoders
decoders = record {
  injected = record { zstd_decoder = none; br_decoder = none };
  inflate = some (λ bytes. some (chunk (1 ∷ 2 ∷ []) (chunk (3 ∷ []) done)));
}

abbrev store : List String → Tracker → BlockStore
store fetchers health = record {
  fetchers = fetchers;
  max_block_bytes = 64;
  max_decoded_bytes = 256;
  retry = record {
    backoff = record { base_delay_ms = 1; max_delay_ms = 10 };
    max_attempts_per_fetcher = 2;
  };
  breaker = record { failure_threshold = 5; cooldown_ms = 10; max_cooldown_ms = 100 };
  health = health;
}

abbrev pair : BlockStore
pair = store ("bad" ∷ "good" ∷ []) []

-- A breaker whose cooldown is over.
abbrev rested : Tracker
rested =
    ("good", record { consecutive_failures = 0; trips = 1; open_until = 50; probing = false }) ∷ []

abbrev block : VerifiedBlock
block = record {
  ref = ref;
  bytes = 1 ∷ 2 ∷ 3 ∷ [];
  encrypted = false;
  attempts =
      record { fetcher_id = "bad"; outcome = length_mismatch }
      ∷ record { fetcher_id = "good"; outcome = verified }
      ∷ [];
}

prepared : prepare pair ref false ≡ ok two
unfolding prepare validate_block_ref check_block_ref check_sizes validate_compression check_caps
prepared = refl

returned : (get_block integers toy calm pair decoders ref).0 ≡ ok block
unfolding get_block fetch_from visit_fetcher try_fetcher attempt_loop attempt_once handle_result
    verify_bytes verify_digest create_digest can_attempt attempt record_success record_failure
    open_block read_chunks decode_block_bytes prepare validate_block_ref check_block_ref check_sizes
    validate_compression check_caps state_for lookup insert
returned = refl

get_block-verified_example :
    (digest : DigestRef) × (bytes : List ℕ) × (digest_source two ≡ digest_source digest)
    × (length bytes ≡ 2)
    × (2 ≤ 64)
    × (toy.base64_url_encode (toy.hash digest.algorithm bytes) ≡ digest.digest)
    × Unpacked decoders none ref.compression bytes (1 ∷ 2 ∷ 3 ∷ [])
get_block-verified_example =
    get_block-verified integers toy calm pair decoders ref block (omega arith) returned

abbrev config : BlockStoreConfig
config = record {
  fetchers = "bad" ∷ "good" ∷ [];
  max_block_bytes = some 64;
  max_decoded_bytes = some 256;
  retry = record {
    base_delay_ms = some 1;
    max_delay_ms = some 10;
    max_attempts_per_fetcher = some 2;
  };
  breaker = some (record { failure_threshold = 5; cooldown_ms = 10; max_cooldown_ms = 100 });
}

made : new_block_store config ≡ ok pair
unfolding new_block_store has_good_ids is_valid_breaker
made = refl

get_block-size_example : (3 ≤ 2 * 1_024) × (3 ≤ 256)
get_block-size_example =
    get_block-size config pair [] made integers toy calm decoders ref block returned

get_block-attempts_example :
    length (get_block integers toy calm pair decoders ref).1.attempts ≤ 2 * 2
get_block-attempts_example = get_block-attempts integers toy calm pair decoders ref (omega arith)

calm-IsQuiet : IsQuiet integers toy calm two
calm-IsQuiet = record {
  computable = refl;
  hashes = λ bytes. refl;
  draws = λ k. (pos 0, refl, refl, refl);
  goes_on = λ k. refl;
}

good-Serves : Serves integers toy calm pair ref two "good"
unfolding state_for lookup
good-Serves = record {
  content = 7 ∷ 8 ∷ [];
  replies = λ k. refl;
  sized = refl;
  hashed = refl;
  closed = refl;
  calm = λ k t shut. shut;
}

get_block-served_example :
    (bytes : List ℕ) × (attempts : List FetchAttempt) × (length bytes ≡ 2)
    × (toy.base64_url_encode (toy.hash sha_256 bytes) ≡ "two")
    × ((get_block integers toy calm pair decoders ref).0 ≡ open_block decoders ref bytes attempts)
    × ((out : List ℕ)
        → Readable decoders none ref.compression bytes out
        → (get_block integers toy calm pair decoders ref).0
          ≡ ok (record { ref = ref; bytes = out; encrypted = false; attempts = attempts }))
get_block-served_example =
    get_block-served integers toy calm pair ref two "good" calm-IsQuiet good-Serves decoders
      (omega arith) refl prepared

abbrev probing : BlockStore
probing = store ("good" ∷ []) rested

probing-prepared : prepare probing ref (hurried.aborted 0) ≡ ok two
unfolding prepare validate_block_ref check_block_ref check_sizes validate_compression check_caps
probing-prepared = refl

abbrev before : BreakerState
before = record { consecutive_failures = 0; trips = 1; open_until = 50; probing = false }

rested-before : state_for rested "good" ≡ before
unfolding state_for lookup
rested-before = refl

abort-loses_probe_example :
    ((get_block integers toy hurried probing decoders ref).0 ≡ err (bs_error bs_aborted))
    × ((grants "good"
          (get_block integers toy hurried probing decoders ref).1.health
          (("good", 1_000) ∷ ("good", 900_000) ∷ [])).0
        ≡ 0)
abort-loses_probe_example =
    abort-loses_probe integers toy hurried probing decoders ref two "good" [] refl (omega arith)
      probing-prepared (omega (arith, ap (λ (s : BreakerState). s.open_until) rested-before))
      (omega (arith, ap (λ (s : BreakerState). s.open_until) rested-before))
      (ap (λ (s : BreakerState). s.probing) rested-before) refl refl (λ t. refl)
      (("good", 1_000) ∷ ("good", 900_000) ∷ [])
