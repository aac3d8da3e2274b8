-- ===== src/BlockStore/Memory/Tests.antt =====
-- Runs of memory-fetcher.ts, and the theorems at concrete inputs. The hash of a test is the number
-- of bytes and 31 zeros, its text a word for that number.
use local_first_p2p_app.Common.{
  ℕ, ◌≡◌, refl, true, false, none, some, List, [], ◌∷◌, arith, replicate, length, ◌==◌,
  if◌then◌else◌,
}
use local_first_p2p_app.Common.Dict.{lookup, insert}
use local_first_p2p_app.Common.Result.{ok}
use local_first_p2p_app.Content.Digest.{sha_256, DigestRef, Platform, create_digest, verify_digest}
use local_first_p2p_app.Content.BlockRef.{BlockRef, digest_source, public}
use local_first_p2p_app.BlockStore.Fetch.Attempt.{fetched}
use local_first_p2p_app.BlockStore.Memory.{
  MemoryBlockStore, cache_key, evict, put, has, fetch_block,
}
use local_first_p2p_app.BlockStore.Memory.Cache.{
  IsValid, IsBounded, Call, puts, removes, fetches, call_all, call_all-IsBounded, call_all-IsValid,
}
use local_first_p2p_app.BlockStore.Memory.Reads.{put-fetch_block, put_changed-fetch_block}

abbrev toy : Platform
toy = record {
  hash = λ algorithm bytes. length bytes ∷ replicate 31 0;
  base64_url_encode = λ bytes. elim bytes [
    | [] ↦ "none"
    | n ∷ rest ↦ if n == 2 then "two" else if n == 3 then "three" else "other"
  ];
}

abbrev empty : MemoryBlockStore
empty = record { id = "memory"; max_block_bytes = 4; max_total_bytes = 4; blocks = []; total = 0 }

abbrev two : DigestRef
two = record { algorithm = sha_256; digest = "two" }

abbrev ref : BlockRef
ref = record {
  source = digest_source two;
  byte_length = 2;
  offset = 0;
  privacy = public;
  encryption = none;
  compression = none;
  storage_hints = 0;
}

abbrev held : MemoryBlockStore
held = record empty { blocks = ("sha-256:two", 7 ∷ 8 ∷ []) ∷ []; total = 2 }

held-IsValid : IsValid toy held
unfolding create_digest cache_key lookup
held-IsValid = record {
  entries = (refl, (sha_256, two, refl, refl), tt);
  counted = refl;
  bounded = omega arith;
  ordered = omega arith;
}

-- Three bytes do not fit beside two, so the two go.
evicts :
    (put toy held (1 ∷ 2 ∷ 3 ∷ []) (1 ∷ 2 ∷ 3 ∷ []) sha_256).1.blocks
    ≡ ("sha-256:three", 1 ∷ 2 ∷ 3 ∷ []) ∷ []
unfolding put create_digest cache_key evict lookup insert
evicts = refl

abbrev unchanged : List (Call toy)
unchanged = puts (1 ∷ 2 ∷ 3 ∷ []) (1 ∷ 2 ∷ 3 ∷ []) sha_256 ∷ fetches ref ∷ removes two ∷ []

abbrev changed : List (Call toy)
changed = puts (1 ∷ 2 ∷ 3 ∷ []) (9 ∷ 9 ∷ 9 ∷ []) sha_256 ∷ fetches ref ∷ removes two ∷ []

call_all-IsValid_example : IsValid toy (call_all toy held unchanged)
call_all-IsValid_example = call_all-IsValid toy held unchanged (refl, tt) held-IsValid

held-IsBounded : IsBounded held
unfolding lookup
held-IsBounded = record {
  entries = (refl, tt, tt);
  counted = refl;
  bounded = omega arith;
  ordered = omega arith;
}

call_all-IsBounded_example : IsBounded (call_all toy held changed)
call_all-IsBounded_example = call_all-IsBounded toy held changed (refl, tt) held-IsBounded

answers : (fetch_block held ref).0 ≡ fetched (some (7 ∷ 8 ∷ []))
unfolding fetch_block cache_key lookup
answers = refl

putting : (put toy held (5 ∷ 6 ∷ []) (5 ∷ 6 ∷ []) sha_256).0 ≡ ok two
unfolding put create_digest
putting = refl

put-fetch_block_example :
    (kept : List ℕ) × ((fetch_block (put toy held (5 ∷ 6 ∷ []) (5 ∷ 6 ∷ []) sha_256).1 ref).0
      ≡ fetched (some kept))
    × (verify_digest toy kept two ≡ ok true)
    × (has held two ≡ false → kept ≡ 5 ∷ 6 ∷ [])
put-fetch_block_example =
    put-fetch_block toy held (5 ∷ 6 ∷ []) sha_256 two ref held-IsValid putting refl

putting_changed : (put toy empty (5 ∷ 6 ∷ []) (9 ∷ []) sha_256).0 ≡ ok two
unfolding put create_digest
putting_changed = refl

unheld : has empty two ≡ false
unfolding has cache_key lookup
unheld = refl

not_two : verify_digest toy (9 ∷ []) two ≡ ok false
unfolding verify_digest create_digest
not_two = refl

put_changed-fetch_block_example :
    ((fetch_block (put toy empty (5 ∷ 6 ∷ []) (9 ∷ []) sha_256).1 ref).0 ≡ fetched (some (9 ∷ [])))
    × ¬ IsValid toy (put toy empty (5 ∷ 6 ∷ []) (9 ∷ []) sha_256).1
put_changed-fetch_block_example =
    put_changed-fetch_block toy empty (5 ∷ 6 ∷ []) (9 ∷ []) sha_256 two ref putting_changed refl
      unheld not_two
