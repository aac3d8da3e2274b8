-- ===== src/BlockStore/Memory/Entries.antt =====
-- The blocks that memory-fetcher.ts holds: sizes, keys and digests under its changes of the map.
use Prim.Native.String.{◌++◌ as append}
use text.Mathlib.TextLemmas.{append_inj}
use local_first_p2p_app.Common.{
  ℕ, ◌+◌, ◌-◌, ◌≤◌, ◌≡◌, refl, ap, subst, String, true, false, none, some, List, [], ◌∷◌, arith,
  length, ltb, Bool-cases, str_eq, eq_iff, inl, inr,
}
use local_first_p2p_app.Common.Dict.{Dict, lookup, insert, delete, lookup-insert, lookup-delete}
use local_first_p2p_app.Common.Result.{ok}
use local_first_p2p_app.Content.Digest.{
  HashAlgorithm, sha_256, sha_512, blake3, is_computable, DigestRef, Platform, create_digest,
}
use local_first_p2p_app.BlockStore.Memory.{algorithm_name, cache_key, evict, refresh}

abbrev pub sizes : Dict (List ℕ) → ℕ
sizes [] = 0
sizes ((key, bytes) ∷ rest) = length bytes + sizes rest

delete-missing :
    (key : String) (blocks : Dict (List ℕ)) → lookup key blocks ≡ none → delete key blocks ≡ blocks
unfolding lookup delete
delete-missing key [] h = refl
delete-missing key ((j, bytes) ∷ rest) h = ground (arith, delete-missing key rest, h)

pub sizes-insert :
    (key : String) (bytes : List ℕ) (blocks : Dict (List ℕ))
    → lookup key blocks ≡ none
    → sizes (insert key bytes blocks) ≡ sizes blocks + length bytes
unfolding lookup insert
sizes-insert key bytes [] h = omega arith
sizes-insert key bytes ((j, held) ∷ rest) h = ground (arith, sizes-insert key bytes rest, h)

-- The key is that of the digest of the bytes.
abbrev pub IsKeyOf : Platform → String → List ℕ → Type 0
IsKeyOf platform key bytes =
    (algorithm : HashAlgorithm) × (digest : DigestRef) × (create_digest platform bytes algorithm
      ≡ ok digest)
    × (cache_key digest ≡ key)

module _ (Own : String → List ℕ → Type 0) where
  -- Every key stands once, over bytes of its own.
  abbrev pub AreEntries : Dict (List ℕ) → Type 0
  AreEntries [] = Unit
  AreEntries ((key, bytes) ∷ rest) = (lookup key rest ≡ none) × Own key bytes × AreEntries rest

  pub lookup-Own :
      (key : String) (blocks : Dict (List ℕ)) (bytes : List ℕ)
      → AreEntries blocks
      → lookup key blocks ≡ some bytes
      → Own key bytes
  unfolding lookup
  lookup-Own key [] bytes valid h = absurd (cc h)
  lookup-Own key ((j, held) ∷ rest) bytes (single, own, others) h =
      elim (Bool-cases (str_eq j key)) [
        | inl e ↦
            let key_is : j ≡ key = ground (arith, e, eq_iff j key) in
            let bytes_are : held ≡ bytes = ground (arith, e, h) in
            subst (λ k. Own k bytes) key_is (subst (λ b. Own j b) bytes_are own)
        | inr e ↦ lookup-Own key rest bytes others (ground (arith, e, h))
      ]

  pub insert-AreEntries :
      (key : String) (bytes : List ℕ) (blocks : Dict (List ℕ))
      → AreEntries blocks
      → lookup key blocks ≡ none
      → Own key bytes
      → AreEntries (insert key bytes blocks)
  unfolding lookup insert
  insert-AreEntries key bytes [] valid h own = (refl, own, tt)
  insert-AreEntries key bytes ((j, held) ∷ rest) (single, held_own, others) h own =
      elim (Bool-cases (str_eq j key)) [
        | inl e ↦ absurd (ground (arith, e, h))
        | inr e ↦
            let missing : lookup key rest ≡ none = ground (arith, e, h) in
            rw e (
              ground (arith, lookup-insert key j bytes rest, single, e, eq_iff j key, eq_iff key j),
              held_own,
              insert-AreEntries key bytes rest others missing own,
            )
      ]

  pub delete-AreEntries :
      (key : String) (blocks : Dict (List ℕ)) → AreEntries blocks → AreEntries (delete key blocks)
  unfolding delete
  delete-AreEntries key [] valid = tt
  delete-AreEntries key ((j, held) ∷ rest) (single, own, others) =
      elim (Bool-cases (str_eq j key)) [
        | inl e ↦ rw e (delete-AreEntries key rest others)
        | inr e ↦ rw e (
          ground (arith, lookup-delete key j rest, single),
          own,
          delete-AreEntries key rest others,
        )
      ]

  pub sizes-delete :
      (key : String) (blocks : Dict (List ℕ)) (bytes : List ℕ)
      → AreEntries blocks
      → lookup key blocks ≡ some bytes
      → sizes (delete key blocks) + length bytes ≡ sizes blocks
  unfolding lookup delete
  sizes-delete key [] bytes valid h = absurd (cc h)
  sizes-delete key ((j, held) ∷ rest) bytes (single, own, others) h =
      elim (Bool-cases (str_eq j key)) [
        | inl e ↦
            let key_is : j ≡ key = ground (arith, e, eq_iff j key) in
            let bytes_are : held ≡ bytes = ground (arith, e, h) in
            let same = delete-missing key rest (subst (λ k. lookup k rest ≡ none) key_is single) in
            rw (e, same) (omega (arith, ap length bytes_are))
        | inr e ↦
            let found : lookup key rest ≡ some bytes = ground (arith, e, h) in
            rw e (omega (arith, sizes-delete key rest bytes others found))
      ]

  -- A refreshed block moves, and nothing else changes.
  pub refresh-AreEntries :
      (key : String) (bytes : List ℕ) (blocks : Dict (List ℕ))
      → AreEntries blocks
      → lookup key blocks ≡ some bytes
      → AreEntries (refresh key bytes blocks) × (sizes (refresh key bytes blocks) ≡ sizes blocks)
  unfolding refresh
  refresh-AreEntries key bytes blocks valid found =
      let gone : lookup key (delete key blocks) ≡ none =
        ground (arith, lookup-delete key key blocks, eq_iff key key) in
      let size = sizes-insert key bytes (delete key blocks) gone in
      (
        insert-AreEntries key bytes (delete key blocks) (delete-AreEntries key blocks valid) gone
            (lookup-Own key blocks bytes valid found),
        omega (arith, size, sizes-delete key blocks bytes valid found),
      )

  -- Eviction leaves valid entries, adds no key, counts what is left and makes room.
  pub evict_lem :
      (limit size : ℕ) (blocks : Dict (List ℕ)) (total : ℕ)
      → size ≤ limit
      → AreEntries blocks
      → total ≡ sizes blocks
      → AreEntries (evict limit size blocks total).0
        × ((evict limit size blocks total).1 ≡ sizes (evict limit size blocks total).0)
        × ((evict limit size blocks total).1 + size ≤ limit)
        × ((key : String)
            → lookup key blocks ≡ none
            → lookup key (evict limit size blocks total).0 ≡ none)
  unfolding evict lookup
  evict_lem limit size [] total fits valid counted =
      (tt, counted, omega (arith, counted), λ key h. h)
  evict_lem limit size ((j, held) ∷ rest) total fits (single, own, others) counted =
      elim (Bool-cases (ltb limit (total + size))) [
        | inl e ↦
            let (valid, counts, room, none_new) =
              evict_lem limit size rest (total - length held) fits others
                (omega (arith, counted)) in
            rw e (valid, counts, room, λ key h. none_new key (ground (arith, h)))
        | inr e ↦ rw e ((single, own, others), counted, ground (arith, e), λ key h. h)
      ]

key-parts :
    (x y : HashAlgorithm) (s t : String)
    → is_computable x ≡ true
    → is_computable y ≡ true
    → append (append (algorithm_name x) ":") s ≡ append (append (algorithm_name y) ":") t
    → (x ≡ y) × (s ≡ t)
key-parts sha_256 sha_256 s t cx cy h = (refl, (append_inj h refl).1)
key-parts sha_512 sha_512 s t cx cy h = (refl, (append_inj h refl).1)
key-parts sha_256 sha_512 s t cx cy h =
    let same : false ≡ true = ap (λ (k : String). str_eq k "sha-512:") (append_inj h refl).0 in cc
key-parts sha_512 sha_256 s t cx cy h =
    let same : false ≡ true = ap (λ (k : String). str_eq k "sha-256:") (append_inj h refl).0 in cc
key-parts blake3 y s t cx cy h = absurd (cc cx)
key-parts x blake3 s t cx cy h = absurd (cc cy)

-- Keys of digests that can be computed are those of one digest only.
pub cache_key-eq :
    (a b : DigestRef)
    → is_computable a.algorithm ≡ true
    → is_computable b.algorithm ≡ true
    → cache_key a ≡ cache_key b
    → a ≡ b
unfolding cache_key
cache_key-eq a b ca cb h =
    let (algorithms, digests) = key-parts a.algorithm b.algorithm a.digest b.digest ca cb h in
    ground (arith, algorithms, digests)
