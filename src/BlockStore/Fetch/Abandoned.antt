-- ===== src/BlockStore/Fetch/Abandoned.antt =====
-- A request of block-store.ts that is aborted while it probes an open breaker.
use local_first_p2p_app.Common.{
  ℕ, zero, suc, ◌≤◌, ◌≡◌, ◌≢◌, refl, String, true, false, List, [], ◌∷◌, arith, eq_refl,
}
use local_first_p2p_app.Common.Numbers.{Numbers}
use local_first_p2p_app.Common.Result.{Result, ok, err}
use local_first_p2p_app.Content.Digest.{DigestRef, Platform}
use local_first_p2p_app.Content.BlockRef.{BlockRef}
use local_first_p2p_app.BlockStore.Errors.{ThrownCode, bs_aborted, bs_error}
use local_first_p2p_app.BlockStore.Decode.{Decoders}
use local_first_p2p_app.BlockStore.Health.{
  BreakerState, Tracker, state_for, attempt, can_attempt, grants,
}
use local_first_p2p_app.BlockStore.Health.Probe.{state_for-can_attempt, probing-grants_none}
use local_first_p2p_app.BlockStore.Fetch.{
  BlockStore, prepare, start, visit_fetcher, fetch_from, get_block,
}
use local_first_p2p_app.BlockStore.Fetch.Attempt.{
  World, Progress, thrown, await, attempt_once, attempt_loop, try_fetcher,
}

module _ (N : Numbers) (platform : Platform) (world : World N) (store : BlockStore)
    (decoders : Decoders) (ref : BlockRef) (digest : DigestRef) (id : String)
    (rest : List String) where
  abbrev before : BreakerState
  before = state_for store.health id

  abbrev probed : Tracker
  probed = (can_attempt store.health id (world.clock 0)).1

  is-granted :
      before.open_until ≢ 0
      → before.open_until ≤ world.clock 0
      → before.probing ≡ false
      → (can_attempt store.health id (world.clock 0)).0 ≡ true
  unfolding can_attempt attempt
  is-granted shut over idle = ground arith

  is-probing :
      before.open_until ≢ 0
      → before.open_until ≤ world.clock 0
      → before.probing ≡ false
      → ((state_for probed id).probing ≡ true) × ((state_for probed id).open_until ≢ 0)
  unfolding attempt
  is-probing shut over idle =
      ground (arith, state_for-can_attempt store.health id id (world.clock 0), eq_refl id)

  loop-aborts :
      (left n : ℕ) (p : Progress)
      → 1 ≤ left
      → world.aborted p.readings ≡ false
      → world.aborted (suc p.readings) ≡ true
      → attempt_loop N platform world store.retry store.breaker ref.byte_length digest left n id p
        ≡ (thrown (bs_error bs_aborted), await N platform world p)
  unfolding attempt_loop attempt_once
  loop-aborts zero n p positive quiet late = absurd (omega arith)
  loop-aborts (suc left) n p positive quiet late = rw (quiet, late) refl

  -- What the request asks first, and how that ends.
  abbrev asked : Progress
  asked = record { health = probed; attempts = []; readings = 1; delays = [] }

  visit-aborts :
      (more : Progress → Result ThrownCode (List ℕ) × Progress)
      → 1 ≤ store.retry.max_attempts_per_fetcher
      → (can_attempt store.health id (world.clock 0)).0 ≡ true
      → world.aborted 1 ≡ false
      → world.aborted 2 ≡ true
      → visit_fetcher N platform world store ref digest id more (start N platform world store)
        ≡ (err (bs_error bs_aborted), await N platform world asked)
  unfolding visit_fetcher try_fetcher
  visit-aborts more positive granted quiet late =
      rw (granted, loop-aborts store.retry.max_attempts_per_fetcher 0 asked positive quiet late)
        refl

  -- Where the reference passes the checks and the first fetcher's breaker is open, its cooldown over
  -- and no probe outstanding, a request that is aborted during the first fetch, while no other request
  -- touches that breaker, throws the abort, and after it the fetcher is never let through again, at
  -- whatever instants it is asked for.
  pub abort-loses_probe :
      store.fetchers ≡ id ∷ rest
      → 1 ≤ store.retry.max_attempts_per_fetcher
      → prepare store ref (world.aborted 0) ≡ ok digest
      → before.open_until ≢ 0
      → before.open_until ≤ world.clock 0
      → before.probing ≡ false
      → world.aborted 1 ≡ false
      → world.aborted 2 ≡ true
      → ((t : Tracker) → state_for (world.interleave 1 t) id ≡ state_for t id)
      → (asks : List (String × ℕ))
      → ((get_block N platform world store decoders ref).0 ≡ err (bs_error bs_aborted))
        × ((grants id (get_block N platform world store decoders ref).1.health asks).0 ≡ 0)
  unfolding get_block fetch_from visit_fetcher grants
  abort-loses_probe listed positive prepared shut over idle quiet late alone asks =
      let granted = is-granted shut over idle in
      let (probing, opened) = is-probing shut over idle in
      let visited =
        visit-aborts (fetch_from N platform world store ref digest rest) positive granted quiet
          late in
      let none_granted =
        probing-grants_none id (world.interleave 1 probed) asks (rw (alone probed) opened)
          (rw (alone probed) probing) in
      rw (prepared, listed, visited) (refl, none_granted)
