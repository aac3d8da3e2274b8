-- ===== src/Lib.antt =====
-- Verification of the admission, relay, authority and projection core of the local-first P2P application.
--
-- A bridge receives signed event envelopes from peers. Before it stores one, the
-- transport-admission engine of packages/trust-safety runs a fixed pipeline of checks over it,
-- with a replay cache, a token bucket and a reputation score for each peer. An admitted envelope
-- goes to the bridge's store (apps/bridge-service), which gives it a sequence number, and from
-- which clients read page by page. A light peer (apps/pwa) limits its own sending by a budget, and
-- fetches blocks from providers through packages/block-store, which verifies every byte, watches
-- the providers with a circuit breaker and keeps a cache in memory. On each
-- device, decrypted events are folded into projections: chat threads, the mailbox, the user data
-- root and the control state of MLS groups. Who may do what is decided by capability grants
-- (packages/capabilities) and by how they were delegated; which devices act for an identity is
-- decided by its control log (packages/identity).
--
-- Common: shared names, Boolean tests, lists and dictionaries over the native numbers, and
--   JavaScript's finite numbers as a parameter with laws (Common/Numbers.antt).
-- Transport/RateLimit.antt: packages/trust-safety/src/transport-admission/rate-limit.ts
--   (validateRateLimitConfig, createRateLimitBucket, refill, nextBackoffMs, tryConsume).
-- Transport/ReplayCache.antt: .../transport-admission/replay-cache.ts (recordSeen,
--   pruneReplayCache). The record of keys is a dictionary; a key that names a property of
--   Object.prototype is not modelled.
-- Transport/Reputation.antt: .../transport-admission/peer-reputation.ts (decayReputation,
--   applyReputationDelta, isQuarantined).
-- Transport/Modulation.antt: .../transport-admission/reputation-modulation.ts and the band table
--   of .../reputation-graph/surface-integration.ts.
-- Transport/Reports.antt: .../reports-appeals/privacy.ts (canBridgeForwardReport).
-- Transport/UserBlock.antt: .../transport-admission/user-block-enforcement.ts.
-- Transport/Admission.antt: .../transport-admission/admission.ts (runAdmissionChecks). The
--   pipeline is split where the source numbers its checks: check_content has 3 to 6, check_peer 7
--   and 8, check_recipient 9 and 10.
-- Content/Varint.antt: packages/content-addressing/src/varint.ts (readUnsignedVarint), which reads
--   the codes of a content identifier.
-- Content/Digest.antt: packages/content-addressing/src/digest.ts (createDigest, verifyDigest) over
--   the hash functions of the platform.
-- Content/BlockRef.antt: packages/content-addressing/src/block-ref.ts (validateBlockRef) on a value
--   of the right shape.
-- BlockStore/Health.antt: packages/block-store/src/health.ts (FetcherHealthTracker).
-- BlockStore/Errors.antt, Backoff.antt and Decode.antt: errors.ts, backoff.ts
--   (computeBackoffDelayMs) and decode.ts (decodeBlockBytes, gunzipBounded) beside it.
-- BlockStore/Fetch.antt: packages/block-store/src/block-store.ts (the constructor of BlockStore and
--   getBlock), with the attempts at one fetcher in BlockStore/Fetch/Attempt.antt. The fetchers'
--   answers, the clock, random numbers, the abort signal and what other requests do to the shared
--   tracker during a wait are functions of the number of readings made so far.
-- BlockStore/Memory.antt: packages/block-store/src/memory-fetcher.ts (MemoryBlockStore). `put` takes
--   the bytes of the buffer at the call and those when the digest is there.
-- Pwa/SendBudget.antt: apps/pwa/src/pwa-send-budget.ts (PwaSendBudget).
-- Bridge/Store.antt: apps/bridge-service/src/stores.ts (InMemoryBridgeStore), with utils.ts.
-- Bridge/JsonStore.antt: apps/bridge-service/src/stores.ts (JsonFileBridgeStore). Its file holds
--   the state written last; reads and writes succeed. Bridge/JsonStore/Trace.antt runs either
--   store, with restarts, each of which has a new initial sequence number.
-- Bridge/Broker.antt: apps/bridge-service/src/stream-broker.ts (BridgeStreamBroker): subscriptions
--   and the records that each one's callback is given, in order; what a callback throws is
--   swallowed, and callbacks that call the broker are left out.
-- Capabilities.antt: the grants of packages/capabilities/src/types.ts.
-- Capabilities/Delegation.antt: packages/capabilities/src/delegation-graph.ts
--   (CapabilityDelegationGraph, detectDelegationCycle, buildCapabilityProofGraph,
--   validateDelegationStep, isDelegationPathValid, isCapabilityAuthorized).
-- Capabilities/Evaluate.antt: packages/capabilities/src/evaluate.ts
--   (evaluateCapabilityInvocation).
-- Identity/ControlLog.antt: packages/identity/src/control-log.ts (applyIdentityControlEvent and
--   its handlers, seedIdentityControlProjection); the comparison of signed events, dates, white
--   space and JSON numbers are parameters.
-- Projections/Replay.antt: the fold of a log in packages/local-store/src/index.ts (loadUdrState,
--   loadMailboxInboxState), which skips the events that a projection throws on.
-- Projections/Chat.antt: packages/chat-projection/src/index.ts (applyChatEvent).
-- Projections/Mailbox.antt: packages/mailbox-projection/src/index.ts (applyMailboxEvent); the
--   parsing of dates is a parameter. Projections/Entries.antt has the change of one entry of a
--   map.
-- Projections/Udr.antt: packages/udr-projection/src/index.ts (applyUdrEvent, serializeUdrState,
--   deserializeUdrState).
-- Projections/Mls.antt, Members, Commits and Control in Projections/Mls:
--   packages/mls-group-projection/src/index.ts (projectMlsGroupControlEvent and its handlers,
--   resolveForkDeterministically); the reading of JSON numbers is a parameter. Payloads are JSON
--   values (Common/Json.antt), and the length and the order of texts go by UTF-16 units
--   (Common/Text.antt).
--
-- Instants, durations, sizes and counters are natural numbers: epoch milliseconds from 1970 on and
-- safe integers. Rates and scores, which may be fractions, are of a type that the theorems take as
-- a parameter with its operations (Numbers); where a theorem needs laws of IEEE 754 on finite
-- numbers it takes them too (NumberLaws). The integers are an instance, at which the witnesses
-- stand. An object is a record, a method a function that returns the new record beside its result,
-- a thrown exception `none`, `false` or an error value, as each file says. Loops are recursions on
-- lists, or on the rounds that the source itself bounds (Content/Varint.antt, and the attempts of
-- BlockStore/Fetch/Attempt.antt), with two exceptions. The reader of Bridge/Store/Paging.antt counts
-- the pages that it asks for, and its theorem says how many are enough. The two searches of Capabilities/Delegation.antt take a round
-- for each grant of the graph and one more; each round goes down to a grant that was not gone
-- through, so they are enough.
--
-- Not modelled: cryptography and the MLS protocol itself, the database and HTTP layers, the user
-- interface, the validators of the wire formats, the tables and the audit log that
-- packages/trust-safety/src/transport-admission/projection.ts keeps around the pipeline, and the
-- runtimes of moderation, labels and curation.
pub mod Common
pub mod Transport
pub mod BlockStore
pub mod Pwa
pub mod Bridge
pub mod Content
pub mod Projections
pub mod Capabilities
pub mod Identity
