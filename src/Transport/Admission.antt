-- ===== src/Transport/Admission.antt =====
-- packages/trust-safety/src/transport-admission/admission.ts: the fixed-order pipeline of checks.
-- The envelope is the projection that the engine takes. `byte_size` is `none` where the size is
-- negative or not finite; a decision keeps its event id and instant in place of the text built from
-- them, and leaves out the operator authority and the policy version, which the engine copies.
pub mod Pipeline
pub mod Verdicts
pub mod Retry
pub mod Invariant
mod Tests
use local_first_p2p_app.Common.{
  ℕ, suc, ◌+◌, ◌*◌, String, Bool, true, false, not, ◌&&◌, ◌||◌, Option, none, some, List, [], ◌∷◌,
  ltb, if◌then◌else◌, contains,
}
use local_first_p2p_app.Common.Numbers.{Numbers}
use local_first_p2p_app.Transport.RateLimit.{
  RateLimitBucket, RateLimitConfig, default_rate_limit, try_consume,
}
use local_first_p2p_app.Transport.ReplayCache.{
  ReplayCache, ReplayCacheConfig, default_replay_cache, ReplayOutcome, first_seen, duplicate,
  record_seen,
}
use local_first_p2p_app.Transport.Reputation.{
  DeltaReason, disallowed_kind, oversized, compression_bomb, admitted, PeerReputation,
  ReputationConfig, default_reputation, decay_reputation, apply_reputation_delta, is_quarantined,
}
use local_first_p2p_app.Transport.Modulation.{ReputationBand, modulate_rate_limit_config}
use local_first_p2p_app.Transport.Reports.{SafetyReport, can_bridge_forward_report}
use local_first_p2p_app.Transport.UserBlock.{LocalControlState, decide_user_block_transport}

pub data TransportSurface : Type 0 where
  bridge relay super_peer public_index media_store : TransportSurface

pub data EnvelopePrivacyScope : Type 0 where
  device_local self dm group public : EnvelopePrivacyScope

pub data TransportAction : Type 0 where
  accept accept_limited quarantine reject rate_limit drop_duplicate : TransportAction

-- The reason codes that the engine gives.
pub data SafetyReasonCode : Type 0 where
  malformed_object replay disallowed_scope rate_limit local_preference : SafetyReasonCode

-- `SAFE_SCOPES_BY_SURFACE[surface].has(scope)`
abbrev pub is_safe_scope : TransportSurface → EnvelopePrivacyScope → Bool
is_safe_scope surface device_local = false
is_safe_scope surface self = false
is_safe_scope super_peer dm = false
is_safe_scope public_index dm = false
is_safe_scope _ dm = true
is_safe_scope public_index group = false
is_safe_scope _ group = true
is_safe_scope surface public = true

-- `DEFAULT_MAX_BYTES_BY_SURFACE`
abbrev pub default_max_bytes : TransportSurface → ℕ
default_max_bytes bridge = 1_048_576
default_max_bytes relay = 1_048_576
default_max_bytes super_peer = 8_388_608
default_max_bytes public_index = 65_536
default_max_bytes media_store = 33_554_432

pub record AdmissionEnvelope : Type 0 where
  pub event_id : String
  pub idempotency_key : String
  pub kind : String
  pub privacy : EnvelopePrivacyScope
  pub producer_actor_id : String
  pub peer_id : String
  pub byte_size : Option ℕ
  pub decoded_byte_size : Option ℕ
  pub embedded_report : Option SafetyReport

pub record TransportAdmissionDecision : Type 0 where
  pub event_id : String
  pub surface : TransportSurface
  pub action : TransportAction
  pub reason_code : SafetyReasonCode
  pub created_at : ℕ

-- `value ?? fallback`
abbrev pub default_to {ℓ} : {A : Type ℓ} → A → Option A → A
default_to fallback none = fallback
default_to fallback (some a) = a

-- `config.allowedKinds === undefined || config.allowedKinds.has(kind)`
abbrev pub is_allowed_kind : Option (List String) → String → Bool
is_allowed_kind none kind = true
is_allowed_kind (some kinds) kind = contains kinds kind

-- `envelope.decodedByteSize !== undefined && envelope.decodedByteSize > limit`
abbrev pub exceeds : Option ℕ → ℕ → Bool
exceeds none limit = false
exceeds (some n) limit = ltb limit n

abbrev pub is_forwardable : Option SafetyReport → Bool
is_forwardable none = true
is_forwardable (some report) = can_bridge_forward_report report

module _ (N : Numbers) where
  open N use {Num, of_ℕ, neg}

  pub record AdmissionConfig : Type 0 where
    pub surface : TransportSurface
    pub max_bytes : Option ℕ
    pub rate_limit_config : Option (RateLimitConfig N)
    pub reputation_config : Option (ReputationConfig N)
    pub replay_cache_config : Option ReplayCacheConfig
    pub allowed_kinds : Option (List String)

  pub record AdmissionContext : Type 0 where
    pub recipient_local_control_state : Option LocalControlState
    pub recipient_user_id : Option String
    pub reputation_score_lookup : Option (String → Option Num)

  pub record AdmissionInputs : Type 0 where
    pub config : AdmissionConfig
    pub envelope : AdmissionEnvelope
    pub context : Option AdmissionContext
    pub rate_limit_bucket : RateLimitBucket
    pub reputation : PeerReputation N
    pub replay_cache : ReplayCache
    pub now : ℕ

  pub record AdmissionOutputs : Type 0 where
    pub decision : TransportAdmissionDecision
    pub is_admitted : Bool
    pub rate_limit_bucket : RateLimitBucket
    pub reputation : PeerReputation N
    pub replay_cache : ReplayCache
    pub reputation_band : Option ReputationBand

  abbrev pub replay_config_of : AdmissionConfig → ReplayCacheConfig
  replay_config_of config = default_to default_replay_cache config.replay_cache_config

  abbrev pub reputation_config_of : AdmissionConfig → ReputationConfig N
  reputation_config_of config = default_to (default_reputation N) config.reputation_config

  abbrev pub max_bytes_of : AdmissionConfig → ℕ
  max_bytes_of config = default_to (default_max_bytes config.surface) config.max_bytes

  abbrev pub outputs :
      AdmissionInputs
      → TransportAction
      → SafetyReasonCode
      → Bool
      → RateLimitBucket
      → PeerReputation N
      → ReplayCache
      → AdmissionOutputs
  outputs inputs action reason_code is_admitted bucket reputation cache = record {
    decision = record {
      event_id = inputs.envelope.event_id;
      surface = inputs.config.surface;
      action = action;
      reason_code = reason_code;
      created_at = inputs.now;
    };
    is_admitted = is_admitted;
    rate_limit_bucket = bucket;
    reputation = reputation;
    replay_cache = cache;
    reputation_band = none;
  }

  -- A rejection before the rate limit: the bucket stays, the peer pays `points`.
  abbrev pub penalize :
      AdmissionInputs → SafetyReasonCode → ℕ → DeltaReason → ReplayCache → AdmissionOutputs
  penalize inputs reason_code points why cache =
      outputs inputs reject reason_code false inputs.rate_limit_bucket
        (apply_reputation_delta N inputs.reputation (neg (of_ℕ points)) inputs.now why
          (reputation_config_of inputs.config))
        cache

  -- Check 9, which runs only where both the state and the recipient are given.
  abbrev pub blocks : Option LocalControlState → Option String → String → ℕ → Bool
  blocks (some state) (some user) producer now =
      (decide_user_block_transport state producer now).should_reject
  blocks (some state) none producer now = false
  blocks none user producer now = false

  abbrev pub is_user_blocked : Option AdmissionContext → String → ℕ → Bool
  is_user_blocked none producer now = false
  is_user_blocked (some context) producer now =
      blocks context.recipient_local_control_state context.recipient_user_id producer now

  -- Checks 9 and 10 and the admission, once the rate limit has let the envelope through.
  unfoldable pub check_recipient :
      AdmissionInputs → RateLimitBucket → PeerReputation N → ReplayCache → AdmissionOutputs
  check_recipient inputs bucket decayed cache =
      let envelope = inputs.envelope in
      if is_user_blocked inputs.context envelope.producer_actor_id inputs.now
      then outputs inputs reject local_preference false bucket decayed cache
      else if not (is_forwardable envelope.embedded_report)
      then outputs inputs reject malformed_object false bucket decayed cache
      else outputs inputs accept local_preference true bucket
          (apply_reputation_delta N decayed (of_ℕ 1) inputs.now admitted
            (reputation_config_of inputs.config))
          cache

  -- Checks 7 and 8: the peer's quarantine and its rate limit.
  unfoldable pub check_peer : AdmissionInputs → RateLimitConfig N → ReplayCache → AdmissionOutputs
  check_peer inputs effective cache =
      let rep_config = reputation_config_of inputs.config in
      let decayed = decay_reputation N inputs.reputation inputs.now rep_config in
      let rl = try_consume N inputs.rate_limit_bucket inputs.now effective in
      if is_quarantined N decayed inputs.now
      then outputs inputs reject SafetyReasonCode.disallowed_scope false inputs.rate_limit_bucket
          decayed cache
      else if not rl.is_allowed
      then outputs inputs TransportAction.rate_limit SafetyReasonCode.rate_limit false rl.bucket
          (apply_reputation_delta N decayed (neg (of_ℕ 10)) inputs.now DeltaReason.rate_limit
            rep_config)
          cache
      else check_recipient inputs rl.bucket decayed cache

  -- Checks 3 to 6: scope, kind, size and decoded size.
  unfoldable pub check_content :
      AdmissionInputs → RateLimitConfig N → ℕ → ReplayCache → AdmissionOutputs
  check_content inputs effective size cache =
      let config = inputs.config in
      let envelope = inputs.envelope in
      if not (is_safe_scope config.surface envelope.privacy)
      then penalize inputs SafetyReasonCode.disallowed_scope 10 DeltaReason.disallowed_scope cache
      else if not (is_allowed_kind config.allowed_kinds envelope.kind)
      then penalize inputs malformed_object 5 disallowed_kind cache
      else if ltb (max_bytes_of config) size
      then penalize inputs malformed_object 25 oversized cache
      else if exceeds envelope.decoded_byte_size (max_bytes_of config * 1_024)
      then penalize inputs malformed_object 100 compression_bomb cache
      else check_peer inputs effective cache

  -- Checks 1 and 2: the size's shape, and replay.
  unfoldable pub run_admission_checks_inner : AdmissionInputs → RateLimitConfig N → AdmissionOutputs
  run_admission_checks_inner inputs effective =
      let seen =
        record_seen inputs.replay_cache inputs.envelope.idempotency_key inputs.now
          (replay_config_of inputs.config) in
      elim inputs.envelope.byte_size [
        | none ↦
            outputs inputs reject malformed_object false inputs.rate_limit_bucket inputs.reputation
              inputs.replay_cache
        | some size ↦ elim seen.outcome [
          | duplicate ↦
              outputs inputs drop_duplicate replay false inputs.rate_limit_bucket inputs.reputation
                seen.cache
          | first_seen ↦ check_content inputs effective size seen.cache
        ]
      ]

  abbrev pub lookup_of : Option AdmissionContext → Option (String → Option Num)
  lookup_of none = none
  lookup_of (some context) = context.reputation_score_lookup

  -- `none` is the exception that the modulation throws.
  unfoldable pub run_admission_checks : AdmissionInputs → Option AdmissionOutputs
  run_admission_checks inputs =
      let rate_config = default_to (default_rate_limit N) inputs.config.rate_limit_config in
      elim (lookup_of inputs.context) [
        | none ↦ some (run_admission_checks_inner inputs rate_config)
        | some score_of ↦
            elim (modulate_rate_limit_config N rate_config (score_of inputs.envelope.peer_id)) [
              | none ↦ none
              | some m ↦
                  let raw = run_admission_checks_inner inputs m.config in
                  some (record raw { reputation_band = some m.band })
            ]
      ]
