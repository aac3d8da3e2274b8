-- ===== src/Transport/Admission/Tests.antt =====
-- Runs of admission.ts over the integers, and the theorems at concrete inputs.
use local_first_p2p_app.Common.{ℕ, ◌≡◌, ◌≢◌, ◌↔◌, refl, true, none, some, [], ◌∷◌, arith, ap}
use local_first_p2p_app.Common.Dict.{lookup}
use local_first_p2p_app.Common.Numbers.{integers, integer_laws, pos, negsuc}
use local_first_p2p_app.Transport.RateLimit.{
  RateLimitBucket, RateLimitConfig, added_tokens, refill, next_backoff_ms, try_consume,
}
use local_first_p2p_app.Transport.ReplayCache.{
  ReplayCache, first_seen, duplicate, create_replay_cache, record_seen,
}
use local_first_p2p_app.Transport.ReplayCache.Invariant.{create-IsValid}
use local_first_p2p_app.Transport.Reputation.{
  ReputationConfig, create_reputation, decay_reputation, apply_reputation_delta, is_quarantined,
}
use local_first_p2p_app.Transport.Admission.{
  TransportAction, accept, drop_duplicate, bridge, public, AdmissionEnvelope, AdmissionConfig,
  AdmissionInputs, check_recipient, check_peer, check_content, run_admission_checks_inner,
}
use local_first_p2p_app.Transport.Admission.Pipeline.{Passes, seen_outcome, admitted_iff}
use local_first_p2p_app.Transport.Admission.Verdicts.{Unchanged}
use local_first_p2p_app.Transport.Admission.Retry.{redelivery-dropped}
use local_first_p2p_app.Transport.Admission.Invariant.{HasInvariant, run-HasInvariant}

abbrev slow : RateLimitConfig integers
slow = record {
  capacity = 2;
  refill_rate_per_second = pos 1;
  base_backoff_ms = 100;
  max_backoff_ms = 1_000;
}

abbrev limits : ReputationConfig integers
limits = record {
  min_score = negsuc 999;
  max_score = pos 1_000;
  decay_per_second = pos 1;
  quarantine_threshold = negsuc 499;
  recovery_threshold = negsuc 99;
  max_quarantine_ms = 60_000;
}

abbrev config : AdmissionConfig integers
config = record {
  surface = bridge;
  max_bytes = none;
  rate_limit_config = some slow;
  reputation_config = some limits;
  replay_cache_config = none;
  allowed_kinds = some ("note.created" ∷ []);
}

abbrev note : AdmissionEnvelope
note = record {
  event_id = "e1";
  idempotency_key = "k1";
  kind = "note.created";
  privacy = public;
  producer_actor_id = "alice";
  peer_id = "p1";
  byte_size = some 200;
  decoded_byte_size = none;
  embedded_report = none;
}

abbrev bucket : RateLimitBucket
bucket = record { tokens = 2; last_refill_at = 50; consecutive_refusals = 0; cooldown_until = 0 }

abbrev spent : RateLimitBucket
spent = record { tokens = 0; last_refill_at = 50; consecutive_refusals = 0; cooldown_until = 0 }

abbrev inputs : RateLimitBucket → ReplayCache → ℕ → AdmissionInputs integers
inputs b cache now = record {
  config = config;
  envelope = note;
  context = none;
  rate_limit_bucket = b;
  reputation = create_reputation integers 50;
  replay_cache = cache;
  now = now;
}

abbrev first : AdmissionInputs integers
first = inputs bucket create_replay_cache 60

abbrev limited : AdmissionInputs integers
limited = inputs spent create_replay_cache 60

-- The same envelope, sent again once the cooldown is over.
abbrev again : AdmissionInputs integers
again = inputs bucket (run_admission_checks_inner integers limited slow).replay_cache 5_000

abbrev known : ReplayCache
known = record { entries = ("k1", 55) ∷ []; insertion_order = "k1" ∷ [] }

accepts : (run_admission_checks_inner integers first slow).decision.action ≡ accept
unfolding run_admission_checks_inner check_content check_peer check_recipient try_consume refill
    record_seen added_tokens decay_reputation is_quarantined apply_reputation_delta lookup
accepts = refl

limits_rate :
    (run_admission_checks_inner integers limited slow).decision.action ≡ TransportAction.rate_limit
unfolding run_admission_checks_inner check_content check_peer try_consume refill added_tokens
    next_backoff_ms record_seen decay_reputation is_quarantined lookup
limits_rate = refl

limited-kept : (run_admission_checks_inner integers limited slow).decision.action ≢ drop_duplicate
limited-kept h = cc (limits_rate, h)

seen_known : seen_outcome integers (inputs bucket known 60) slow ≡ duplicate
unfolding record_seen lookup
seen_known = refl

spends : (run_admission_checks_inner integers first slow).rate_limit_bucket.tokens ≡ 1
unfolding run_admission_checks_inner check_content check_peer check_recipient try_consume refill
    record_seen added_tokens decay_reputation is_quarantined lookup
spends = refl

spends-ne : (run_admission_checks_inner integers first slow).rate_limit_bucket ≢ bucket
spends-ne h = omega (arith, spends, ap (λ (b : RateLimitBucket). b.tokens) h)

admitted_iff_example : ((run_admission_checks_inner integers first slow).is_admitted ≡ true) ↔ (
    (size : ℕ) × (some 200 ≡ some size)
    × (seen_outcome integers first slow ≡ first_seen)
    × Passes integers first slow size)
admitted_iff_example = admitted_iff integers first slow

redelivery-dropped_example :
    ((run_admission_checks_inner integers again slow).decision.action ≡ drop_duplicate)
    × Unchanged integers again slow (run_admission_checks_inner integers again slow)
redelivery-dropped_example =
    redelivery-dropped integers limited slow again slow 200 200 create-IsValid refl refl
      limited-kept refl refl refl (omega arith) (omega arith)

start-HasInvariant :
    HasInvariant integers integer_laws first slow bucket
      (create_reputation integers 50)
      create_replay_cache
start-HasInvariant = record {
  cache_valid = create-IsValid;
  bucket_bounded = omega arith;
  score_in_bounds = (refl, refl);
}

run-HasInvariant_example :
    HasInvariant integers integer_laws first slow
      (run_admission_checks_inner integers first slow).rate_limit_bucket
      (run_admission_checks_inner integers first slow).reputation
      (run_admission_checks_inner integers first slow).replay_cache
run-HasInvariant_example = run-HasInvariant integers integer_laws first slow refl start-HasInvariant
