-- ===== src/Transport/UserBlock.antt =====
-- packages/trust-safety/src/transport-admission/user-block-enforcement.ts, with `isExpired` of
-- local-controls/projection.ts. A parsed time stands for its text.
use local_first_p2p_app.Common.{
  ℕ, String, Bool, true, false, Option, none, some, ltb, if◌then◌else◌,
}
use local_first_p2p_app.Common.Dict.{Dict, lookup}

pub record BlockedActorEntry : Type 0 where
  pub since : ℕ
  pub expires_at : Option ℕ

-- The part of the recipient's local-control state that the check reads.
pub record LocalControlState : Type 0 where
  pub blocked_actors : Dict BlockedActorEntry

abbrev pub is_expired : BlockedActorEntry → ℕ → Bool
is_expired entry now = elim entry.expires_at [ none ↦ false | some t ↦ ltb t now ]

pub record UserBlockTransportDecision : Type 0 where
  pub should_reject : Bool
  pub blocked_since : Option ℕ

abbrev pub decide_entry : Option BlockedActorEntry → ℕ → UserBlockTransportDecision
decide_entry none now = record { should_reject = false; blocked_since = none }
decide_entry (some entry) now =
    if is_expired entry now
    then record { should_reject = false; blocked_since = none }
    else record { should_reject = true; blocked_since = some entry.since }

unfoldable pub decide_user_block_transport :
    LocalControlState → String → ℕ → UserBlockTransportDecision
decide_user_block_transport state producer_actor_id now =
    decide_entry (lookup producer_actor_id state.blocked_actors) now
