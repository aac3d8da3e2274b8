-- ===== src/Bridge/Broker.antt =====
-- apps/bridge-service/src/stream-broker.ts: subscriptions to the accepted records of a stream. The
-- two nested maps are one list of subscriptions in the order of insertion, each with its stream. A
-- subscription's `delivered` is the list of records that its `onRecord` has been called with;
-- a callback that throws changes nothing, as
-- `#deliverSafely` swallows it. Callbacks that call the broker are not modelled. Subscriber ids are
-- a parameter of `subscribe`, and differ. An unsubscribed handle keeps its own state: it stays in
-- the list as `closed`, where the source takes it out of the maps, and `publish` passes it by.
pub mod Streams
pub mod Order
pub mod Subscriber
pub mod Handshake
pub mod Bounds
mod Tests
use local_first_p2p_app.Common.{
  ℕ, ◌+◌, ◌||◌, not, String, Bool, true, false, List, [], ◌∷◌, ◌++◌, ltb, leb, if◌then◌else◌,
  length, keep, str_eq,
}
use local_first_p2p_app.Common.Dict.{Dict, insert}

pub record BridgeStreamRecord : Type 0 where
  pub cursor : String
  pub sequence : ℕ
  pub event : String
  pub received_at : String

pub data SubscriptionState : Type 0 where
  buffering live closed overflowed : SubscriptionState

pub record Subscription : Type 0 where
  pub stream_key : String
  pub state : SubscriptionState
  pub buffer : List BridgeStreamRecord
  pub delivered : List BridgeStreamRecord

-- `sort((a, b) => a.sequence - b.sequence)`, which is stable.
unfoldable pub insert_sorted :
    BridgeStreamRecord → List BridgeStreamRecord → List BridgeStreamRecord
insert_sorted r [] = r ∷ []
insert_sorted r (q ∷ qs) =
    let rest = insert_sorted r qs in if leb r.sequence q.sequence then r ∷ q ∷ qs else q ∷ rest

unfoldable pub sort_by_sequence : List BridgeStreamRecord → List BridgeStreamRecord
sort_by_sequence [] = []
sort_by_sequence (r ∷ rs) = insert_sorted r (sort_by_sequence rs)

unfoldable pub deliver_safely : BridgeStreamRecord → Subscription → Subscription
deliver_safely r s = record s { delivered = s.delivered ++ r ∷ [] }

unfoldable pub deliver_all : List BridgeStreamRecord → Subscription → Subscription
deliver_all [] s = s
deliver_all (r ∷ rs) s = deliver_all rs (deliver_safely r s)

abbrev pub new_subscription : String → Subscription
new_subscription stream_key = record {
  stream_key = stream_key;
  state = buffering;
  buffer = [];
  delivered = [];
}

-- `goLive` of the subscription's handle.
unfoldable pub go_live : ℕ → Subscription → Subscription
go_live after s =
    let drained = sort_by_sequence (keep (λ r. ltb after r.sequence) s.buffer) in
    elim s.state [
      | buffering ↦ deliver_all drained (record s { buffer = []; state = live })
      | live ↦ s
      | closed ↦ s
      | overflowed ↦ s
    ]

unfoldable pub unsubscribe : Subscription → Subscription
unsubscribe s = elim s.state [
  | closed ↦ s
  | buffering ↦ record s { buffer = []; state = closed }
  | live ↦ record s { buffer = []; state = closed }
  | overflowed ↦ record s { buffer = []; state = closed }
]

-- The body of the loop of `publish`, for one subscription of the stream.
unfoldable pub offer : ℕ → BridgeStreamRecord → Subscription → Subscription
offer most r s = elim s.state [
  | closed ↦ s
  | overflowed ↦ s
  | buffering ↦
      if leb most (length s.buffer)
      then record s { state = overflowed; buffer = [] }
      else record s { buffer = s.buffer ++ r ∷ [] }
  | live ↦ deliver_safely r s
]

abbrev pub Broker : Type 0
Broker = Dict Subscription

unfoldable pub subscribe : String → String → Broker → Broker
subscribe id stream_key b = insert id (new_subscription stream_key) b

unfoldable pub publish : ℕ → String → BridgeStreamRecord → Broker → Broker
publish most stream_key r [] = []
publish most stream_key r ((id, s) ∷ b) =
    let rest = publish most stream_key r b in
    (id, if str_eq s.stream_key stream_key then offer most r s else s) ∷ rest

-- A call of the handle that `subscribe` returned for `id`.
unfoldable pub call_handle : String → (Subscription → Subscription) → Broker → Broker
call_handle id f [] = []
call_handle id f ((j, s) ∷ b) =
    let rest = call_handle id f b in (j, if str_eq j id then f s else s) ∷ rest

abbrev pub is_closed : SubscriptionState → Bool
is_closed closed = true
is_closed buffering = false
is_closed live = false
is_closed overflowed = false

unfoldable pub total_subscription_count : Broker → ℕ
total_subscription_count [] = 0
total_subscription_count ((id, s) ∷ b) =
    let rest = total_subscription_count b in if is_closed s.state then rest else rest + 1

unfoldable pub subscription_count : String → Broker → ℕ
subscription_count stream_key [] = 0
subscription_count stream_key ((id, s) ∷ b) =
    let rest = subscription_count stream_key b in
    if is_closed s.state || not (str_eq s.stream_key stream_key) then rest else rest + 1
