-- ===== src/Bridge/Broker/Streams.antt =====
-- Runs of the broker of stream-broker.ts: what each subscriber sees of the calls of all.
use local_first_p2p_app.Common.{
  ℕ, ◌≡◌, String, some, List, [], ◌∷◌, arith, if◌then◌else◌, str_eq, eq_iff,
}
use local_first_p2p_app.Common.Dict.{lookup, lookup-insert}
use local_first_p2p_app.Bridge.Broker.{
  BridgeStreamRecord, Subscription, Broker, new_subscription, go_live, unsubscribe, offer,
  subscribe, publish, call_handle,
}

-- One call of the broker, or of the handle of a subscriber.
pub data Event : Type 0 where
  subscribes : String → String → Event
  publishes : String → BridgeStreamRecord → Event
  goes_live : String → ℕ → Event
  unsubscribes : String → Event

unfoldable pub step : ℕ → Event → Broker → Broker
step most (subscribes id stream_key) b = subscribe id stream_key b
step most (publishes stream_key r) b = publish most stream_key r b
step most (goes_live id after) b = call_handle id (go_live after) b
step most (unsubscribes id) b = call_handle id unsubscribe b

unfoldable pub run : ℕ → List Event → Broker → Broker
run most [] b = b
run most (e ∷ es) b = run most es (step most e b)

-- The same for the one subscription of `id`.
unfoldable pub step_one : ℕ → String → Event → Subscription → Subscription
step_one most id (subscribes j stream_key) s =
    if str_eq j id then new_subscription stream_key else s
step_one most id (publishes stream_key r) s =
    if str_eq s.stream_key stream_key then offer most r s else s
step_one most id (goes_live j after) s = if str_eq j id then go_live after s else s
step_one most id (unsubscribes j) s = if str_eq j id then unsubscribe s else s

unfoldable pub run_one : ℕ → String → List Event → Subscription → Subscription
run_one most id [] s = s
run_one most id (e ∷ es) s = run_one most id es (step_one most id e s)

lookup-publish :
    (most : ℕ) (id k : String) (r : BridgeStreamRecord) (b : Broker) (s : Subscription)
    → lookup id b ≡ some s
    → lookup id (publish most k r b) ≡ some (if str_eq s.stream_key k then offer most r s else s)
unfolding lookup publish
lookup-publish most id k r [] s h = cc
lookup-publish most id k r ((j, q) ∷ b) s h = ground (arith, h, lookup-publish most id k r b s)

lookup-call_handle :
    (id j : String) (f : Subscription → Subscription) (b : Broker) (s : Subscription)
    → lookup id b ≡ some s
    → lookup id (call_handle j f b) ≡ some (if str_eq j id then f s else s)
unfolding lookup call_handle
lookup-call_handle id j f [] s h = cc
lookup-call_handle id j f ((i, q) ∷ b) s h =
    ground (arith, h, eq_iff i id, eq_iff i j, eq_iff j id, lookup-call_handle id j f b s)

lookup-step :
    (most : ℕ) (id : String) (e : Event) (b : Broker) (s : Subscription)
    → lookup id b ≡ some s
    → lookup id (step most e b) ≡ some (step_one most id e s)
unfolding step step_one subscribe
lookup-step most id (subscribes j k) b s h =
    ground (arith, h, lookup-insert j id (new_subscription k) b)
lookup-step most id (publishes k r) b s h = lookup-publish most id k r b s h
lookup-step most id (goes_live j after) b s h = lookup-call_handle id j (go_live after) b s h
lookup-step most id (unsubscribes j) b s h = lookup-call_handle id j unsubscribe b s h

-- The state of a subscription, and what it has been given, after any calls is that of the calls on
-- its own handle and of the records of its own stream: no other subscriber has a part in it.
pub lookup-run :
    (most : ℕ) (id : String) (es : List Event) (b : Broker) (s : Subscription)
    → lookup id b ≡ some s
    → lookup id (run most es b) ≡ some (run_one most id es s)
unfolding run run_one
lookup-run most id [] b s h = h
lookup-run most id (e ∷ es) b s h =
    lookup-run most id es (step most e b) (step_one most id e s) (lookup-step most id e b s h)
