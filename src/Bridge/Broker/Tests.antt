-- ===== src/Bridge/Broker/Tests.antt =====
-- Runs of the broker of stream-broker.ts, and its theorems at concrete calls.
use local_first_p2p_app.Common.{ℕ, ◌≡◌, refl, List, [], ◌∷◌, ◌++◌, arith}
use local_first_p2p_app.Common.Dict.{lookup, insert}
use local_first_p2p_app.Bridge.Broker.{
  BridgeStreamRecord, Broker, new_subscription, subscription_count, total_subscription_count,
  subscribe, publish, call_handle, offer, go_live, unsubscribe, deliver_all, deliver_safely,
  sort_by_sequence, insert_sorted,
}
use local_first_p2p_app.Bridge.Broker.Streams.{
  Event, subscribes, publishes, goes_live, unsubscribes, step, run,
}
use local_first_p2p_app.Bridge.Broker.Order.{upto}
use local_first_p2p_app.Bridge.Broker.Subscriber.{deliveries, published}
use local_first_p2p_app.Bridge.Broker.Handshake.{handshake_complete}

abbrev nth : ℕ → BridgeStreamRecord
nth n = record { cursor = "c"; sequence = n; event = "{}"; received_at = "t" }

-- Another subscriber, of another stream as well, and records of both streams.
abbrev between : List Event
between =
    publishes "bob" (nth 2)
    ∷ subscribes "s2" "eve"
    ∷ publishes "eve" (nth 9)
    ∷ publishes "bob" (nth 3)
    ∷ goes_live "s2" 0
    ∷ []

abbrev after_live : List Event
after_live = publishes "bob" (nth 4) ∷ unsubscribes "s2" ∷ publishes "bob" (nth 5) ∷ []

abbrev one : Broker
one = ("s0", new_subscription "bob") ∷ []

delivers :
    deliveries "s1" (run 2 (subscribes "s1" "bob" ∷ between ++ goes_live "s1" 2 ∷ after_live) one)
    ≡ nth 3 ∷ nth 4 ∷ nth 5 ∷ []
unfolding deliveries lookup insert run step subscribe publish call_handle offer go_live unsubscribe
    deliver_all deliver_safely sort_by_sequence insert_sorted
delivers = refl

counts : subscription_count "bob" (run 2 (subscribes "s1" "bob" ∷ unsubscribes "s0" ∷ []) one) ≡ 1
unfolding subscription_count insert run step subscribe call_handle unsubscribe
counts = refl

counts_all : total_subscription_count (run 2 (subscribes "s1" "eve" ∷ []) one) ≡ 2
unfolding total_subscription_count insert run step subscribe
counts_all = refl

published-between : published "bob" between ≡ nth 2 ∷ nth 3 ∷ []
unfolding published
published-between = refl

handshake_complete_example :
    upto 2 (nth 1 ∷ published "bob" between)
      ++ deliveries "s1"
          (run 2 (subscribes "s1" "bob" ∷ between ++ goes_live "s1" 2 ∷ after_live) one)
    ≡ nth 1 ∷ published "bob" between ++ published "bob" after_live
handshake_complete_example =
    handshake_complete 2 "s1" "bob" 2 between after_live one (nth 1 ∷ [])
      (refl, (refl, (refl, (refl, (refl, tt))))) (refl, (refl, (refl, tt)))
      (unfold published in omega arith) (unfold published in omega arith) (omega arith)
