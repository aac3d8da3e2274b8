-- ===== src/Bridge/Broker/Subscriber.antt =====
-- One subscriber of stream-broker.ts during calls that leave its handle alone.
use local_first_p2p_app.Common.{
  ℕ, ◌+◌, ◌≤◌, ◌<◌, ◌≡◌, refl, sym, ap, String, Bool, true, not, Option, none, some, List, [], ◌∷◌,
  ◌++◌, arith, All, if◌then◌else◌, str_eq, eq_iff, length, length-append, append-nil, append_assoc,
}
use local_first_p2p_app.Common.Dict.{lookup, lookup-insert}
use local_first_p2p_app.Bridge.Broker.{
  BridgeStreamRecord, Subscription, Broker, new_subscription, offer, subscribe, deliver_safely,
  buffering, live, overflowed,
}
use local_first_p2p_app.Bridge.Broker.Streams.{
  Event, subscribes, publishes, goes_live, unsubscribes, step_one, run_one,
}

-- Neither a call of the subscriber's handle nor another subscription under its id.
abbrev pub leaves_alone : String → Event → Bool
leaves_alone id (subscribes j k) = not (str_eq j id)
leaves_alone id (publishes k r) = true
leaves_alone id (goes_live j after) = not (str_eq j id)
leaves_alone id (unsubscribes j) = not (str_eq j id)

-- The records that the calls publish to a stream.
unfoldable pub published : String → List Event → List BridgeStreamRecord
published k [] = []
published k (publishes j r ∷ es) =
    let rest = published k es in if str_eq k j then r ∷ rest else rest
published k (subscribes id j ∷ es) = published k es
published k (goes_live id after ∷ es) = published k es
published k (unsubscribes id ∷ es) = published k es

abbrev pub delivered_of : Option Subscription → List BridgeStreamRecord
delivered_of none = []
delivered_of (some s) = s.delivered

-- What the callback of `id` has been called with.
unfoldable pub deliveries : String → Broker → List BridgeStreamRecord
deliveries id b = delivered_of (lookup id b)

abbrev pub buffering_with : String → List BridgeStreamRecord → Subscription
buffering_with k rs = record { stream_key = k; state = buffering; buffer = rs; delivered = [] }

abbrev pub live_with : String → List BridgeStreamRecord → Subscription
live_with k rs = record { stream_key = k; state = live; buffer = []; delivered = rs }

pub run_one-buffers :
    (most : ℕ) (id k : String) (es : List Event) (held : List BridgeStreamRecord)
    → All (λ e. leaves_alone id e ≡ true) es
    → length (held ++ published k es) ≤ most
    → run_one most id es (buffering_with k held) ≡ buffering_with k (held ++ published k es)
unfolding run_one step_one published offer
run_one-buffers most id k [] held quiet room = ap (buffering_with k) (sym (append-nil held))
run_one-buffers most id k (subscribes j i ∷ es) held (q, quiet) room =
    ground (arith, q, run_one-buffers most id k es held quiet room)
run_one-buffers most id k (publishes j r ∷ es) held (q, quiet) room = ground (
  arith,
  room,
  append_assoc held (r ∷ []) (published k es),
  length-append held (r ∷ published k es),
  run_one-buffers most id k es held quiet,
  run_one-buffers most id k es (held ++ r ∷ []) quiet,
)
run_one-buffers most id k (goes_live j after ∷ es) held (q, quiet) room =
    ground (arith, q, run_one-buffers most id k es held quiet room)
run_one-buffers most id k (unsubscribes j ∷ es) held (q, quiet) room =
    ground (arith, q, run_one-buffers most id k es held quiet room)

pub run_one-delivers :
    (most : ℕ) (id k : String) (es : List Event) (given : List BridgeStreamRecord)
    → All (λ e. leaves_alone id e ≡ true) es
    → run_one most id es (live_with k given) ≡ live_with k (given ++ published k es)
unfolding run_one step_one published offer deliver_safely
run_one-delivers most id k [] given quiet = ap (live_with k) (sym (append-nil given))
run_one-delivers most id k (subscribes j i ∷ es) given (q, quiet) =
    ground (arith, q, run_one-delivers most id k es given quiet)
run_one-delivers most id k (publishes j r ∷ es) given (q, quiet) = ground (
  arith,
  append_assoc given (r ∷ []) (published k es),
  run_one-delivers most id k es given quiet,
  run_one-delivers most id k es (given ++ r ∷ []) quiet,
)
run_one-delivers most id k (goes_live j after ∷ es) given (q, quiet) =
    ground (arith, q, run_one-delivers most id k es given quiet)
run_one-delivers most id k (unsubscribes j ∷ es) given (q, quiet) =
    ground (arith, q, run_one-delivers most id k es given quiet)

pub run_one-append :
    (most : ℕ) (id : String) (es later : List Event) (s : Subscription)
    → run_one most id (es ++ later) s ≡ run_one most id later (run_one most id es s)
unfolding run_one
run_one-append most id [] later s = refl
run_one-append most id (e ∷ es) later s = run_one-append most id es later (step_one most id e s)

pub subscribed :
    (id k : String) (b : Broker) → lookup id (subscribe id k b) ≡ some (new_subscription k)
unfolding subscribe
subscribed id k b = ground (arith, eq_iff id id, lookup-insert id id (new_subscription k) b)

abbrev pub overflowed_with : String → Subscription
overflowed_with k = record { stream_key = k; state = overflowed; buffer = []; delivered = [] }

pub run_one-stays :
    (most : ℕ) (id k : String) (es : List Event)
    → All (λ e. leaves_alone id e ≡ true) es
    → run_one most id es (overflowed_with k) ≡ overflowed_with k
unfolding run_one step_one offer
run_one-stays most id k [] quiet = refl
run_one-stays most id k (subscribes j i ∷ es) (q, quiet) =
    ground (arith, q, run_one-stays most id k es quiet)
run_one-stays most id k (publishes j r ∷ es) (q, quiet) =
    ground (arith, q, run_one-stays most id k es quiet)
run_one-stays most id k (goes_live j after ∷ es) (q, quiet) =
    ground (arith, q, run_one-stays most id k es quiet)
run_one-stays most id k (unsubscribes j ∷ es) (q, quiet) =
    ground (arith, q, run_one-stays most id k es quiet)

pub run_one-overflows :
    (most : ℕ) (id k : String) (es : List Event) (held : List BridgeStreamRecord)
    → All (λ e. leaves_alone id e ≡ true) es
    → length held ≤ most
    → most < length held + length (published k es)
    → run_one most id es (buffering_with k held) ≡ overflowed_with k
unfolding run_one step_one published offer
run_one-overflows most id k [] held quiet fits over = ground (arith, fits, over)
run_one-overflows most id k (subscribes j i ∷ es) held (q, quiet) fits over =
    ground (arith, q, run_one-overflows most id k es held quiet fits over)
run_one-overflows most id k (publishes j r ∷ es) held (q, quiet) fits over = ground (
  arith,
  fits,
  over,
  length-append held (r ∷ []),
  run_one-stays most id k es quiet,
  run_one-overflows most id k es held quiet,
  run_one-overflows most id k es (held ++ r ∷ []) quiet,
)
run_one-overflows most id k (goes_live j after ∷ es) held (q, quiet) fits over =
    ground (arith, q, run_one-overflows most id k es held quiet fits over)
run_one-overflows most id k (unsubscribes j ∷ es) held (q, quiet) fits over =
    ground (arith, q, run_one-overflows most id k es held quiet fits over)
