-- ===== src/Bridge/Broker/Handshake.antt =====
-- The handshake of stream-broker.ts between the backlog of the store and the live records.
use local_first_p2p_app.Common.{
  ℕ, ◌≤◌, ◌<◌, ◌≡◌, refl, sym, ap, subst, ◌∙◌, String, true, some, List, [], ◌∷◌, ◌++◌, arith, All,
  length, ltb, append_assoc, eq_refl,
}
use local_first_p2p_app.Common.Dict.{lookup}
use local_first_p2p_app.Bridge.Broker.{
  BridgeStreamRecord, Broker, new_subscription, go_live, subscribe, sort_by_sequence,
}
use local_first_p2p_app.Bridge.Broker.Streams.{
  Event, subscribes, goes_live, step, run, step_one, run_one, lookup-run,
}
use local_first_p2p_app.Bridge.Broker.Order.{
  IsAscending, upto, beyond, upto-beyond, sort_by_sequence-ascending, deliver_all-appends,
  IsAscending-keep, beyond-old,
}
use local_first_p2p_app.Bridge.Broker.Subscriber.{
  leaves_alone, published, deliveries, delivered_of, buffering_with, live_with, overflowed_with,
  run_one-buffers, run_one-delivers, run_one-append, subscribed, run_one-overflows, run_one-stays,
}

go_live-drains :
    (most : ℕ) (id k : String) (after : ℕ) (rs : List BridgeStreamRecord)
    → IsAscending (beyond after rs)
    → step_one most id (goes_live id after) (buffering_with k rs) ≡ live_with k (beyond after rs)
unfolding step_one go_live
go_live-drains most id k after rs a = rw (eq_refl id) (
    deliver_all-appends (sort_by_sequence (beyond after rs)) (live_with k [])
    ∙ ap (live_with k) (sort_by_sequence-ascending (beyond after rs) a))

-- The subscriber's life from its subscription: buffering, the switch, and live.
handshake_lem :
    (most : ℕ) (id k : String) (after : ℕ) (es later : List Event) (b : Broker)
    → All (λ e. leaves_alone id e ≡ true) es
    → All (λ e. leaves_alone id e ≡ true) later
    → length (published k es) ≤ most
    → IsAscending (beyond after (published k es))
    → deliveries id (run most (subscribes id k ∷ es ++ goes_live id after ∷ later) b)
      ≡ beyond after (published k es) ++ published k later
unfolding deliveries run step run_one
handshake_lem most id k after es later b quiet quiet' room a = ap delivered_of (
    lookup-run most id (es ++ goes_live id after ∷ later) (subscribe id k b) (new_subscription k)
      (subscribed id k b)
    ∙ ap some (
        run_one-append most id es (goes_live id after ∷ later) (new_subscription k)
        ∙ ap (run_one most id (goes_live id after ∷ later))
            (run_one-buffers most id k es [] quiet room)
        ∙ ap (run_one most id later) (go_live-drains most id k after (published k es) a)
        ∙ run_one-delivers most id k later (beyond after (published k es)) quiet'))

-- A reader gets the records of its stream up to `after` from the store, those stored before it
-- subscribed and those that came in between, and then goes live after that number. If the stream's
-- records ascend and those that came in between fit the buffer, then the records read and those that
-- its callback is given from there on are all of the stream's records, each once and in order,
-- whatever the other subscribers do.
pub handshake_complete :
    (most : ℕ) (id k : String) (after : ℕ) (es later : List Event) (b : Broker)
    (early : List BridgeStreamRecord)
    → All (λ e. leaves_alone id e ≡ true) es
    → All (λ e. leaves_alone id e ≡ true) later
    → length (published k es) ≤ most
    → IsAscending (early ++ published k es)
    → All (λ r. r.sequence ≤ after) early
    → upto after (early ++ published k es)
        ++ deliveries id (run most (subscribes id k ∷ es ++ goes_live id after ∷ later) b)
      ≡ early ++ published k es ++ published k later
handshake_complete most id k after es later b early quiet quiet' room a old =
    let all = early ++ published k es in
    let same = beyond-old after early (published k es) old in
    let drained = subst IsAscending same (IsAscending-keep (λ r. ltb after r.sequence) all a) in
    ap (λ ds. upto after all ++ ds)
      (handshake_lem most id k after es later b quiet quiet' room drained)
    ∙ ap (λ ds. upto after all ++ (ds ++ published k later)) (sym same)
    ∙ sym (append_assoc (upto after all) (beyond after all) (published k later))
    ∙ ap (λ rs. rs ++ published k later) (upto-beyond after all a)

go_live-overflowed :
    (most : ℕ) (id k : String) (after : ℕ)
    → step_one most id (goes_live id after) (overflowed_with k) ≡ overflowed_with k
unfolding step_one go_live
go_live-overflowed most id k after = rw (eq_refl id) refl

-- If more records of the stream come in than the buffer holds before the subscriber goes live, it is
-- left `overflowed` and its callback is never given a record, neither then nor later: the gap is not
-- hidden from it.
overflow-delivers_none :
    (most : ℕ) (id k : String) (after : ℕ) (es later : List Event) (b : Broker)
    → All (λ e. leaves_alone id e ≡ true) es
    → All (λ e. leaves_alone id e ≡ true) later
    → most < length (published k es)
    → lookup id (run most (subscribes id k ∷ es ++ goes_live id after ∷ later) b)
      ≡ some (overflowed_with k)
unfolding run step run_one
overflow-delivers_none most id k after es later b quiet quiet' over =
    lookup-run most id (es ++ goes_live id after ∷ later) (subscribe id k b) (new_subscription k)
      (subscribed id k b)
    ∙ ap some (
        run_one-append most id es (goes_live id after ∷ later) (new_subscription k)
        ∙ ap (run_one most id (goes_live id after ∷ later))
            (run_one-overflows most id k es [] quiet (omega arith) (omega (arith, over)))
        ∙ ap (run_one most id later) (go_live-overflowed most id k after)
        ∙ run_one-stays most id k later quiet')
