-- ===== src/Bridge/Broker/Bounds.antt =====
-- The buffers of stream-broker.ts do not grow past their cap.
use local_first_p2p_app.Common.{
  ℕ, ◌≤◌, ap, String, true, false, List, [], ◌∷◌, arith, All, if◌then◌else◌, str_eq, length, ltb,
  keep, length-append,
}
use local_first_p2p_app.Common.Dict.{insert}
use local_first_p2p_app.Bridge.Broker.{
  BridgeStreamRecord, Subscription, Broker, new_subscription, go_live, unsubscribe, offer,
  subscribe, publish, call_handle, deliver_safely, live, sort_by_sequence,
}
use local_first_p2p_app.Bridge.Broker.Streams.{
  Event, subscribes, publishes, goes_live, unsubscribes, step, run,
}
use local_first_p2p_app.Bridge.Broker.Order.{deliver_all-appends}

-- No subscription holds more records than the cap.
abbrev pub IsWithin : ℕ → Broker → Type 0
IsWithin most b = All (λ p. length p.1.buffer ≤ most) b

go_live-within :
    (most after : ℕ) (s : Subscription)
    → length s.buffer ≤ most
    → length (go_live after s).buffer ≤ most
unfolding go_live
go_live-within most after s h = ground (
  arith,
  h,
  ap (λ x. length x.buffer)
      (deliver_all-appends (sort_by_sequence (keep (λ r. ltb after r.sequence) s.buffer))
        (record s { buffer = []; state = live })),
)

offer-within :
    (most : ℕ) (r : BridgeStreamRecord) (s : Subscription)
    → length s.buffer ≤ most
    → length (offer most r s).buffer ≤ most
unfolding offer deliver_safely
offer-within most r s h = ground (arith, h, length-append s.buffer (r ∷ []))

unsubscribe-within :
    (most : ℕ) (s : Subscription) → length s.buffer ≤ most → length (unsubscribe s).buffer ≤ most
unfolding unsubscribe
unsubscribe-within most s h = ground (arith, h)

publish-IsWithin :
    (most : ℕ) (k : String) (r : BridgeStreamRecord) (b : Broker)
    → IsWithin most b
    → IsWithin most (publish most k r b)
unfolding publish
publish-IsWithin most k r [] h = h
publish-IsWithin most k r ((id, s) ∷ b) (first, h) =
    (ground (arith, first, offer-within most r s first), publish-IsWithin most k r b h)

call_handle-IsWithin :
    (most : ℕ) (id : String) (f : Subscription → Subscription) (b : Broker)
    → ((s : Subscription) → length s.buffer ≤ most → length (f s).buffer ≤ most)
    → IsWithin most b
    → IsWithin most (call_handle id f b)
unfolding call_handle
call_handle-IsWithin most id f [] keeps h = h
call_handle-IsWithin most id f ((j, s) ∷ b) keeps (first, h) =
    (ground (arith, first, keeps s first), call_handle-IsWithin most id f b keeps h)

subscribe-IsWithin :
    (most : ℕ) (id k : String) (b : Broker)
    → IsWithin most b
    → IsWithin most (insert id (new_subscription k) b)
unfolding insert
subscribe-IsWithin most id k [] h = (omega arith, tt)
subscribe-IsWithin most id k ((j, s) ∷ b) (first, h) =
    elim (str_eq j id)
      as (λ c.
        IsWithin most
          (if c then (j, new_subscription k) ∷ b else (j, s) ∷ insert id (new_subscription k) b)) [
            | true ↦ (omega arith, h)
            | false ↦ (first, subscribe-IsWithin most id k b h)
          ]

step-IsWithin :
    (most : ℕ) (e : Event) (b : Broker) → IsWithin most b → IsWithin most (step most e b)
unfolding step subscribe
step-IsWithin most (subscribes id k) b h = subscribe-IsWithin most id k b h
step-IsWithin most (publishes k r) b h = publish-IsWithin most k r b h
step-IsWithin most (goes_live id after) b h =
    call_handle-IsWithin most id (go_live after) b (go_live-within most after) h
step-IsWithin most (unsubscribes id) b h =
    call_handle-IsWithin most id unsubscribe b (unsubscribe-within most) h

-- Whatever is called in whatever order, no subscription's buffer passes the cap.
run-IsWithin :
    (most : ℕ) (es : List Event) (b : Broker) → IsWithin most b → IsWithin most (run most es b)
unfolding run
run-IsWithin most [] b h = h
run-IsWithin most (e ∷ es) b h = run-IsWithin most es (step most e b) (step-IsWithin most e b h)
