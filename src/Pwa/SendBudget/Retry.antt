-- ===== src/Pwa/SendBudget/Retry.antt =====
-- What the waiting time of a deferred reservation promises in pwa-send-budget.ts.
use local_first_p2p_app.Common.{ℕ, ◌+◌, ◌-◌, ◌≤◌, ◌<◌, ◌≡◌, ◌≢◌, some, arith}
use local_first_p2p_app.Pwa.SendBudget.{
  SendBudgetOptions, SendBudget, minimum_interval, window_limit, accepted, deferred, roll_window,
  reserve_in_window, reserve,
}

accepted-stamps :
    (o : SendBudgetOptions) (b : SendBudget) (now entries r e start : ℕ)
    → (reserve o b now entries).0 ≡ accepted r e
    → (reserve o b now entries).1.window_started_at ≡ some start
    → ((reserve o b now entries).1.last_accepted_at ≡ some now) × (start ≤ now)
unfolding reserve reserve_in_window roll_window
accepted-stamps o b now entries r e start ok opened = ground arith

roll_window-same :
    (o : SendBudgetOptions) (b : SendBudget) (start now : ℕ)
    → b.window_started_at ≡ some start
    → start ≤ now
    → now < start + o.window_ms
    → roll_window o b now ≡ b
unfolding roll_window
roll_window-same o b start now opened from to = ground arith

reserve-too_soon :
    (o : SendBudgetOptions) (b : SendBudget) (last later more : ℕ)
    → roll_window o b later ≡ b
    → b.last_accepted_at ≡ some last
    → last ≤ later
    → later < last + o.min_interval_ms
    → 0 < more
    → more ≤ o.max_entries
    → (reserve o b later more).0 ≡ deferred minimum_interval (last + o.min_interval_ms - later)
unfolding reserve reserve_in_window
reserve-too_soon o b last later more same stamped from soon some_more fits = ground arith

-- After an accepted reservation, a further one of admissible size inside the minimum interval and the
-- same window is deferred for the rest of that interval.
accepted-spaced :
    (o : SendBudgetOptions) (b : SendBudget) (now later entries more r e start : ℕ)
    → (reserve o b now entries).0 ≡ accepted r e
    → (reserve o b now entries).1.window_started_at ≡ some start
    → now ≤ later
    → later < now + o.min_interval_ms
    → later < start + o.window_ms
    → 0 < more
    → more ≤ o.max_entries
    → (reserve o (reserve o b now entries).1 later more).0
      ≡ deferred minimum_interval (now + o.min_interval_ms - later)
accepted-spaced o b now later entries more r e start ok opened from soon within some_more fits =
    let (stamped, begun) = accepted-stamps o b now entries r e start ok opened in
    let b' = (reserve o b now entries).1 in
    reserve-too_soon o b' now later more
      (roll_window-same o b' start later opened (omega (arith, begun)) within) stamped from soon
      some_more fits

-- A reservation that the window's limit defers is accepted when it is made again after exactly the
-- time that it was told to wait.
pub window_limit-retry :
    (o : SendBudgetOptions) (b : SendBudget) (now entries wait : ℕ)
    → 0 < o.max_runs
    → (reserve o b now entries).0 ≡ deferred window_limit wait
    → (reserve o (reserve o b now entries).1 (now + wait) entries).0
      ≡ accepted (o.max_runs - 1) (o.max_entries - entries)
unfolding reserve reserve_in_window roll_window
window_limit-retry o b now entries wait positive h = ground arith

minimum_interval-inversion :
    (o : SendBudgetOptions) (b : SendBudget) (last now entries wait : ℕ)
    → b.last_accepted_at ≡ some last
    → (reserve o b now entries).0 ≡ deferred minimum_interval wait
    → ((reserve o b now entries).1 ≡ b) × (o.min_interval_ms ≤ now - last + wait)
unfolding reserve reserve_in_window roll_window
minimum_interval-inversion o b last now entries wait stamped h = ground arith

long_ago-no_interval :
    (o : SendBudgetOptions) (b : SendBudget) (last now entries more : ℕ)
    → b.last_accepted_at ≡ some last
    → o.min_interval_ms ≤ now - last
    → (reserve o b now entries).0 ≢ deferred minimum_interval more
unfolding reserve reserve_in_window roll_window
long_ago-no_interval o b last now entries more stamped long = ground arith

-- Where the last accepted reservation does not lie ahead of the clock, one that the minimum interval
-- defers is not deferred for that reason again when it is made after the time it was told to wait.
minimum_interval-retry :
    (o : SendBudgetOptions) (b : SendBudget) (last now entries wait more : ℕ)
    → b.last_accepted_at ≡ some last
    → last ≤ now
    → (reserve o b now entries).0 ≡ deferred minimum_interval wait
    → (reserve o (reserve o b now entries).1 (now + wait) entries).0
      ≢ deferred minimum_interval more
minimum_interval-retry o b last now entries wait more stamped past h =
    let (same, enough) = minimum_interval-inversion o b last now entries wait stamped h in
    rw same
      (long_ago-no_interval o b last (now + wait) entries more stamped (omega (arith, enough)))
