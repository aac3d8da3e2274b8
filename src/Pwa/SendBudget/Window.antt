-- ===== src/Pwa/SendBudget/Window.antt =====
-- The quota of a window in pwa-send-budget.ts.
use local_first_p2p_app.Common.{
  ℕ, ◌+◌, ◌≤◌, ◌<◌, ◌≡◌, ◌⊎◌, true, false, some, List, [], ◌∷◌, All, arith,
}
use local_first_p2p_app.Pwa.SendBudget.{
  SendBudgetOptions, SendBudget, SendBudgetDecision, accepted, roll_window, reserve_in_window,
  reserve, refund,
}

pub record IsWithin (o : SendBudgetOptions) (b : SendBudget) : Type 0 where
  pub runs_within : b.runs ≤ o.max_runs
  pub entries_within : b.entries ≤ o.max_entries

-- A reservation, accepted or not, keeps the counters within the configured maxima.
pub reserve-IsWithin :
    (o : SendBudgetOptions) (b : SendBudget) (now entries : ℕ)
    → IsWithin o b
    → IsWithin o (reserve o b now entries).1
unfolding reserve reserve_in_window roll_window
reserve-IsWithin o b now entries v = ground arith

-- A refund of a budget within its maxima leaves it within them. It gives back exactly the runs and
-- entries asked for or, where that is refused, changes nothing.
refund_exact :
    (o : SendBudgetOptions) (b : SendBudget) (runs entries : ℕ)
    → IsWithin o b
    → IsWithin o (refund b runs entries).1
      × (((refund b runs entries).0 ≡ true)
            × ((refund b runs entries).1.runs + runs ≡ b.runs)
            × ((refund b runs entries).1.entries + entries ≡ b.entries)
          ⊎ ((refund b runs entries).0 ≡ false) × ((refund b runs entries).1 ≡ b))
unfolding refund
refund_exact o b runs entries v = ground arith

abbrev cost : SendBudgetDecision → ℕ
cost (accepted r e) = 1
cost _ = 0

abbrev cost_entries : SendBudgetDecision → ℕ → ℕ
cost_entries (accepted r e) n = n
cost_entries _ n = 0

-- The runs and the entries that a sequence of reservations gets accepted.
pub accepted_runs : SendBudgetOptions → SendBudget → List (ℕ × ℕ) → ℕ
accepted_runs o b [] = 0
accepted_runs o b ((now, entries) ∷ rest) =
    let (d, b') = reserve o b now entries in cost d + accepted_runs o b' rest

pub accepted_entries : SendBudgetOptions → SendBudget → List (ℕ × ℕ) → ℕ
accepted_entries o b [] = 0
accepted_entries o b ((now, entries) ∷ rest) =
    let (d, b') = reserve o b now entries in cost_entries d entries + accepted_entries o b' rest

reserve-counts :
    (o : SendBudgetOptions) (b : SendBudget) (start now entries : ℕ)
    → b.window_started_at ≡ some start
    → start ≤ now
    → now < start + o.window_ms
    → ((reserve o b now entries).1.window_started_at ≡ some start)
      × ((reserve o b now entries).1.runs ≡ b.runs + cost (reserve o b now entries).0)
      × ((reserve o b now entries).1.entries
          ≡ b.entries + cost_entries (reserve o b now entries).0 entries)
unfolding reserve reserve_in_window roll_window
reserve-counts o b start now entries opened from to = ground arith

-- Reservations at any instants of one window, in any order, get no more accepted than the window has
-- left: with those counted already, at most `maxRuns` runs and `maxEntries` entries.
pub window_quota :
    (o : SendBudgetOptions) (b : SendBudget) (start : ℕ) (asks : List (ℕ × ℕ))
    → IsWithin o b
    → b.window_started_at ≡ some start
    → All (λ a. (start ≤ a.0) × (a.0 < start + o.window_ms)) asks
    → (b.runs + accepted_runs o b asks ≤ o.max_runs)
      × (b.entries + accepted_entries o b asks ≤ o.max_entries)
unfolding accepted_runs accepted_entries
window_quota o b start [] v opened within = ground arith
window_quota o b start ((now, entries) ∷ rest) v opened ((from, to), within) =
    let step = reserve-counts o b start now entries opened from to in
    let later =
      window_quota o (reserve o b now entries).1 start rest (reserve-IsWithin o b now entries v)
        step.0 within in
    ground (arith, step, later)
