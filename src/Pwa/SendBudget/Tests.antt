-- ===== src/Pwa/SendBudget/Tests.antt =====
-- Runs of pwa-send-budget.ts, and the theorems at concrete budgets.
use local_first_p2p_app.Common.{◌+◌, ◌-◌, ◌≤◌, ◌≡◌, refl, some, [], ◌∷◌, arith}
use local_first_p2p_app.Pwa.SendBudget.{
  default_options, SendBudget, minimum_interval, window_limit, accepted, deferred, roll_window,
  reserve_in_window, reserve,
}
use local_first_p2p_app.Pwa.SendBudget.Window.{
  IsWithin, reserve-IsWithin, accepted_runs, accepted_entries, window_quota,
}
use local_first_p2p_app.Pwa.SendBudget.Retry.{window_limit-retry}

abbrev busy : SendBudget
busy = record {
  window_started_at = some 1_000;
  last_accepted_at = some 1_500;
  runs = 2;
  entries = 4;
}

busy-IsWithin : IsWithin default_options busy
busy-IsWithin = omega arith

fills : (reserve default_options busy 5_000 2).0 ≡ deferred window_limit 56_000
unfolding reserve roll_window reserve_in_window
fills = refl

hurries : (reserve default_options busy 2_000 1).0 ≡ deferred minimum_interval 500
unfolding reserve roll_window reserve_in_window
hurries = refl

passes : (reserve default_options busy 5_000 1).0 ≡ accepted 0 0
unfolding reserve roll_window reserve_in_window
passes = refl

passes-window : (reserve default_options busy 5_000 1).1.window_started_at ≡ some 1_000
unfolding reserve roll_window reserve_in_window
passes-window = refl

reserve-IsWithin_example : IsWithin default_options (reserve default_options busy 5_000 1).1
reserve-IsWithin_example = reserve-IsWithin default_options busy 5_000 1 busy-IsWithin

window_quota_example :
    (2 + accepted_runs default_options busy ((5_000, 1) ∷ (7_000, 1) ∷ []) ≤ 3)
    × (4 + accepted_entries default_options busy ((5_000, 1) ∷ (7_000, 1) ∷ []) ≤ 5)
window_quota_example =
    window_quota default_options busy 1_000 ((5_000, 1) ∷ (7_000, 1) ∷ []) busy-IsWithin refl
      (omega arith)

window_limit-retry_example :
    (reserve default_options (reserve default_options busy 5_000 2).1 (5_000 + 56_000) 2).0
    ≡ accepted (3 - 1) (5 - 2)
window_limit-retry_example =
    window_limit-retry default_options busy 5_000 2 56_000 (omega arith) fills
