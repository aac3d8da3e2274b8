-- ===== src/Pwa/SendBudget.antt =====
-- apps/pwa/src/pwa-send-budget.ts: at most so many runs and entries in a window of time.
-- An instant is a safe integer of milliseconds from 1970 on. A thrown RangeError is an error value;
-- the TypeErrors for numbers that are no safe integers of the wanted sign cannot arise, except for
-- zero entries.
pub mod Window
pub mod Retry
mod Tests
use local_first_p2p_app.Common.{
  ℕ, ◌+◌, ◌-◌, max, Bool, true, false, ◌&&◌, ◌||◌, Option, none, some, ltb, leb, ◌==◌,
  if◌then◌else◌,
}

pub record SendBudgetOptions : Type 0 where
  pub window_ms : ℕ
  pub max_runs : ℕ
  pub max_entries : ℕ
  pub min_interval_ms : ℕ

abbrev pub default_options : SendBudgetOptions
default_options = record {
  window_ms = 60_000;
  max_runs = 3;
  max_entries = 5;
  min_interval_ms = 1_000;
}

pub record SendBudget : Type 0 where
  pub window_started_at : Option ℕ
  pub last_accepted_at : Option ℕ
  pub runs : ℕ
  pub entries : ℕ

abbrev pub new_budget : SendBudget
new_budget = record { window_started_at = none; last_accepted_at = none; runs = 0; entries = 0 }

pub data SendBudgetReason : Type 0 where
  minimum_interval window_limit : SendBudgetReason

pub data SendBudgetDecision : Type 0 where
  accepted : ℕ → ℕ → SendBudgetDecision
  deferred : SendBudgetReason → ℕ → SendBudgetDecision
  -- `reserve` throws
  invalid_entries : SendBudgetDecision

abbrev pub reset_ms : SendBudget → ℕ → SendBudget
reset_ms b now = record {
  window_started_at = some now;
  last_accepted_at = none;
  runs = 0;
  entries = 0;
}

unfoldable pub roll_window : SendBudgetOptions → SendBudget → ℕ → SendBudget
roll_window o b now = elim b.window_started_at [
  | none ↦ reset_ms b now
  | some start ↦
      if ltb now start
      then reset_ms b now
      else if leb o.window_ms (now - start)
      then reset_ms b now
      else b
]

-- `lastAcceptedAtMs !== undefined` and the interval since then is too short; `now - t` stops at 0, as
-- `Math.max(0, ...)` does.
abbrev pub too_soon : SendBudgetOptions → Option ℕ → ℕ → Bool
too_soon o none now = false
too_soon o (some t) now = ltb (now - t) o.min_interval_ms

abbrev pub interval_left : SendBudgetOptions → Option ℕ → ℕ → ℕ
interval_left o none now = 0
interval_left o (some t) now = o.min_interval_ms - (now - t)

abbrev pub window_end : SendBudgetOptions → Option ℕ → ℕ
window_end o none = 0
window_end o (some start) = start + o.window_ms

-- The rest of `reserve`, once the window is rolled.
unfoldable pub reserve_in_window :
    SendBudgetOptions → SendBudget → ℕ → ℕ → SendBudgetDecision × SendBudget
reserve_in_window o b now entries =
    if too_soon o b.last_accepted_at now
    then (deferred minimum_interval (max 1 (interval_left o b.last_accepted_at now)), b)
    else if ltb o.max_runs (b.runs + 1) || ltb o.max_entries (b.entries + entries)
    then (deferred window_limit (max 1 (window_end o b.window_started_at - now)), b)
    else (
      accepted (o.max_runs - (b.runs + 1)) (o.max_entries - (b.entries + entries)),
      record b { last_accepted_at = some now; runs = b.runs + 1; entries = b.entries + entries },
    )

unfoldable pub reserve : SendBudgetOptions → SendBudget → ℕ → ℕ → SendBudgetDecision × SendBudget
reserve o b now entries =
    if entries == 0 || ltb o.max_entries entries
    then (invalid_entries, b)
    else reserve_in_window o (roll_window o b now) now entries

-- `refund`; the Boolean tells that it did not throw.
unfoldable pub refund : SendBudget → ℕ → ℕ → Bool × SendBudget
refund b runs entries =
    if runs == 0 && entries == 0
    then (true, b)
    else if ltb b.runs runs || ltb b.entries entries
    then (false, b)
    else (
      true,
      record b {
        runs = b.runs - runs;
        entries = b.entries - entries;
        last_accepted_at =
            if (b.runs - runs) == 0 && (b.entries - entries) == 0 then none else b.last_accepted_at;
      },
    )

pub record SendBudgetSnapshot : Type 0 where
  pub window_started_at : ℕ
  pub last_accepted_at : Option ℕ
  pub runs : ℕ
  pub entries : ℕ

abbrev started_at : Option ℕ → ℕ → ℕ
started_at none now = now
started_at (some start) now = start

-- `snapshot` rolls the window, and this stays.
unfoldable pub snapshot : SendBudgetOptions → SendBudget → ℕ → SendBudgetSnapshot × SendBudget
snapshot o b now =
    let rolled = roll_window o b now in
    (
      record {
        window_started_at = started_at rolled.window_started_at now;
        last_accepted_at = rolled.last_accepted_at;
        runs = rolled.runs;
        entries = rolled.entries;
      },
      rolled,
    )
