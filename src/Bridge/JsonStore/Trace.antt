-- ===== src/Bridge/JsonStore/Trace.antt =====
-- Runs of a bridge store of stores.ts: requests, replies and restarts, in one order. A request is one
-- method call of the interface BridgeStore, and the lock of the file store makes it one step.
use local_first_p2p_app.Common.{ℕ, ◌≤◌, max, String, Option, none, List, [], ◌∷◌}
use local_first_p2p_app.Bridge.Store.{
  StoredBridgeRecordDraft, StoredBridgeRecord, StoreOptions, StoreState, BridgeStorePutResult,
  BridgeStoreSnapshot, next_sequence, is_current, evict_expired, evict_to_capacity, find_key,
}
use local_first_p2p_app.Bridge.Store
use local_first_p2p_app.Bridge.JsonStore.{
  JsonStore, get, put_if_absent, list_after, prune_expired, snapshot,
}

-- What a client asks of a bridge store, and what it is told.
pub data Request : Type 0 where
  put : StoredBridgeRecordDraft → Request
  lookup : String → Request
  list : String → ℕ → ℕ → Request
  prune count : Request

pub data Reply : Type 0 where
  put_result : BridgeStorePutResult → Reply
  record_found : Option StoredBridgeRecord → Reply
  listed : List StoredBridgeRecord → Reply
  pruned : Reply
  counted : BridgeStoreSnapshot → Reply

-- A process that serves a request at an instant, or that starts again, has only its file, and takes
-- the initial sequence number anew: `initialSequence`, or the clock where there is none.
pub data Step : Type 0 where
  serve : Request → ℕ → Step
  restart : ℕ → Step

-- A counter that has reached at least the number.
abbrev pub raised : ℕ → StoreState → StoreState
raised initial s = record s { latest_sequence = max initial s.latest_sequence }

unfoldable pub answer : StoreOptions → Request → ℕ → StoreState → Reply × StoreState
answer o (put d) now s = let (r, s') = Store.put_if_absent o d now s in (put_result r, s')
answer o (lookup key) now s = let (r, s') = Store.get key now s in (record_found r, s')
answer o (list target after limit) now s =
    let (r, s') = Store.list_after target after limit now s in (listed r, s')
answer o prune now s = (pruned, Store.prune_expired now s)
answer o count now s = let (r, s') = Store.snapshot now s in (counted r, s')

unfoldable pub answer_json : StoreOptions → ℕ → Request → ℕ → JsonStore → Reply × JsonStore
answer_json o initial (put d) now j =
    let (r, j') = put_if_absent o initial d now j in (put_result r, j')
answer_json o initial (lookup key) now j =
    let (r, j') = get initial key now j in (record_found r, j')
answer_json o initial (list target after limit) now j =
    let (r, j') = list_after initial target after limit now j in (listed r, j')
answer_json o initial prune now j = (pruned, prune_expired initial now j)
answer_json o initial count now j = let (r, j') = snapshot initial now j in (counted r, j')

-- One memory store that lives through all the steps, and whose counter is raised where the process of
-- the file store starts again.
unfoldable pub answers : StoreOptions → List Step → StoreState → List Reply
answers o [] s = []
answers o (serve request now ∷ steps) s =
    let (reply, s') = answer o request now s in reply ∷ answers o steps s'
answers o (restart initial ∷ steps) s = answers o steps (raised initial s)

unfoldable pub answers_json : StoreOptions → ℕ → List Step → JsonStore → List Reply
answers_json o initial [] j = []
answers_json o initial (serve request now ∷ steps) j =
    let (reply, j') = answer_json o initial request now j in reply ∷ answers_json o initial steps j'
answers_json o initial (restart next ∷ steps) j =
    answers_json o next steps (record j { cached = none })

-- The clock does not go back.
abbrev pub IsOrdered : ℕ → List Step → Type 0
IsOrdered from [] = Unit
IsOrdered from (serve request now ∷ steps) = (from ≤ now) × IsOrdered now steps
IsOrdered from (restart initial ∷ steps) = IsOrdered from steps

-- Nor do the initial sequence numbers, from one start to the next.
abbrev pub AreAscending : ℕ → List Step → Type 0
AreAscending initial [] = Unit
AreAscending initial (serve request now ∷ steps) = AreAscending initial steps
AreAscending initial (restart next ∷ steps) = (initial ≤ next) × AreAscending next steps
