-- ===== src/Bridge/Store/Paging.antt =====
-- Reading records page by page in stores.ts: `listAfter` with the last sequence number as cursor.
use local_first_p2p_app.Common.{
  ℕ, zero, suc, ◌+◌, ◌≤◌, ◌<◌, ◌≡◌, refl, sym, subst, ap, ◌∙◌, String, Bool, List, [], ◌∷◌, ◌++◌,
  arith, All, ltb, length, keep, take, drop, append_assoc, append-nil, take-append-drop,
  length-drop, length-append,
}
use local_first_p2p_app.Bridge.Store.{
  StoredBridgeRecord, StoreOptions, StoreState, is_current, evict_expired, is_listed, collect,
  list_after,
}
use local_first_p2p_app.Bridge.Store.Records.{IsAscending, IsValid, IsAscending-keep}

-- The records that a reader of `target` has yet to see after a cursor.
abbrev pub pending : String → ℕ → List StoredBridgeRecord → List StoredBridgeRecord
pending target cursor rs = keep (is_listed target cursor) rs

collect-pending :
    (target : String) (cursor limit m : ℕ) (found rs : List StoredBridgeRecord)
    → suc m + length found ≡ limit
    → collect target cursor limit found rs ≡ found ++ take (suc m) (pending target cursor rs)
unfolding collect
collect-pending target cursor limit m found [] sum = sym (append-nil found)
collect-pending target cursor limit zero found (r ∷ rs) sum = ground (
  arith,
  sum,
  length-append found (r ∷ []),
  collect-pending target cursor limit zero found rs sum,
)
collect-pending target cursor limit (suc m) found (r ∷ rs) sum = ground (
  arith,
  sum,
  length-append found (r ∷ []),
  collect-pending target cursor limit (suc m) found rs sum,
  collect-pending target cursor limit m (found ++ r ∷ []) rs
      (omega (arith, sum, length-append found (r ∷ []))),
  append_assoc found (r ∷ []) (take (suc m) (pending target cursor rs)),
)

-- A page is the first `limit` current records of the target after the cursor, those with an event.
pub list_after-pending :
    (target : String) (cursor limit now : ℕ) (s : StoreState)
    → 0 < limit
    → (list_after target cursor limit now s).0
      ≡ take limit (pending target cursor (evict_expired now s.records))
unfolding list_after
list_after-pending target cursor zero now s some_room = absurd (omega (arith, some_room))
list_after-pending target cursor (suc m) now s some_room =
    collect-pending target cursor (suc m) m [] (evict_expired now s.records) (omega arith)

-- The cursor after a page: the last sequence number on it.
abbrev pub last_sequence : ℕ → List StoredBridgeRecord → ℕ
last_sequence cursor [] = cursor
last_sequence cursor (r ∷ rs) = last_sequence r.sequence rs

abbrev follows : ℕ → StoredBridgeRecord → Bool
follows cursor r = ltb cursor r.sequence

last_sequence-ge :
    (cursor : ℕ) (rs : List StoredBridgeRecord)
    → All (λ r. cursor < r.sequence) rs
    → IsAscending rs
    → cursor ≤ last_sequence cursor rs
last_sequence-ge cursor [] later a = omega arith
last_sequence-ge cursor (r ∷ rs) (later, _) (first, a) =
    omega (arith, later, last_sequence-ge r.sequence rs first a)

All-take :
    (P : StoredBridgeRecord → Type 0) (n : ℕ) (rs : List StoredBridgeRecord)
    → All P rs
    → All P (take n rs)
All-take P zero rs h = tt
All-take P (suc n) [] h = tt
All-take P (suc n) (r ∷ rs) (p, h) = (p, All-take P n rs h)

IsAscending-take : (n : ℕ) (rs : List StoredBridgeRecord) → IsAscending rs → IsAscending (take n rs)
IsAscending-take zero rs a = tt
IsAscending-take (suc n) [] a = tt
IsAscending-take (suc n) (r ∷ rs) (first, a) =
    (All-take (λ q. r.sequence < q.sequence) n rs first, IsAscending-take n rs a)

keep-All :
    (cursor : ℕ) (rs : List StoredBridgeRecord)
    → All (λ r. cursor < r.sequence) rs
    → keep (follows cursor) rs ≡ rs
keep-All cursor [] h = refl
keep-All cursor (r ∷ rs) (later, h) = ground (arith, later, keep-All cursor rs h)

keep-rest :
    (cursor n : ℕ) (rs : List StoredBridgeRecord)
    → All (λ r. cursor < r.sequence) rs
    → IsAscending rs
    → keep (follows (last_sequence cursor (take n rs))) rs ≡ drop n rs
keep-rest cursor zero rs later a = keep-All cursor rs later
keep-rest cursor (suc n) [] later a = refl
keep-rest cursor (suc n) (r ∷ rs) later (first, a) = ground (
  arith,
  keep-rest r.sequence n rs first a,
  last_sequence-ge r.sequence (take n rs) (All-take (λ q. r.sequence < q.sequence) n rs first)
      (IsAscending-take n rs a),
)

pending-pending :
    (target : String) (cursor next : ℕ) (rs : List StoredBridgeRecord)
    → cursor ≤ next
    → pending target next rs ≡ keep (follows next) (pending target cursor rs)
pending-pending target cursor next [] le = refl
pending-pending target cursor next (r ∷ rs) le =
    ground (arith, le, pending-pending target cursor next rs le)

pending-later :
    (target : String) (cursor : ℕ) (rs : List StoredBridgeRecord)
    → All (λ r. cursor < r.sequence) (pending target cursor rs)
pending-later target cursor [] = tt
pending-later target cursor (r ∷ rs) = ground (arith, pending-later target cursor rs)

pending-rest :
    (target : String) (cursor n : ℕ) (rs : List StoredBridgeRecord)
    → IsAscending rs
    → pending target (last_sequence cursor (take n (pending target cursor rs))) rs
      ≡ drop n (pending target cursor rs)
pending-rest target cursor n rs a =
    let p = pending target cursor rs in
    let later = pending-later target cursor rs in
    let up = IsAscending-keep (is_listed target cursor) rs a in
    let page_later = All-take (λ r. cursor < r.sequence) n p later in
    pending-pending target cursor (last_sequence cursor (take n p)) rs
      (last_sequence-ge cursor (take n p) page_later (IsAscending-take n p up))
    ∙ keep-rest cursor n p later up

-- A reader at the instant `now` asks for `count` pages, each with the cursor that the one before left.
pub read_pages : ℕ → String → ℕ → ℕ → ℕ → StoreState → List StoredBridgeRecord
read_pages zero target cursor limit now s = []
read_pages (suc count) target cursor limit now s =
    let page = (list_after target cursor limit now s).0 in
    page ++ read_pages count target (last_sequence cursor page) limit now s

read_pages-pending :
    (count : ℕ) (target : String) (cursor limit now : ℕ) (s : StoreState)
    → 0 < limit
    → IsAscending (evict_expired now s.records)
    → length (pending target cursor (evict_expired now s.records)) ≤ count
    → read_pages count target cursor limit now s
      ≡ pending target cursor (evict_expired now s.records)
unfolding read_pages
read_pages-pending zero target cursor limit now s some_room a few =
    sym (empty (pending target cursor (evict_expired now s.records)) few)
  where
    empty : (rs : List StoredBridgeRecord) → length rs ≤ 0 → rs ≡ []
    empty [] h = refl
    empty (r ∷ rs) h = absurd (omega (arith, h))
read_pages-pending (suc count) target cursor limit now s some_room a few =
    let rs = evict_expired now s.records in
    let p = pending target cursor rs in
    let next = last_sequence cursor (take limit p) in
    let rest = pending-rest target cursor limit rs a in
    let fewer : length (pending target next rs) ≤ count =
      subst (λ q. length q ≤ count) (sym rest)
        (omega (arith, few, some_room, length-drop limit p)) in
    let later = read_pages-pending count target next limit now s some_room a fewer in
    rw (list_after-pending target cursor limit now s some_room)
      (ap (λ q. take limit p ++ q) (later ∙ rest) ∙ take-append-drop limit p)

-- From a well-formed store, a reader that follows the cursors sees each current record of its target
-- after its first cursor exactly once, in the order of the sequence numbers, once it has asked for at
-- least as many pages as there are such records.
pub read_pages_complete :
    (o : StoreOptions) (count : ℕ) (target : String) (cursor limit now : ℕ) (s : StoreState)
    → IsValid o s
    → 0 < limit
    → length (pending target cursor (evict_expired now s.records)) ≤ count
    → (read_pages count target cursor limit now s
        ≡ pending target cursor (evict_expired now s.records))
      × IsAscending (read_pages count target cursor limit now s)
unfolding evict_expired
read_pages_complete o count target cursor limit now s v some_room few =
    let current = IsAscending-keep (is_current now) s.records v.ascending in
    let all = read_pages-pending count target cursor limit now s some_room current few in
    (all, subst IsAscending (sym all) (IsAscending-keep (is_listed target cursor) _ current))
