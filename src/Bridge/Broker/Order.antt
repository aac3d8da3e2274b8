-- ===== src/Bridge/Broker/Order.antt =====
-- Ascending sequence numbers, and the sorted drain of stream-broker.ts.
use local_first_p2p_app.Common.{
  ℕ, ◌≤◌, ◌<◌, ◌≡◌, refl, sym, ap, ◌∙◌, Bool, true, false, List, [], ◌∷◌, ◌++◌, arith, All,
  All-keep, if◌then◌else◌, leb, ltb, keep, append-nil, append_assoc,
}
use local_first_p2p_app.Bridge.Broker.{
  BridgeStreamRecord, Subscription, deliver_all, deliver_safely, insert_sorted, sort_by_sequence,
}

abbrev pub IsAscending : List BridgeStreamRecord → Type 0
IsAscending [] = Unit
IsAscending (r ∷ rs) = All (λ q. r.sequence < q.sequence) rs × IsAscending rs

abbrev pub upto : ℕ → List BridgeStreamRecord → List BridgeStreamRecord
upto after rs = keep (λ r. leb r.sequence after) rs

abbrev pub beyond : ℕ → List BridgeStreamRecord → List BridgeStreamRecord
beyond after rs = keep (λ r. ltb after r.sequence) rs

-- In an ascending list the records up to a number come first, and the rest after it.
pub upto-beyond :
    (after : ℕ) (rs : List BridgeStreamRecord)
    → IsAscending rs
    → upto after rs ++ beyond after rs ≡ rs
upto-beyond after [] a = refl
upto-beyond after (r ∷ rs) (first, a) =
    ground (arith, upto-beyond after rs a, none-upto after r rs first)
  where
    none-upto :
        (n : ℕ) (q : BridgeStreamRecord) (qs : List BridgeStreamRecord)
        → All (λ x. q.sequence < x.sequence) qs
        → n < q.sequence
        → upto n qs ≡ []
    none-upto n q [] h lt = refl
    none-upto n q (x ∷ qs) (h, hs) lt = ground (arith, h, lt, none-upto n q qs hs)

pub sort_by_sequence-ascending :
    (rs : List BridgeStreamRecord) → IsAscending rs → sort_by_sequence rs ≡ rs
unfolding sort_by_sequence insert_sorted
sort_by_sequence-ascending [] a = refl
sort_by_sequence-ascending (r ∷ []) a = refl
sort_by_sequence-ascending (r ∷ q ∷ rs) (first, a) =
    ground (arith, first, sort_by_sequence-ascending (q ∷ rs) a)

pub deliver_all-appends :
    (rs : List BridgeStreamRecord) (s : Subscription)
    → deliver_all rs s ≡ record s { delivered = s.delivered ++ rs }
unfolding deliver_all deliver_safely
deliver_all-appends [] s = ap (λ ds. record s { delivered = ds }) (sym (append-nil s.delivered))
deliver_all-appends (r ∷ rs) s =
    deliver_all-appends rs (deliver_safely r s)
    ∙ ap (λ ds. record s { delivered = ds }) (append_assoc s.delivered (r ∷ []) rs)

pub IsAscending-keep :
    (p : BridgeStreamRecord → Bool) (rs : List BridgeStreamRecord)
    → IsAscending rs
    → IsAscending (keep p rs)
IsAscending-keep p [] a = a
IsAscending-keep p (r ∷ rs) (first, a) =
    elim (p r) as (λ b. IsAscending (if b then r ∷ keep p rs else keep p rs)) [
      | true ↦ (All-keep (λ q. r.sequence < q.sequence) p rs first, IsAscending-keep p rs a)
      | false ↦ IsAscending-keep p rs a
    ]

pub beyond-old :
    (after : ℕ) (early rs : List BridgeStreamRecord)
    → All (λ r. r.sequence ≤ after) early
    → beyond after (early ++ rs) ≡ beyond after rs
beyond-old after [] rs h = refl
beyond-old after (r ∷ early) rs (first, h) = ground (arith, first, beyond-old after early rs h)
