-- ===== src/Projections/Udr/Snapshots.antt =====
-- What packages/udr-projection stores of a state, and reads back.
use local_first_p2p_app.Common.{
  ◌≡◌, refl, sym, ap, subst, ◌∙◌, String, Bool, true, false, ◌||◌, ◌&&◌, Option, none, some, List,
  [], ◌∷◌, ◌++◌, arith, if◌then◌else◌, contains, str_eq, eq_iff, inl, inr, Bool-cases,
  contains-append, keep, differs, IsDistinct, IsDistinct-keep, IsDistinct-append_last, append_assoc,
  append-nil,
}
use local_first_p2p_app.Common.Json.{JsonFields, get_field, as_text, as_object}
use local_first_p2p_app.Common.Result.{ok, err, from_option, >>=-eq-ok}
use local_first_p2p_app.Projections.Replay.{kept, kept_lem, run}
use local_first_p2p_app.Projections.Udr.{
  UdrState, UdrEventKind, is_empty, is_id, checked_id, apply_id, apply_udr_event, invalid_payload,
  partition_claimed, partition_released, feed_subscription_added, feed_subscription_removed,
  sync_interest_added, sync_interest_removed, mailbox_bound, space_joined, space_left, require_id,
  id_field, with_added, with_removed, insert_text, sorted, serialize_udr_state, set_of, all_ids,
  read_ids, is_mailbox, deserialize_udr_state, empty_udr_state, create_empty_udr_state,
}
use local_first_p2p_app.Projections.Udr.Members.{
  UdrEvent, udr_projection, seen_lem, fresh_lem, mentioned, UdrSet, members, partitions, feeds,
  interests, spaces,
}

contains-insert_text :
    (x : String) (ys : List String) (k : String)
    → contains (insert_text x ys) k ≡ (str_eq x k || contains ys k)
unfolding insert_text
contains-insert_text x [] k = refl
contains-insert_text x (y ∷ ys) k = ground (arith, contains-insert_text x ys k)

contains-sorted : (xs : List String) (k : String) → contains (sorted xs) k ≡ contains xs k
unfolding sorted
contains-sorted [] k = refl
contains-sorted (x ∷ xs) k = rw (contains-insert_text x (sorted xs) k, contains-sorted xs k) refl

IsDistinct-insert_text :
    (x : String) (ys : List String)
    → contains ys x ≡ false
    → IsDistinct ys
    → IsDistinct (insert_text x ys)
unfolding insert_text
IsDistinct-insert_text x [] new d = ground arith
IsDistinct-insert_text x (y ∷ ys) new d =
    ground (arith, IsDistinct-insert_text x ys, contains-insert_text x ys y, eq_iff x y, eq_iff y x)

IsDistinct-sorted : (xs : List String) → IsDistinct xs → IsDistinct (sorted xs)
unfolding sorted
IsDistinct-sorted [] d = tt
IsDistinct-sorted (x ∷ xs) (new, d) =
    IsDistinct-insert_text x (sorted xs) (contains-sorted xs x ∙ new) (IsDistinct-sorted xs d)

all_ids-insert_text :
    (x : String) (ys : List String) → all_ids (insert_text x ys) ≡ (is_id x && all_ids ys)
unfolding insert_text all_ids
all_ids-insert_text x [] = refl
all_ids-insert_text x (y ∷ ys) = ground (arith, all_ids-insert_text x ys)

all_ids-sorted : (xs : List String) → all_ids (sorted xs) ≡ all_ids xs
unfolding sorted all_ids
all_ids-sorted [] = refl
all_ids-sorted (x ∷ xs) =
    all_ids-insert_text x (sorted xs) ∙ ap (λ b. is_id x && b) (all_ids-sorted xs)

-- Ids that are all new to a set are added to it in their order.
set_of-append :
    (set xs : List String)
    → IsDistinct xs
    → ((k : String) → contains xs k ≡ true → contains set k ≡ false)
    → set_of set xs ≡ set ++ xs
unfolding set_of
set_of-append set [] d new = sym (append-nil set)
set_of-append set (x ∷ xs) (once, d) new = rw (new x (ground (arith, eq_iff x x))) (
    set_of-append (set ++ x ∷ []) xs d
      (λ k h. ground (arith, h, once, new k, contains-append set (x ∷ []) k, eq_iff x k))
    ∙ append_assoc set (x ∷ []) xs)

read_ids-sorted :
    (xs : List String)
    → IsDistinct xs
    → read_ids (sorted xs) ≡ (if all_ids xs then ok (sorted xs) else err invalid_payload)
unfolding read_ids
read_ids-sorted xs d =
    rw (all_ids-sorted xs, set_of-append [] (sorted xs) (IsDistinct-sorted xs d) (λ k h. refl)) refl

-- The stored sets repeat nothing, and hold ids that the reader takes.
abbrev pub IsIds : List String → Type 0
IsIds xs = IsDistinct xs × (all_ids xs ≡ true)

abbrev Sound : String → UdrState → Type 0
Sound identity s =
    (s.identity_id ≡ identity)
    × IsIds s.partition_ids
    × IsIds s.feed_subscription_ids
    × IsIds s.sync_interest_ids
    × IsIds s.space_ids
    × (is_mailbox s.mailbox_id ≡ true)
    × IsDistinct s.applied_event_ids

all_ids-append : (xs ys : List String) → all_ids (xs ++ ys) ≡ (all_ids xs && all_ids ys)
unfolding all_ids
all_ids-append [] ys = refl
all_ids-append (x ∷ xs) ys = ground (arith, all_ids-append xs ys)

all_ids-keep :
    (p : String → Bool) (xs : List String) → all_ids xs ≡ true → all_ids (keep p xs) ≡ true
unfolding all_ids
all_ids-keep p [] h = refl
all_ids-keep p (x ∷ xs) h = ground (arith, h, all_ids-keep p xs)

with_added-IsIds :
    (xs : List String) (id : String) → is_id id ≡ true → IsIds xs → IsIds (with_added xs id)
unfolding all_ids
with_added-IsIds xs id good (d, h) = elim (Bool-cases (contains xs id)) [
  | inl there ↦ rw there (d, h)
  | inr new ↦
      rw new
        (IsDistinct-append_last xs id d new, ground (arith, all_ids-append xs (id ∷ []), h, good))
]

with_removed-IsIds : (xs : List String) (id : String) → IsIds xs → IsIds (with_removed xs id)
with_removed-IsIds xs id (d, h) = elim (Bool-cases (contains xs id)) [
  | inl there ↦ rw there (IsDistinct-keep id xs d, all_ids-keep (differs id) xs h)
  | inr new ↦ rw new (d, h)
]

checked_id-is_id : (o : Option String) (id : String) → checked_id o ≡ some id → is_id id ≡ true
checked_id-is_id none id h = cc h
checked_id-is_id (some s) id h = ground (arith, h)

require_id-is_id :
    (fields : JsonFields) (name id : String) → require_id fields name ≡ ok id → is_id id ≡ true
unfolding require_id
require_id-is_id fields name id h =
    checked_id-is_id (checked_id (as_text (get_field name fields))) id (ground (arith, h))

mentioned-is_id : (e : UdrEvent) (id : String) → mentioned e ≡ ok id → is_id id ≡ true
unfolding mentioned
mentioned-is_id e id h =
    let (fields, _, found) = >>=-eq-ok (from_option (as_object e.payload) invalid_payload) _ h in
    require_id-is_id fields (id_field e.meta.kind) id found

module _ (identity : String) where
  applied-IsDistinct : (s : UdrState) → Sound identity s → IsDistinct s.applied_event_ids
  applied-IsDistinct s (_, _, _, _, _, _, a) = a

  apply_id-Sound :
      (kind : UdrEventKind) (s : UdrState) (id : String)
      → is_id id ≡ true
      → Sound identity s
      → Sound identity (apply_id kind s id)
  apply_id-Sound partition_claimed s id g (i, p, f, y, q, m, a) =
      (i, with_added-IsIds s.partition_ids id g p, f, y, q, m, a)
  apply_id-Sound partition_released s id g (i, p, f, y, q, m, a) =
      (i, with_removed-IsIds s.partition_ids id p, f, y, q, m, a)
  apply_id-Sound feed_subscription_added s id g (i, p, f, y, q, m, a) =
      (i, p, with_added-IsIds s.feed_subscription_ids id g f, y, q, m, a)
  apply_id-Sound feed_subscription_removed s id g (i, p, f, y, q, m, a) =
      (i, p, with_removed-IsIds s.feed_subscription_ids id f, y, q, m, a)
  apply_id-Sound sync_interest_added s id g (i, p, f, y, q, m, a) =
      (i, p, f, with_added-IsIds s.sync_interest_ids id g y, q, m, a)
  apply_id-Sound sync_interest_removed s id g (i, p, f, y, q, m, a) =
      (i, p, f, with_removed-IsIds s.sync_interest_ids id y, q, m, a)
  apply_id-Sound mailbox_bound s id g (i, p, f, y, q, m, a) = (i, p, f, y, q, g, a)
  apply_id-Sound space_joined s id g (i, p, f, y, q, m, a) =
      (i, p, f, y, with_added-IsIds s.space_ids id g q, m, a)
  apply_id-Sound space_left s id g (i, p, f, y, q, m, a) =
      (i, p, f, y, with_removed-IsIds s.space_ids id q, m, a)

  event-Sound :
      (s : UdrState) (e : UdrEvent) (s' : UdrState)
      → apply_udr_event s e.payload e.meta ≡ ok s'
      → Sound identity s
      → Sound identity s'
  event-Sound s e s' h k = elim (Bool-cases (contains s.applied_event_ids e.meta.event_id)) [
    | inl old ↦ let same : s ≡ s' = cc (h, seen_lem s e old) in subst (Sound identity) same k
    | inr new ↦
        let (id, says, made) = fresh_lem s e s' new h in
        let (i, p, f, y, q, m, _) = apply_id-Sound e.meta.kind s id (mentioned-is_id e id says) k in
        subst (Sound identity) (sym made) (
          i,
          p,
          f,
          y,
          q,
          m,
          IsDistinct-append_last s.applied_event_ids e.meta.event_id (applied-IsDistinct s k) new,
        )
  ]

  run-Sound :
      (es : List UdrEvent) (s : UdrState)
      → Sound identity s
      → Sound identity (run udr_projection es s)
  unfolding run
  run-Sound [] s k = k
  run-Sound (e ∷ es) s k =
      let made = apply_udr_event s e.payload e.meta in
      run-Sound es (kept s made) (kept_lem (Sound identity) s made k (λ t h. event-Sound s e t h k))

Sound-empty : (identity : String) → Sound identity (empty_udr_state identity)
unfolding all_ids
Sound-empty identity = ground arith

read_ids-IsIds : (xs : List String) → IsIds xs → read_ids (sorted xs) ≡ ok (sorted xs)
read_ids-IsIds xs (d, h) = read_ids-sorted xs d ∙ rw h refl

members-serialize :
    (set : UdrSet) (s : UdrState) (id : String)
    → contains (members set (serialize_udr_state s)) id ≡ contains (members set s) id
unfolding serialize_udr_state
members-serialize partitions s id = contains-sorted s.partition_ids id
members-serialize feeds s id = contains-sorted s.feed_subscription_ids id
members-serialize interests s id = contains-sorted s.sync_interest_ids id
members-serialize spaces s id = contains-sorted s.space_ids id

deserialize-serialize :
    (s : UdrState)
    → is_empty s.identity_id ≡ false
    → Sound s.identity_id s
    → deserialize_udr_state (serialize_udr_state s)
      ≡ (if all_ids s.applied_event_ids then ok (serialize_udr_state s) else err invalid_payload)
unfolding serialize_udr_state deserialize_udr_state
deserialize-serialize s named (_, p, f, y, q, m, a) =
    rw
      (
        named,
        m,
        read_ids-IsIds s.partition_ids p,
        read_ids-IsIds s.feed_subscription_ids f,
        read_ids-IsIds s.sync_interest_ids y,
        read_ids-IsIds s.space_ids q,
        read_ids-sorted s.applied_event_ids a,
      )
      (elim (Bool-cases (all_ids s.applied_event_ids)) [
        | inl good ↦ rw good refl
        | inr bad ↦ rw bad refl
      ])

create_empty_lem :
    (identity : String) (s : UdrState)
    → create_empty_udr_state identity ≡ ok s
    → (is_empty identity ≡ false) × Sound identity s
unfolding create_empty_udr_state
create_empty_lem identity s h = elim (Bool-cases (is_empty identity)) [
  | inl empty ↦ ground (arith, h, empty)
  | inr named ↦
      let same : s ≡ empty_udr_state identity = ground (arith, h, named) in
      (named, subst (Sound identity) (sym same) (Sound-empty identity))
]

-- A state that says the same as another: the same identity, mailbox and time of update, and sets with
-- the same elements, those of the applied events included.
pub record SameContent (s t : UdrState) : Type 0 where
  pub identity : t.identity_id ≡ s.identity_id
  pub mailbox : t.mailbox_id ≡ s.mailbox_id
  pub updated : t.updated_at ≡ s.updated_at
  pub ids : (set : UdrSet) (id : String) → contains (members set t) id ≡ contains (members set s) id
  pub applied : (id : String) → contains t.applied_event_ids id ≡ contains s.applied_event_ids id

serialize-SameContent : (s : UdrState) → SameContent s (serialize_udr_state s)
unfolding serialize_udr_state
serialize-SameContent s = record {
  identity = refl;
  mailbox = refl;
  updated = refl;
  ids = λ set id. members-serialize set s id;
  applied = λ id. contains-sorted s.applied_event_ids id;
}

-- What a log makes of the state that an identity starts with, where events that the projection throws
-- on are skipped, can be stored and read back: the reader makes of the snapshot a state with the same
-- identity, mailbox and time of update and the same elements in each set, if each applied event's id
-- is one that it takes, of 1 to 512 UTF-16 units. Otherwise it refuses the snapshot, its own.
pub run-restores :
    (identity : String) (es : List UdrEvent) (first s : UdrState)
    → create_empty_udr_state identity ≡ ok first
    → run udr_projection es first ≡ s
    → (t : UdrState) × SameContent s t
      × (deserialize_udr_state (serialize_udr_state s)
          ≡ (if all_ids s.applied_event_ids then ok t else err invalid_payload))
run-restores identity es first s start h =
    let (named, sound) = create_empty_lem identity first start in
    let k = subst (Sound identity) h (run-Sound identity es first sound) in
    (
      serialize_udr_state s,
      serialize-SameContent s,
      deserialize-serialize s (rw (k.0) named) (subst (λ i. Sound i s) (sym (k.0)) k),
    )
