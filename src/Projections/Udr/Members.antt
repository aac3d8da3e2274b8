-- ===== src/Projections/Udr/Members.antt =====
-- Who is a member of the sets of packages/udr-projection after a log of events.
use local_first_p2p_app.Common.{
  ◌≡◌, refl, sym, ap, ◌∙◌, String, Bool, true, false, not, ◌||◌, Option, none, some, List, [], ◌∷◌,
  ◌++◌, arith, if◌then◌else◌, contains, str_eq, eq_iff, inl, inr, Bool-cases, contains-append,
  contains-keep-differs,
}
use local_first_p2p_app.Common.Json.{JsonValue, JsonFields, as_object}
use local_first_p2p_app.Common.Text.{text_lt}
use local_first_p2p_app.Common.Result.{ok, err, ◌>>=◌, require, from_option, >>=-eq-ok}
use local_first_p2p_app.Projections.Replay.{Projection, kept, kept_lem, run}
use local_first_p2p_app.Projections.Udr.{
  UdrErrorCode, UdrState, UdrEventKind, ApplyUdrEventMeta, is_empty, apply_kind, apply_new,
  apply_id, apply_udr_event, invalid_payload, partition_claimed, partition_released,
  feed_subscription_added, feed_subscription_removed, sync_interest_added, sync_interest_removed,
  space_joined, space_left, require_id, id_field, with_added, with_removed, Udr,
}

-- An event with an id and a time.
pub record UdrEvent : Type 0 where
  pub payload : JsonValue
  pub meta : ApplyUdrEventMeta
  pub named : is_empty meta.event_id ≡ false
  pub dated : is_empty meta.created_at ≡ false

-- The id that an event's payload carries.
unfoldable pub mentioned : UdrEvent → Udr String
mentioned e = do
  fields ← from_option (as_object e.payload) invalid_payload
  require_id fields (id_field e.meta.kind)

pub seen_lem :
    (s : UdrState) (e : UdrEvent)
    → contains s.applied_event_ids e.meta.event_id ≡ true
    → apply_udr_event s e.payload e.meta ≡ ok s
unfolding apply_udr_event
seen_lem s e h = rw (e.named, e.dated, h) refl

abbrev pub folded : UdrState → UdrEvent → String → UdrState
folded s e id = record (apply_id e.meta.kind s id) {
  updated_at = if text_lt s.updated_at e.meta.created_at then e.meta.created_at else s.updated_at;
  applied_event_ids = s.applied_event_ids ++ e.meta.event_id ∷ [];
}

mentioned_lem :
    (e : UdrEvent) (fields : JsonFields) (id : String)
    → ◌≡◌ {A = Udr JsonFields} (from_option (as_object e.payload) invalid_payload) (ok fields)
    → require_id fields (id_field e.meta.kind) ≡ ok id
    → mentioned e ≡ ok id
unfolding mentioned
mentioned_lem e fields id there found = rw there found

-- An event that is folded in carries an id, and the state that it makes is that of the id.
pub fresh_lem :
    (s : UdrState) (e : UdrEvent) (s' : UdrState)
    → contains s.applied_event_ids e.meta.event_id ≡ false
    → apply_udr_event s e.payload e.meta ≡ ok s'
    → (id : String) × (mentioned e ≡ ok id) × (s' ≡ folded s e id)
unfolding apply_udr_event apply_new apply_kind mentioned
fresh_lem s e s' new h =
    let (_, _, h1) = >>=-eq-ok (require (not (is_empty e.meta.event_id)) invalid_payload) _ h in
    let (_, _, h2) = >>=-eq-ok (require (not (is_empty e.meta.created_at)) invalid_payload) _ h1 in
    let h3 = rw new at h2 in
    let (fields, there, h4) = >>=-eq-ok (from_option (as_object e.payload) invalid_payload) _ h3 in
    let (base, done, h5) = >>=-eq-ok (apply_kind s e.meta.kind fields) _ h4 in
    let (id, found, made) = >>=-eq-ok (require_id fields (id_field e.meta.kind)) _ done in
    (id, mentioned_lem e fields id there found, cc (h5, made))

pub remembers_lem :
    (s : UdrState) (e : UdrEvent) (s' : UdrState)
    → apply_udr_event s e.payload e.meta ≡ ok s'
    → (k : String)
    → contains s'.applied_event_ids k ≡ (contains s.applied_event_ids k || str_eq e.meta.event_id k)
remembers_lem s e s' h k = elim (Bool-cases (contains s.applied_event_ids e.meta.event_id)) [
  | inl old ↦
      let same : s' ≡ s = cc (h, seen_lem s e old) in
      rw same (ground (arith, old, eq_iff e.meta.event_id k))
  | inr new ↦
      let (_, _, made) = fresh_lem s e s' new h in
      let ids : s'.applied_event_ids ≡ s.applied_event_ids ++ e.meta.event_id ∷ [] =
        ap (λ x. x.applied_event_ids) made in
      rw ids (ground (arith, contains-append s.applied_event_ids (e.meta.event_id ∷ []) k))
]

abbrev pub udr_projection : Projection
udr_projection = record {
  State = UdrState;
  Event = UdrEvent;
  Error = UdrErrorCode;
  apply = λ s e. apply_udr_event s e.payload e.meta;
}

-- The four sets, and what an event of each kind says of a member.
pub data UdrSet : Type 0 where
  partitions feeds interests spaces : UdrSet

abbrev pub members : UdrSet → UdrState → List String
members partitions s = s.partition_ids
members feeds s = s.feed_subscription_ids
members interests s = s.sync_interest_ids
members spaces s = s.space_ids

abbrev pub verdict : UdrSet → UdrEventKind → Option Bool
verdict partitions partition_claimed = some true
verdict partitions partition_released = some false
verdict partitions _ = none
verdict feeds feed_subscription_added = some true
verdict feeds feed_subscription_removed = some false
verdict feeds _ = none
verdict interests sync_interest_added = some true
verdict interests sync_interest_removed = some false
verdict interests _ = none
verdict spaces space_joined = some true
verdict spaces space_left = some false
verdict spaces _ = none

-- Whether `id` is a member after an event that mentions `m`, if it was one before as told.
abbrev pub after_verdict : Option Bool → Bool → Bool → Bool
after_verdict none hit before = before
after_verdict (some joins) hit before = if hit then joins else before

abbrev pub after_event : UdrSet → String → UdrEvent → Udr String → Bool → Bool
after_event set id e (err x) before = before
after_event set id e (ok m) before = after_verdict (verdict set e.meta.kind) (str_eq m id) before

-- The last event about a member decides.
unfoldable pub decided : UdrSet → String → List UdrEvent → Bool → Bool
decided set id [] before = before
decided set id (e ∷ es) before = decided set id es (after_event set id e (mentioned e) before)

added_lem :
    (xs : List String) (m id : String)
    → contains (with_added xs m) id ≡ (if str_eq m id then true else contains xs id)
added_lem xs m id = ground (arith, contains-append xs (m ∷ []) id, eq_iff m id)

removed_lem :
    (xs : List String) (m id : String)
    → contains (with_removed xs m) id ≡ (if str_eq m id then false else contains xs id)
removed_lem xs m id = ground (arith, contains-keep-differs m xs id, eq_iff m id, eq_iff id m)

apply_id-members :
    (set : UdrSet) (kind : UdrEventKind) (s : UdrState) (m id : String)
    → contains (members set (apply_id kind s m)) id
      ≡ after_verdict (verdict set kind) (str_eq m id) (contains (members set s) id)
apply_id-members partitions partition_claimed s m id = added_lem s.partition_ids m id
apply_id-members partitions partition_released s m id = removed_lem s.partition_ids m id
apply_id-members partitions _ s m id = refl
apply_id-members feeds feed_subscription_added s m id = added_lem s.feed_subscription_ids m id
apply_id-members feeds feed_subscription_removed s m id = removed_lem s.feed_subscription_ids m id
apply_id-members feeds _ s m id = refl
apply_id-members interests sync_interest_added s m id = added_lem s.sync_interest_ids m id
apply_id-members interests sync_interest_removed s m id = removed_lem s.sync_interest_ids m id
apply_id-members interests _ s m id = refl
apply_id-members spaces space_joined s m id = added_lem s.space_ids m id
apply_id-members spaces space_left s m id = removed_lem s.space_ids m id
apply_id-members spaces _ s m id = refl

members-folded :
    (set : UdrSet) (s s' : UdrState) (e : UdrEvent) (m id : String)
    → s' ≡ folded s e m
    → contains (members set s') id
      ≡ after_verdict (verdict set e.meta.kind) (str_eq m id) (contains (members set s) id)
members-folded partitions s s' e m id made =
    ap (λ x. contains x.partition_ids id) made ∙ apply_id-members partitions e.meta.kind s m id
members-folded feeds s s' e m id made =
    ap (λ x. contains x.feed_subscription_ids id) made ∙ apply_id-members feeds e.meta.kind s m id
members-folded interests s s' e m id made =
    ap (λ x. contains x.sync_interest_ids id) made ∙ apply_id-members interests e.meta.kind s m id
members-folded spaces s s' e m id made =
    ap (λ x. contains x.space_ids id) made ∙ apply_id-members spaces e.meta.kind s m id

decided_lem :
    (set : UdrSet) (id m : String) (e : UdrEvent) (es : List UdrEvent) (before : Bool)
    → mentioned e ≡ ok m
    → decided set id (e ∷ es) before
      ≡ decided set id es (after_verdict (verdict set e.meta.kind) (str_eq m id) before)
unfolding decided
decided_lem set id m e es before says = rw says refl

abbrev pub carries_id : Udr String → Bool
carries_id (ok m) = true
carries_id (err x) = false

-- The events that count: those that carry an id, without those whose event id stands in the list or
-- is that of an earlier one that counts.
unfoldable pub counted : List String → List UdrEvent → List UdrEvent
counted seen [] = []
counted seen (e ∷ es) =
    let rest = counted seen es in
    let more = e ∷ counted (e.meta.event_id ∷ seen) es in
    if contains seen e.meta.event_id then rest else if carries_id (mentioned e) then more else rest

taken_lem :
    (s : UdrState) (e : UdrEvent) (m : String)
    → contains s.applied_event_ids e.meta.event_id ≡ false
    → mentioned e ≡ ok m
    → apply_udr_event s e.payload e.meta ≡ ok (folded s e m)
unfolding apply_udr_event apply_new apply_kind mentioned
taken_lem s e m new says =
    let (fields, there, found) =
      >>=-eq-ok (from_option (as_object e.payload) invalid_payload) _ says in
    rw (e.named, e.dated, new, there, found) refl

refused_lem :
    (s : UdrState) (e : UdrEvent) (x : UdrErrorCode)
    → contains s.applied_event_ids e.meta.event_id ≡ false
    → mentioned e ≡ err x
    → kept s (apply_udr_event s e.payload e.meta) ≡ s
refused_lem s e x new says =
    kept_lem (λ t. t ≡ s) s (apply_udr_event s e.payload e.meta) refl
      (λ t h. let (m, about, _) = fresh_lem s e t new h in absurd (cc (says, about)))

module _ (set : UdrSet) (id : String) where
  -- What `run-decided` says of a log, a state and the ids of the events that were folded into it.
  abbrev IsDecided : List String → List UdrEvent → UdrState → Type 0
  IsDecided seen es s =
      contains (members set (run udr_projection es s)) id
      ≡ decided set id (counted seen es) (contains (members set s) id)

  new-IsDecided :
      (seen : List String) (e : UdrEvent) (es : List UdrEvent) (s : UdrState) (r : Udr String)
      → contains seen e.meta.event_id ≡ false
      → contains s.applied_event_ids e.meta.event_id ≡ false
      → mentioned e ≡ r
      → IsDecided seen es s
      → ((t : UdrState)
          → apply_udr_event s e.payload e.meta ≡ ok t
          → IsDecided (e.meta.event_id ∷ seen) es t)
      → IsDecided seen (e ∷ es) s
  unfolding run counted
  new-IsDecided seen e es s (err x) new fresh says same rest =
      rw (new, says, refused_lem s e x fresh says) same
  new-IsDecided seen e es s (ok m) new fresh says same rest =
      let made = taken_lem s e m fresh says in
      let later = counted (e.meta.event_id ∷ seen) es in
      rw (new, made, ap carries_id says)
        (rest (folded s e m) made
          ∙ ap (decided set id later) (members-folded set s (folded s e m) e m id refl)
          ∙ sym (decided_lem set id m e later (contains (members set s) id) says))

  -- After a log, also where events are skipped because the projection throws on them, an id is a member
  -- of one of the four sets exactly if the last event of that set about it adds it, or if it was a
  -- member before and no event is about it. Only events whose payload carries an id count, and of
  -- those with one event id only the first, and none whose event id was folded in before.
  pub run-decided :
      (seen : List String) (es : List UdrEvent) (s : UdrState)
      → ((k : String) → contains s.applied_event_ids k ≡ contains seen k)
      → contains (members set (run udr_projection es s)) id
        ≡ decided set id (counted seen es) (contains (members set s) id)
  unfolding run counted decided
  run-decided seen [] s same = refl
  run-decided seen (e ∷ es) s same = elim (Bool-cases (contains seen e.meta.event_id)) [
    | inl old ↦ rw (seen_lem s e (same e.meta.event_id ∙ old), old) (run-decided seen es s same)
    | inr new ↦
        new-IsDecided seen e es s (mentioned e) new (same e.meta.event_id ∙ new) refl
          (run-decided seen es s same)
          (λ t h.
            run-decided (e.meta.event_id ∷ seen) es t
              (λ k. remembers_lem s e t h k ∙ ground (arith, same k)))
  ]
