-- ===== src/Projections/Udr/Tests.antt =====
-- Runs of packages/udr-projection, and the theorems at them.
use local_first_p2p_app.Common.{◌≡◌, refl, String, false, [], ◌∷◌, contains, if◌then◌else◌}
use local_first_p2p_app.Common.Json.{get_field, object, field, end, str}
use local_first_p2p_app.Common.Text.{text_lt, units_lt, units, text_length}
use local_first_p2p_app.Common.Result.{ok, err}
use local_first_p2p_app.Projections.Replay.{run}
use local_first_p2p_app.Projections.Udr.{
  UdrState, UdrEventKind, create_empty_udr_state, empty_udr_state, invalid_payload, space_joined,
  space_left, is_id, require_id, apply_kind, apply_new, apply_udr_event, serialize_udr_state,
  deserialize_udr_state, all_ids,
}
use local_first_p2p_app.Projections.Udr.Members.{
  UdrEvent, udr_projection, counted, decided, members, spaces, run-decided,
}
use local_first_p2p_app.Projections.Udr.Snapshots.{SameContent, run-restores}

abbrev event : UdrEventKind → String → String → UdrEvent
event kind name id = record {
  payload = object (field name (str id) end);
  meta = record { kind = kind; event_id = "e"; created_at = "2026-01-01" };
  named = refl;
  dated = refl;
}

abbrev joined : UdrEvent
joined = event space_joined "spaceId" "garden"

abbrev left : UdrEvent
left = record {
  payload = object (field "spaceId" (str "attic") end);
  meta = record { kind = space_left; event_id = "f"; created_at = "2025-12-31" };
  named = refl;
  dated = refl;
}

abbrev after : UdrState
after = record (empty_udr_state "ada") {
  space_ids = "garden" ∷ [];
  updated_at = "2026-01-01";
  applied_event_ids = "e" ∷ "f" ∷ [];
}

run-joined : run udr_projection (joined ∷ left ∷ joined ∷ []) (empty_udr_state "ada") ≡ after
unfolding run apply_udr_event apply_new apply_kind require_id is_id get_field text_lt units_lt units
    text_length
run-joined = refl

run-decided_example :
    contains
      (members spaces (run udr_projection (joined ∷ left ∷ joined ∷ []) (empty_udr_state "ada")))
      "garden"
    ≡ decided spaces "garden" (counted [] (joined ∷ left ∷ joined ∷ [])) false
run-decided_example =
    run-decided spaces "garden" [] (joined ∷ left ∷ joined ∷ []) (empty_udr_state "ada") (λ k. refl)

started : create_empty_udr_state "ada" ≡ ok (empty_udr_state "ada")
unfolding create_empty_udr_state
started = refl

run-restores_example :
    (t : UdrState) × SameContent after t
    × (deserialize_udr_state (serialize_udr_state after)
        ≡ (if all_ids after.applied_event_ids then ok t else err invalid_payload))
run-restores_example =
    run-restores "ada" (joined ∷ left ∷ joined ∷ []) (empty_udr_state "ada") after started
      run-joined
