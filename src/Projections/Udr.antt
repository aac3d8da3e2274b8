-- ===== src/Projections/Udr.antt =====
-- packages/udr-projection/src/index.ts: what one identity owns and subscribes to, from its decrypted
-- `udr.*` events, and the snapshot that is stored. A Set is a list without repetition; a thrown
-- UdrProjectionError, here always UDR_INVALID_PAYLOAD, is an `err`.
pub mod Members
pub mod Snapshots
mod Tests
use local_first_p2p_app.Common.{
  ℕ, String, Bool, true, false, not, ◌&&◌, ◌||◌, Option, none, some, List, [], ◌∷◌, ◌++◌, ltb, ◌==◌,
  if◌then◌else◌, contains, str_eq, keep, differs,
}
use local_first_p2p_app.Common.Json.{JsonValue, JsonFields, get_field, as_text, as_object}
use local_first_p2p_app.Common.Text.{text_length, text_lt}
use local_first_p2p_app.Common.Result.{Result, ok, err, ◌>>=◌, ◌>>◌, require, from_option}

pub data UdrErrorCode : Type 0 where
  invalid_payload : UdrErrorCode

pub data UdrEventKind : Type 0 where
  partition_claimed partition_released feed_subscription_added feed_subscription_removed :
      UdrEventKind
  sync_interest_added sync_interest_removed mailbox_bound space_joined space_left : UdrEventKind

pub record UdrState : Type 0 where
  pub identity_id : String
  pub partition_ids : List String
  pub feed_subscription_ids : List String
  pub sync_interest_ids : List String
  pub space_ids : List String
  pub mailbox_id : Option String
  pub updated_at : String
  pub applied_event_ids : List String

pub record ApplyUdrEventMeta : Type 0 where
  pub kind : UdrEventKind
  pub event_id : String
  pub created_at : String

abbrev pub empty_udr_state : String → UdrState
empty_udr_state identity_id = record {
  identity_id = identity_id;
  partition_ids = [];
  feed_subscription_ids = [];
  sync_interest_ids = [];
  space_ids = [];
  mailbox_id = none;
  updated_at = "";
  applied_event_ids = [];
}

abbrev pub Udr : Type 0 → Type 0
Udr A = Result UdrErrorCode A

abbrev pub max_id_length : ℕ
max_id_length = 512

abbrev pub is_empty : String → Bool
is_empty s = str_eq s ""

unfoldable pub create_empty_udr_state : String → Udr UdrState
create_empty_udr_state identity_id = do
  require (not (is_empty identity_id)) invalid_payload
  ok (empty_udr_state identity_id)

-- A string that is neither empty nor too long.
unfoldable pub is_id : String → Bool
is_id s = not (text_length s == 0) && not (ltb max_id_length (text_length s))

abbrev pub checked_id : Option String → Option String
checked_id none = none
checked_id (some s) = if is_id s then some s else none

unfoldable pub require_id : JsonFields → String → Udr String
require_id payload name =
    from_option (checked_id (as_text (get_field name payload))) invalid_payload

abbrev pub with_added : List String → String → List String
with_added set value = if contains set value then set else set ++ value ∷ []

abbrev pub with_removed : List String → String → List String
with_removed set value = if contains set value then keep (differs value) set else set

-- The payload field that each kind reads.
abbrev pub id_field : UdrEventKind → String
id_field partition_claimed = "partitionId"
id_field partition_released = "partitionId"
id_field feed_subscription_added = "feedId"
id_field feed_subscription_removed = "feedId"
id_field sync_interest_added = "syncInterestId"
id_field sync_interest_removed = "syncInterestId"
id_field mailbox_bound = "mailboxId"
id_field space_joined = "spaceId"
id_field space_left = "spaceId"

abbrev pub apply_id : UdrEventKind → UdrState → String → UdrState
apply_id partition_claimed s id = record s { partition_ids = with_added s.partition_ids id }
apply_id partition_released s id = record s { partition_ids = with_removed s.partition_ids id }
apply_id feed_subscription_added s id = record s {
  feed_subscription_ids = with_added s.feed_subscription_ids id;
}
apply_id feed_subscription_removed s id = record s {
  feed_subscription_ids = with_removed s.feed_subscription_ids id;
}
apply_id sync_interest_added s id = record s {
  sync_interest_ids = with_added s.sync_interest_ids id;
}
apply_id sync_interest_removed s id = record s {
  sync_interest_ids = with_removed s.sync_interest_ids id;
}
apply_id mailbox_bound s id = record s { mailbox_id = some id }
apply_id space_joined s id = record s { space_ids = with_added s.space_ids id }
apply_id space_left s id = record s { space_ids = with_removed s.space_ids id }

unfoldable pub apply_kind : UdrState → UdrEventKind → JsonFields → Udr UdrState
apply_kind s kind payload = do id ← require_id payload (id_field kind); ok (apply_id kind s id)

-- Once the id and the time are there: the guard on the id, and the fold.
unfoldable pub apply_new : UdrState → JsonValue → ApplyUdrEventMeta → Udr UdrState
apply_new s payload meta = do
  fields ← from_option (as_object payload) invalid_payload
  base ← apply_kind s meta.kind fields
  ok (record base {
    updated_at = if text_lt s.updated_at meta.created_at then meta.created_at else s.updated_at;
    applied_event_ids = s.applied_event_ids ++ meta.event_id ∷ [];
  })

unfoldable pub apply_udr_event : UdrState → JsonValue → ApplyUdrEventMeta → Udr UdrState
apply_udr_event s payload meta = do
  require (not (is_empty meta.event_id)) invalid_payload
  require (not (is_empty meta.created_at)) invalid_payload
  if contains s.applied_event_ids meta.event_id then ok s else apply_new s payload meta

-- `[...set].sort()`
unfoldable pub insert_text : String → List String → List String
insert_text x [] = x ∷ []
insert_text x (y ∷ ys) = let rest = insert_text x ys in if text_lt y x then y ∷ rest else x ∷ y ∷ ys

unfoldable pub sorted : List String → List String
sorted [] = []
sorted (x ∷ xs) = insert_text x (sorted xs)

-- `UdrStateSnapshot` has the fields of the state, its sets as arrays.
unfoldable pub serialize_udr_state : UdrState → UdrState
serialize_udr_state s = record s {
  partition_ids = sorted s.partition_ids;
  feed_subscription_ids = sorted s.feed_subscription_ids;
  sync_interest_ids = sorted s.sync_interest_ids;
  space_ids = sorted s.space_ids;
  applied_event_ids = sorted s.applied_event_ids;
}

-- `new Set(values)`
unfoldable pub set_of : List String → List String → List String
set_of set [] = set
set_of set (x ∷ xs) = set_of (with_added set x) xs

unfoldable pub all_ids : List String → Bool
all_ids [] = true
all_ids (x ∷ xs) = is_id x && all_ids xs

unfoldable pub read_ids : List String → Udr (List String)
read_ids values = if all_ids values then ok (set_of [] values) else err invalid_payload

abbrev pub is_mailbox : Option String → Bool
is_mailbox none = true
is_mailbox (some id) = is_id id

unfoldable pub deserialize_udr_state : UdrState → Udr UdrState
deserialize_udr_state snapshot = do
  require (not (is_empty snapshot.identity_id)) invalid_payload
  require (is_mailbox snapshot.mailbox_id) invalid_payload
  partition_ids ← read_ids snapshot.partition_ids
  feed_subscription_ids ← read_ids snapshot.feed_subscription_ids
  sync_interest_ids ← read_ids snapshot.sync_interest_ids
  space_ids ← read_ids snapshot.space_ids
  applied_event_ids ← read_ids snapshot.applied_event_ids
  ok (record snapshot {
    partition_ids = partition_ids;
    feed_subscription_ids = feed_subscription_ids;
    sync_interest_ids = sync_interest_ids;
    space_ids = space_ids;
    applied_event_ids = applied_event_ids;
  })
