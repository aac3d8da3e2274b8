-- ===== src/Common/Json.antt =====
-- JSON values as the code sees them after parsing. No modelled code reads the value of a number.
use Prim.Native.String.{String}
use mathlib.Core.Bool.{Bool}
use mathlib.Core.Option.{Option, none, some}
use text.Mathlib.Text.{◌==◌ as str_eq}
use local_first_p2p_app.Common.Tests.{if◌then◌else◌}

mutual
  pub data JsonValue : Type 0 where
    null : JsonValue
    bool : Bool → JsonValue
    num : String → JsonValue
    str : String → JsonValue
    array : JsonItems → JsonValue
    object : JsonFields → JsonValue

  pub data JsonItems : Type 0 where
    nil : JsonItems
    cons : JsonValue → JsonItems → JsonItems

  pub data JsonFields : Type 0 where
    end : JsonFields
    field : String → JsonValue → JsonFields → JsonFields

-- `record[name]`, for a name that no prototype has.
unfoldable pub get_field : String → JsonFields → Option JsonValue
get_field name end = none
get_field name (field key value rest) =
    let later = get_field name rest in if str_eq key name then some value else later

abbrev pub as_text : Option JsonValue → Option String
as_text (some (str s)) = some s
as_text (some null) = none
as_text (some (bool b)) = none
as_text (some (num n)) = none
as_text (some (array items)) = none
as_text (some (object fields)) = none
as_text none = none

-- `typeof value === 'object' && value !== null && !Array.isArray(value)`
abbrev pub as_object : JsonValue → Option JsonFields
as_object (object fields) = some fields
as_object null = none
as_object (bool b) = none
as_object (num n) = none
as_object (str s) = none
as_object (array items) = none
