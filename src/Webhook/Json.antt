-- ===== src/Webhook/Json.antt =====
-- JSON objects as `encoding/json` hands them to internal/service/webhook.go, and the type
-- assertions that the code makes on their fields. A number stands for its conversion to int64.
use resilient_settlement_orc.Base.{String, Option, none, some, if◌then◌else◌, str_eq}
use resilient_settlement_orc.Base.Int.{ℤ}

mutual
  pub data Json : Type 0 where
    other : Json
    number : ℤ → Json
    string : String → Json
    object : Fields → Json

  pub data Fields : Type 0 where
    end : Fields
    field : String → Json → Fields → Fields

-- `data[key]`; a key stands once.
unfoldable pub get_field : String → Fields → Option Json
get_field key end = none
get_field key (field k v rest) = if str_eq k key then some v else get_field key rest

abbrev in_object : String → Option Fields → Option Json
in_object key none = none
in_object key (some fields) = get_field key fields

abbrev as_string : Option Json → Option String
as_string (some (string s)) = some s
as_string _ = none

abbrev as_number : Option Json → Option ℤ
as_number (some (number n)) = some n
as_number _ = none

abbrev as_object : Option Json → Option Fields
as_object (some (object fields)) = some fields
as_object _ = none

-- The assertions `v, ok := data[key].(T)`, after others that may have failed.
abbrev pub field_string : String → Option Fields → Option String
field_string key fields = as_string (in_object key fields)

abbrev pub field_number : String → Option Fields → Option ℤ
field_number key fields = as_number (in_object key fields)

abbrev pub field_object : String → Option Fields → Option Fields
field_object key fields = as_object (in_object key fields)

abbrev pub string_or_empty : Option String → String
string_or_empty none = ""
string_or_empty (some s) = s
