-- ===== src/Json.antt =====
-- Decoded JSON, Go's `any`, as the claims of an identity hold it.
use xdauth.Prelude.{Bool, Option, some, none, if◌then◌else◌}
use xdauth.Text.{Text, text_eq}

mutual
  pub data Value : Type 0 where
    null : Value
    bool : Bool → Value
    -- a number, by its text
    num : Text → Value
    str : Text → Value
    arr : Values → Value
    obj : Fields → Value

  pub data Values : Type 0 where
    nil : Values
    cons : Value → Values → Values

  pub data Fields : Type 0 where
    end : Fields
    field : Text → Value → Fields → Fields

-- `m[name]` of a decoded object, in which a name stands once
unfoldable pub get_field : Text → Fields → Option Value
get_field name end = none
get_field name (field n v m) =
    let rest = get_field name m in if text_eq n name then some v else rest
