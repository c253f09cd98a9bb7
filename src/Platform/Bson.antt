-- ===== src/Platform/Bson.antt =====
-- The values of a decoded Mongo document, as the type switches of internal/platform tell them apart.
use chatterloop_developer_se.Common.{ℕ, Bool, false, [], Text, text_eq, if◌then◌else◌, ℤ}

-- `object` is bson.M, `ordered` bson.D; a double stands for its value truncated to an integer,
-- and an ObjectID for the seconds of the time in it.
mutual
  pub data Value : Type 0 where
    null : Value
    text : Text → Value
    boolean : Bool → Value
    int64 : ℤ → Value
    int32 : ℤ → Value
    double : ℤ → Value
    date_time : ℤ → Value
    object : Fields → Value
    ordered : Fields → Value
    array : Items → Value
    object_id : ℕ → Value

  pub data Items : Type 0 where
    nil : Items
    item : Value → Items → Items

  pub data Fields : Type 0 where
    end : Fields
    field : Text → Value → Fields → Fields

-- `m[key]`, nil where the key is missing.
unfoldable pub get : Text → Fields → Value
get key end = null
get key (field k v fields) = if text_eq k key then v else get key fields

-- `d.Map()[key]`: the last element of a bson.D with the key counts.
get_last_from : Value → Text → Fields → Value
get_last_from found key end = found
get_last_from found key (field k v fields) =
    get_last_from (if text_eq k key then v else found) key fields

unfoldable pub get_last : Text → Fields → Value
unfolding get_last_from
get_last key fields = get_last_from null key fields

-- `v.(string)`, with "" where it is no string.
abbrev pub as_text : Value → Text
as_text (text t) = t
as_text _ = []

-- `v.(bool)`, with false where it is no boolean.
abbrev pub as_bool : Value → Bool
as_bool (boolean b) = b
as_bool _ = false
