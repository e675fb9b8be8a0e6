-- ===== src/Json.antt =====
-- rapidjson::Value as the source reads it: its kinds, its members and its tests.
use latentspeed.Prelude.{ℕ, ◌-◌, ◌^◌, Bool, Option, none, some, if◌then◌else◌}
use latentspeed.Prelude.Bytes.{Bytes, codes, str_eq, c_str}
use Prim.Native.String.{String}

-- A number is an unsigned one that 64 bits hold, a negative one by its absolute value, or the bits
-- of a double.
mutual
  pub data Value : Type 0 where
    null : Value
    boolean : Bool → Value
    unsigned : ℕ → Value
    negative : ℕ → Value
    real : ℕ → Value
    text : Bytes → Value
    array : Items → Value
    object : Fields → Value

  pub data Items : Type 0 where
    nil : Items
    item : Value → Items → Items

  pub data Fields : Type 0 where
    end : Fields
    field : Bytes → Value → Fields → Fields

-- FindMember: the first member under a name.
unfoldable pub find_field : Bytes → Fields → Option Value
find_field k end = none
find_field k (field k' v fs) = let rest = find_field k fs in if str_eq k' k then some v else rest

-- v[k], `null` where there is no such member.
unfoldable pub member : String → Fields → Value
unfolding find_field
member k fs = elim (find_field (codes k) fs) [ none ↦ null | some v ↦ v ]

-- The tests IsString, IsUint64, IsBool, IsArray and IsObject with what they find.
-- GetString as a C string ends at the first NUL.
unfoldable pub as_text : Value → Option Bytes
unfolding c_str
as_text (text s) = some (c_str s)
as_text _ = none

abbrev pub as_uint64 : Value → Option ℕ
as_uint64 (unsigned n) = some n
as_uint64 _ = none

-- GetUint64 of what IsUint64 or IsInt64 accepts: the 64 bits of the number.
abbrev pub as_int64 : Value → Option ℕ
as_int64 (unsigned n) = some n
as_int64 (negative n) = some (2 ^ 64 - n)
as_int64 _ = none

abbrev pub as_bool : Value → Option Bool
as_bool (boolean b) = some b
as_bool _ = none

abbrev pub as_array : Value → Option Items
as_array (array xs) = some xs
as_array _ = none

abbrev pub as_object : Value → Option Fields
as_object (object fs) = some fs
as_object _ = none

-- The value of a member of the kind that is asked for, or else what was there before.
abbrev pub or_keep {ℓ} : {A : Type ℓ} → Option A → A → A
or_keep (some a) d = a
or_keep none d = d
