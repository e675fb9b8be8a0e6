-- ===== src/Engine/Dto.antt =====
-- src/engine/exec_dto.cpp: an order message as rapidjson reads it. A std::map is the sorted list of
-- its entries.
pub mod Laws
use latentspeed.Prelude.{
  ℕ, ◌-◌, ◌^◌, [], ◌∷◌, Bool, true, false, Option, none, some, if◌then◌else◌, ltb, leb,
}
use latentspeed.Prelude.Bytes.{Bytes, codes, str_eq, c_str}
use latentspeed.Json.{
  Value, Fields, end, field, unsigned, negative, real, text, boolean, object, member, as_text,
  as_uint64, as_object, or_keep,
}
use latentspeed.Hft.FlatMap.{put}
use latentspeed.Hft.FlatMap.Keys.{bytes_ord}
use latentspeed.Engine.Types.{Tags}
use latentspeed.Engine.Parse.{ExecParsed, ExecParsedDetails}

-- What is not of this repository: rapidjson's parser (`none`: a parse error), the doubles of an
-- unsigned and a negative integer, std::to_string of a double and std::stod (`none`: it throws).
pub record Numbers : Type 0 where
  pub parse : Bytes → Option Value
  pub of_unsigned : ℕ → ℕ
  pub of_negative : ℕ → ℕ
  pub print : ℕ → Bytes
  pub stod : Bytes → Option ℕ

-- IsNumber with GetDouble
unfoldable pub as_double : Numbers → Value → Option ℕ
as_double lib (unsigned n) = some (lib.of_unsigned n)
as_double lib (negative n) = some (lib.of_negative n)
as_double lib (real d) = some d
as_double lib _ = none

-- The text of a string, a number or a Boolean; any other value has none.
unfoldable pub primitive : Numbers → Value → Option Bytes
unfolding as_double c_str
primitive lib (text s) = some (c_str s)
primitive lib (unsigned n) = some (lib.print (lib.of_unsigned n))
primitive lib (negative n) = some (lib.print (lib.of_negative n))
primitive lib (real d) = some (lib.print d)
primitive lib (boolean b) = some (if b then codes "true" else codes "false")
primitive lib _ = none

unfoldable pub collect_object_primitives : Numbers → Fields → Tags → Tags
unfolding primitive c_str
collect_object_primitives lib end out = out
collect_object_primitives lib (field k v fs) out =
    collect_object_primitives lib fs
      (elim (primitive lib v) [ none ↦ out | some s ↦ put (c_str k) s out ])

-- IsInt with GetInt: the 32 bits of the number.
unfoldable pub as_int : Value → Option ℕ
as_int (unsigned n) = if ltb n 0x80000000 then some n else none
as_int (negative n) = if leb n 0x80000000 then some (2 ^ 32 - n) else none
as_int _ = none

abbrev or_empty : Value → Bytes
or_empty v = or_keep (as_text v) []

-- A price or a size: a number, or a text that std::stod reads.
unfoldable pub number_or_text : Numbers → Value → Option ℕ
unfolding as_double as_text
number_or_text lib v = elim (as_double lib v) [
  | some d ↦ some d
  | none ↦ elim (as_text v) [ none ↦ none | some s ↦ lib.stod s ]
]

unfoldable pub read_flag : Value → Option Bool
unfolding c_str
read_flag (boolean b) = some b
read_flag (text s) = some (str_eq (c_str s) (codes "true"))
read_flag _ = none

-- A member that is an object, as a map of its primitive members.
unfoldable pub read_map : Numbers → Value → Tags
unfolding collect_object_primitives
read_map lib v = elim (as_object v) [ none ↦ [] | some fs ↦ collect_object_primitives lib fs [] ]

unfoldable pub read_details : Numbers → Fields → ExecParsedDetails
unfolding member as_text number_or_text read_flag read_map
read_details lib d = record {
  symbol = or_empty (member "symbol" d);
  side = or_empty (member "side" d);
  order_type = or_empty (member "order_type" d);
  time_in_force = or_empty (member "time_in_force" d);
  price = number_or_text lib (member "price" d);
  size = number_or_text lib (member "size" d);
  stop_price = number_or_text lib (member "stop_price" d);
  reduce_only = read_flag (member "reduce_only" d);
  params = read_map lib (member "params" d);
  cancel_fields = read_map lib (member "cancel" d);
  replace_fields = read_map lib (member "replace" d);
}

unfoldable pub read_order : Numbers → Fields → ExecParsed
unfolding member as_text as_int read_details read_map
read_order lib doc = record {
  version = or_keep (as_int (member "version" doc)) 1;
  cl_id = or_empty (member "cl_id" doc);
  action = or_empty (member "action" doc);
  venue_type = or_empty (member "venue_type" doc);
  venue = or_empty (member "venue" doc);
  product_type = or_empty (member "product_type" doc);
  ts_ns = or_keep (as_uint64 (member "ts_ns" doc)) 0;
  details = read_details lib (or_keep (as_object (member "details" doc)) end);
  tags = read_map lib (member "tags" doc);
}

-- `none` for a text that is no object.
unfoldable pub parse_exec_order_json : Numbers → Bytes → Option ExecParsed
unfolding read_order
parse_exec_order_json lib json = elim (lib.parse json) [
  | none ↦ none
  | some v ↦ elim (as_object v) [ none ↦ none | some doc ↦ some (read_order lib doc) ]
]
