-- ===== src/Hyperliquid/Query.antt =====
-- query_order of the Hyperliquid adapter.
pub mod Laws
use latentspeed.Prelude.{
  ℕ, ◌+◌, ◌-◌, ◌%◌, ◌^◌, [], ◌∷◌, ◌++◌, map, Bool, false, Option, none, some, ltb, leb,
  if◌then◌else◌,
}
use latentspeed.Prelude.Bytes.{Bytes, codes, c_str, is_empty, to_lower, to_upper}
use latentspeed.Prelude.Assoc.{lookup}
use latentspeed.Json.{
  Value, Fields, end, field, unsigned, negative, text, member, as_text, as_int64, as_object,
}
use latentspeed.Engine.Types.{OrderResponse}
use latentspeed.Engine.Serialize.{named}
use latentspeed.Hyperliquid.Text.{is_valid_cloid}
use latentspeed.Hyperliquid.Ids.{Ids}
use latentspeed.Hyperliquid.Updates.{set_extra}
use latentspeed.Hyperliquid.Reply.{accepted_as, refused_as, or_else_text}

-- The address of the user, std::to_string, the names that the resolver knows by index, and the
-- answer over HTTP (`none`: the request throws; `some none`: it is no object).
pub record QueryLink : Type 0 where
  pub user : Bytes
  pub to_string : ℕ → Bytes
  pub spot_pair : ℕ → Option (Bytes × Bytes)
  pub perp_coin : ℕ → Option Bytes
  pub info_answer : Fields → Option (Option Fields)

unfoldable pub query_cloid : Bytes → Ids → Option Bytes
query_cloid id ids =
    if is_valid_cloid id then some id else elim (lookup (map to_lower id) ids.clientid_to_cloid) [
      | none ↦ none
      | some cloid ↦ if is_valid_cloid cloid then some cloid else none
    ]

unfoldable pub as_str : QueryLink → Value → Bytes
unfolding c_str
as_str link (text s) = c_str s
as_str link (unsigned n) = link.to_string n
as_str link (negative n) = codes "-" ++ link.to_string n
as_str link _ = []

-- The cast to a 32-bit int; `none` for a negative one and where there is no integer.
unfoldable pub as_index : Value → Option ℕ
as_index v = elim (as_int64 v) [
  | none ↦ none
  | some bits ↦ let low = bits % 2 ^ 32 in if ltb low (2 ^ 31) then some low else none
]

unfoldable pub order_root : Fields → Fields
unfolding member
order_root d = elim (as_object (member "order" d)) [ none ↦ d | some o ↦ o ]

unfoldable pub order_asset : Fields → Option ℕ
unfolding member as_index order_root
order_asset d = elim (as_index (member "asset" (order_root d))) [
  | some asset ↦ some asset
  | none ↦ as_index (member "asset" d)
]

abbrev pub is_spot_asset : Option ℕ → Bool
is_spot_asset none = false
is_spot_asset (some asset) = leb 10000 asset

-- The symbol of the asset; empty where it is not known.
unfoldable pub asset_symbol : QueryLink → Option ℕ → Bytes
asset_symbol link none = []
asset_symbol link (some asset) =
    if leb 10000 asset
    then elim (link.spot_pair (asset - 10000)) [
      | none ↦ []
      | some pair ↦ map to_upper pair.0 ++ map to_upper pair.1
    ]
    else elim (link.perp_coin asset) [ none ↦ [] | some coin ↦ coin ++ codes "-USDC-PERP" ]

-- What an object that the venue answers is taken for.
unfoldable pub found_order : QueryLink → Bytes → Fields → OrderResponse
unfolding member as_str order_root order_asset asset_symbol set_extra
found_order link id d =
    let oid =
      or_else_text (as_str link (member "oid" (order_root d))) (as_str link (member "oid" d)) in
    let asset = order_asset d in
    let symbol = asset_symbol link asset in
    let category = if is_spot_asset asset then codes "spot" else codes "linear" in
    record (accepted_as id (if is_empty oid then none else some oid) none) {
      extra_data = set_extra (codes "exchange") (codes "hyperliquid") (
          set_extra (codes "category") category
            (if is_empty symbol then [] else set_extra (codes "symbol") symbol []));
    }

abbrev pub status_query : QueryLink → Bytes → Fields
status_query link cloid =
    named "type" (text (codes "orderStatus"))
      (named "user" (text link.user) (named "oid" (text cloid) end))

-- The branch for a numeric id is left out: it stands behind the return for an id without a cloid.
unfoldable pub query_order : QueryLink → Ids → Bytes → OrderResponse
unfolding query_cloid found_order
query_order link ids id = elim (query_cloid id ids) [
  | none ↦ refused_as id (codes "not found")
  | some cloid ↦ elim (link.info_answer (status_query link cloid)) [
    | none ↦ refused_as id (codes "query failed")
    | some none ↦ refused_as id (codes "not found")
    | some (some end) ↦ refused_as id (codes "not found")
    | some (some (field k v rest)) ↦ found_order link id (field k v rest)
  ]
]
