-- ===== src/Engine/Text.antt =====
-- The helpers on texts at the top of src/trading_engine_service.cpp, and VenueRouter::get.
pub mod Registry
use Prim.Native.String.{String}
use latentspeed.Prelude.{
  ℕ, ◌-◌, ◌+◌, ◌%◌, ◌^◌, List, [], ◌∷◌, map, Bool, true, false, ◌&&◌, ◌||◌, Option, none, some,
  ◌==◌, if◌then◌else◌, length, leb,
}
use latentspeed.Prelude.Bytes.{
  Bytes, codes, str_eq, one_of, contains, is_empty, find_char, is_some, rfind, or_npos, to_lower,
  to_upper,
}
use latentspeed.NumString.{trim_trailing_zeros}
use latentspeed.Engine.Types.{Router, Adapter, Library, is_finite}

unfoldable pub normalize_venue_key : Bytes → Bytes
normalize_venue_key venue =
    let v = map to_lower venue in
    if one_of v
      ("binance_futures" ∷ "binanceusdm" ∷ "binance-perp" ∷ "binance_um" ∷ "binance_umfutures" ∷ [])
    then codes "binance"
    else if one_of v ("bybit_futures" ∷ "bybit-perp" ∷ "bybit_um" ∷ "bybit_umfutures" ∷ [])
    then codes "bybit"
    else v

unfoldable pub get_adapter : Bytes → Router → Option Adapter
get_adapter venue [] = none
get_adapter venue ((name, a) ∷ r) = if str_eq name venue then some a else get_adapter venue r

-- register_adapter: emplace keeps the adapter that is there.
unfoldable pub register_adapter : Adapter → Router → Router
unfolding get_adapter
register_adapter a r =
    if is_some (get_adapter a.exchange_name r) then r else (a.exchange_name, a) ∷ r

unfoldable pub format_decimal : Library → ℕ → Bytes
unfolding trim_trailing_zeros
format_decimal lib value =
    if is_finite value then trim_trailing_zeros (lib.print_fixed 12 value) else codes "0"

unfoldable pub map_time_in_force : Bytes → Option Bytes
map_time_in_force tif_raw =
    let upper = map to_upper tif_raw in
    if is_empty tif_raw
    then none
    else if one_of upper ("GTC" ∷ [])
    then some (codes "GTC")
    else if one_of upper ("IOC" ∷ [])
    then some (codes "IOC")
    else if one_of upper ("FOK" ∷ [])
    then some (codes "FOK")
    else if one_of upper ("PO" ∷ "POST_ONLY" ∷ [])
    then some (codes "PostOnly")
    else some tif_raw

unfoldable pub normalize_report_status : Bytes → Option Bytes
normalize_report_status raw_status =
    let lower = map to_lower raw_status in
    if one_of lower ("new" ∷ "partiallyfilled" ∷ "filled" ∷ "accepted" ∷ [])
    then some (codes "accepted")
    else if one_of lower
        ("cancelled" ∷ "canceled" ∷ "partiallyfilledcancelled" ∷ "inactive" ∷ "deactivated" ∷ [])
    then some (codes "canceled")
    else if one_of lower ("rejected" ∷ [])
    then some (codes "rejected")
    else if one_of lower ("amended" ∷ "replaced" ∷ [])
    then some (codes "replaced")
    else none

unfoldable pub is_terminal_status : Bytes → Bool
is_terminal_status raw_status =
    one_of (map to_lower raw_status)
      ("filled" ∷ "cancelled" ∷ "canceled" ∷ "rejected" ∷ "partiallyfilledcancelled" ∷ [])

-- The category that is sent to the venue. `size() - 5` is a subtraction of size_t.
unfoldable pub order_category : Bytes → Bytes → Bytes
order_category product_type symbol =
    let product = map to_lower product_type in
    let upper = map to_upper symbol in
    if is_empty product || one_of product ("spot" ∷ [])
    then if is_some (find_char b':' upper)
        || (or_npos (rfind (codes "-PERP") upper) == (length upper + 2 ^ 64 - 5) % 2 ^ 64)
      then codes "linear"
      else codes "spot"
    else codes "linear"

-- std::all_of(ch < 0x80 && isalpha(ch))
unfoldable pub is_alpha : Bytes → Bool
is_alpha [] = true
is_alpha (c ∷ s) = ((leb b'a' c && leb c b'z') || (leb b'A' c && leb c b'Z')) && is_alpha s

-- A message that contains one of the phrases.
unfoldable pub mentions : Bytes → List String → Bool
mentions msg [] = false
mentions msg (w ∷ ws) = contains (codes w) msg || mentions msg ws

abbrev pub network_phrases : List String
network_phrases =
    "curl error" ∷ "timed out" ∷ "timeout" ∷ "resolve" ∷ "host not found" ∷ "connection refused"
    ∷ "connection reset" ∷ "connection aborted" ∷ "network unreachable" ∷ "http status 5" ∷ []

-- The code of a call that the venue did not accept.
unfoldable pub failure_code : Bytes → List String → Bytes → Bytes
failure_code message phrases otherwise =
    if mentions (map to_lower message) phrases then codes "network_error" else otherwise
