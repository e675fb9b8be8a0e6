-- ===== src/Hyperliquid/Placement.antt =====
-- place_order before the action is signed: the class of an order, the gate on a silent stream, the
-- asset, and the type and the price of the order. The branch for "stop" and "stop_limit" behind that
-- for triggers is never reached, since those two are triggers.
pub mod Laws
use latentspeed.Prelude.{
  ℕ, ◌-◌, List, [], ◌∷◌, map, Bool, true, false, not, ◌&&◌, ◌||◌, Option, none, some, if◌then◌else◌,
  ltb,
}
use latentspeed.Prelude.Bytes.{Bytes, codes, one_of, contains, is_empty, to_lower, to_upper, str_eq}
use latentspeed.Prelude.Assoc.{lookup}
use latentspeed.Json.{or_keep}
use latentspeed.Hft.FlatMap.{find}
use latentspeed.Hft.FlatMap.Keys.{bytes_ord}
use latentspeed.NumString.{trim_trailing_zeros}
use latentspeed.Symbol.{to_hyphen}
use latentspeed.Engine.Types.{OrderRequest}
use latentspeed.Hyperliquid.Text.{map_tif_to_hl, parse_base_quote_from_hyphen}
use latentspeed.Hyperliquid.Price.{Doubles, snap_and_format_perp_px, book_px, last_px}

-- HlResolution; a negative number of decimals is `none`.
pub record HlResolution : Type 0 where
  pub asset : ℕ
  pub sz_decimals : Option ℕ

-- The resolver, before and after refresh_all (`none` too for a negative asset), the book that
-- fetch_top_of_book reads, last_fill_px_, and the settings.
pub record Market : Type 0 where
  pub doubles : Doubles
  pub resolve_spot : Bytes → Bytes → Option HlResolution
  pub resolve_perp : Bytes → Option HlResolution
  pub refreshed_spot : Bytes → Bytes → Option HlResolution
  pub refreshed_perp : Bytes → Option HlResolution
  pub fetch_top_of_book : Bytes → Option (ℕ × ℕ)
  pub last_fill_px : List (Bytes × ℕ)
  pub enable_batching : Bool
  pub private_stale_reject_ms : ℕ
  pub now_ms : ℕ

abbrev pub extra : OrderRequest → Bytes → Option Bytes
extra r k = find k r.extra_params

unfoldable pub is_ioc_like : OrderRequest → Bool
is_ioc_like r = one_of (map to_lower (or_keep r.time_in_force [])) ("ioc" ∷ "fok" ∷ [])

abbrev pub type_is : OrderRequest → Bytes → Bool
type_is r t = str_eq (map to_lower r.order_type) t

unfoldable pub is_trigger : OrderRequest → Bool
unfolding str_eq
is_trigger r =
    type_is r (codes "stop")
    || type_is r (codes "stop_limit")
    || elim (extra r (codes "orderFilter")) as (λ o. Bool) [
      | none ↦ false
      | some f ↦ str_eq (map to_lower f) (codes "stoporder")
    ]

-- The orders that take the deterministic path, and those that are batched.
unfoldable pub is_fast : OrderRequest → Bool
unfolding is_ioc_like is_trigger str_eq
is_fast r = is_ioc_like r || type_is r (codes "market") || is_trigger r

unfoldable pub use_batch : Market → OrderRequest → Bool
unfolding is_fast
use_batch m r = m.enable_batching && not (is_fast r)

-- The safety gate: a fast order while the private stream has been quiet for too long.
unfoldable pub private_ws_stale : Market → ℕ → OrderRequest → Bool
unfolding is_fast
private_ws_stale m last_private_event_ms r =
    is_fast r
    && ltb 0 m.private_stale_reject_ms
    && ltb 0 last_private_event_ms
    && ltb last_private_event_ms m.now_ms
    && ltb m.private_stale_reject_ms (m.now_ms - last_private_event_ms)

unfoldable pub is_spot_request : OrderRequest → Bool
unfolding str_eq
is_spot_request r = elim r.category [
  | none ↦ false
  | some c ↦ str_eq (map to_lower c) (codes "spot")
]

-- The price and the type of an order, or the message that refuses it.
pub data Kind : Type 0 where
  trigger : Bool → Bytes → Bytes → Kind
  limit : Bytes → Kind

pub data Built (A : Type 0) : Type 0 where
  built : A → Built A
  refused : Bytes → Built A

abbrev pub or_first : Option HlResolution → Option HlResolution → Option HlResolution
or_first (some r) o = some r
or_first none o = o

unfoldable pub resolve : Market → Bool → Bytes → Bytes → Built HlResolution
resolve m is_spot base quote =
    let res =
      if is_spot
      then or_first (m.resolve_spot base quote) (m.refreshed_spot base quote)
      else or_first (m.resolve_perp base) (m.refreshed_perp base) in
    if is_empty base
    then refused (codes "hyperliquid: unable to parse symbol base/quote")
    else if is_spot && is_empty quote
    then refused (codes "hyperliquid: spot order requires BASE-QUOTE pair")
    else elim res [
      | none ↦ refused (codes "hyperliquid: failed to resolve asset id from meta/spotMeta")
      | some r ↦ built r
    ]

-- tp for a filter that says so, and otherwise sl.
unfoldable pub tpsl_of : OrderRequest → Bytes
unfolding contains one_of
tpsl_of r = elim (extra r (codes "orderFilter")) [
  | none ↦ codes "sl"
  | some filter ↦
      let f = map to_lower filter in
      if contains (codes "takeprofit") f || one_of f ("tp" ∷ []) then codes "tp" else codes "sl"
]

-- The price that the request states, if it is not empty.
abbrev pub stated_price : OrderRequest → Option Bytes
stated_price r = elim r.price [ none ↦ none | some p ↦ if is_empty p then none else some p ]

-- Snapped for a perpetual only.
unfoldable pub perp_px : Market → Bool → Bool → HlResolution → Bytes → Bytes
unfolding snap_and_format_perp_px
perp_px m is_spot is_buy res px =
    if is_spot then px else snap_and_format_perp_px m.doubles px is_buy res.sz_decimals

unfoldable pub last_fill_of : Market → OrderRequest → Option ℕ
unfolding lookup
last_fill_of m r = lookup r.symbol m.last_fill_px

unfoldable pub build_trigger :
    Market → OrderRequest → Bool → Bool → Bytes → HlResolution → Built (Bytes × Kind)
unfolding trim_trailing_zeros tpsl_of perp_px book_px last_px snap_and_format_perp_px last_fill_of
build_trigger m r is_spot is_buy base res =
    let given = or_keep (extra r (codes "triggerPrice")) [] in
    let trigger_px = trim_trailing_zeros given in
    let from_book = book_px m.doubles is_buy (m.fetch_top_of_book (map to_upper base)) in
    let from_fill = last_px m.doubles is_buy (last_fill_of m r) in
    let crossed : Bytes =
      if is_spot then [] else if is_empty from_book then from_fill else from_book in
    if is_empty given
    then refused (codes "hyperliquid: trigger requires triggerPrice")
    else elim (stated_price r) [
      | some p ↦ built (
        perp_px m is_spot is_buy res (trim_trailing_zeros p),
        trigger false trigger_px (tpsl_of r),
      )
      | none ↦ built (
        if is_empty crossed
            then trigger_px
            else snap_and_format_perp_px m.doubles crossed is_buy res.sz_decimals,
        trigger true trigger_px (tpsl_of r),
      )
    ]

unfoldable pub build_market :
    Market → OrderRequest → Bool → Bool → HlResolution → Built (Bytes × Kind)
unfolding trim_trailing_zeros last_px snap_and_format_perp_px last_fill_of
build_market m r is_spot is_buy res =
    let px : Bytes = elim (stated_price r) [
      | some p ↦ trim_trailing_zeros p
      | none ↦ if is_spot then [] else last_px m.doubles is_buy (last_fill_of m r)
    ] in
    if is_empty px
    then refused (codes "hyperliquid: market order requires price or BBO-derived fallback")
    else built (snap_and_format_perp_px m.doubles px is_buy res.sz_decimals, limit (codes "Ioc"))

unfoldable pub build_limit :
    Market → OrderRequest → Bool → Bool → HlResolution → Built (Bytes × Kind)
unfolding trim_trailing_zeros perp_px map_tif_to_hl
build_limit m r is_spot is_buy res = elim (stated_price r) [
  | none ↦ refused (codes "hyperliquid: limit order requires price")
  | some p ↦
      built (
        perp_px m is_spot is_buy res (trim_trailing_zeros p),
        limit (map_tif_to_hl r.time_in_force),
      )
]

unfoldable pub build_kind :
    Market → OrderRequest → Bool → Bool → Bytes → HlResolution → Built (Bytes × Kind)
unfolding is_trigger build_trigger build_limit build_market str_eq
build_kind m r is_spot is_buy base res =
    if is_trigger r
    then build_trigger m r is_spot is_buy base res
    else if type_is r (codes "limit")
    then build_limit m r is_spot is_buy res
    else if type_is r (codes "market")
    then build_market m r is_spot is_buy res
    else refused
        (codes "hyperliquid: unsupported order type (supported: limit, market, stop, stop_limit)")
