-- ===== src/Engine/Place.antt =====
-- place_cex_order_hft: the checks and the request, the call of the adapter, and what is kept.
pub mod Checks
use latentspeed.Prelude.{
  ℕ, List, [], ◌∷◌, map, Bool, true, false, not, ◌&&◌, ◌||◌, Option, none, some, if◌then◌else◌,
}
use latentspeed.Prelude.Bytes.{Bytes, codes, str_eq, one_of, is_empty, is_some, to_lower}
use latentspeed.Hft.FlatMap.{find, insert, put}
use latentspeed.Hft.FlatMap.Keys.{bytes_ord}
use latentspeed.Hft.MemoryPool.{allocate}
use latentspeed.Symbol.{to_compact}
use latentspeed.Engine.Types.{
  fixed, is_zero, is_positive, is_nonpositive, Tags, Order, OrderRequest, OrderResponse, returned,
  thrown, Adapter, Env, Engine, store,
}
use latentspeed.Engine.Text.{
  normalize_venue_key, get_adapter, format_decimal, map_time_in_force, order_category, failure_code,
  network_phrases,
}
use latentspeed.Engine.Publish.{send_acceptance, send_rejection}

-- A check that fails, with the code and the text of the rejection; or what the checks produce.
pub data Checked {ℓ} (A : Type ℓ) : Type ℓ where
  pass : A → Checked A
  refuse : Bytes → Bytes → Checked A

infixl 5 ◌>>=◌ ◌>>◌
abbrev pub ◌>>=◌ {ℓ κ} : {A : Type ℓ} {B : Type κ} → Checked A → (A → Checked B) → Checked B
pass a >>= f = f a
refuse code text >>= f = refuse code text

abbrev pub ◌>>◌ {ℓ} : {B : Type ℓ} → Checked (Unit {0}) → Checked B → Checked B
m >> k = m >>= λ _. k

abbrev pub reject_if : Bool → Bytes → Bytes → Checked (Unit {0})
reject_if true code text = refuse code text
reject_if false code text = pass tt

-- "stop" and "stop_market" are sent as market orders, "stop_limit" as a limit order.
abbrev pub is_stop_order : Bytes → Bool
is_stop_order t = one_of t ("stop" ∷ "stop_market" ∷ [])

abbrev pub is_stop_limit : Bytes → Bool
is_stop_limit t = one_of t ("stop_limit" ∷ [])

abbrev pub sent_type : Bytes → Bytes
sent_type t =
    if is_stop_order t then codes "market" else if is_stop_limit t then codes "limit" else t

unfoldable pub trigger_direction : Order → Bytes → Bytes
trigger_direction order side = elim (find (codes "stop_trigger") order.tags) [
  | some trig ↦ if str_eq trig (codes "below") then codes "2" else codes "1"
  | none ↦ if str_eq side (codes "buy") then codes "1" else codes "2"
]

unfoldable pub order_filter : Order → Bytes
order_filter order = elim (find (codes "role") order.tags) [
  | some role ↦
      if one_of (map to_lower role) ("tp" ∷ "takeprofit" ∷ [])
      then codes "TakeProfit"
      else codes "StopOrder"
  | none ↦ codes "StopOrder"
]

-- The loop over the pass-through parameters: a key that is there stays.
unfoldable pub merge_params : Tags → Tags → Tags
merge_params [] extra = extra
merge_params ((k, v) ∷ params) extra =
    merge_params params (if is_some (find k extra) then extra else put k v extra)

-- The parameters of a stop order on top of the others.
unfoldable pub stop_params : Env → Order → Bytes → Tags → Tags
stop_params env order side extra = put (codes "orderFilter") (order_filter order) (
    put (codes "triggerDirection") (trigger_direction order side)
      (put (codes "triggerPrice") (format_decimal env.library order.stop_price) extra))

unfoldable pub request_price : Env → Order → Bytes → Option Bytes
request_price env order type =
    if str_eq type (codes "limit") || is_positive order.price
    then some (format_decimal env.library order.price)
    else none

unfoldable pub request_tif : Order → Bytes → Option Bytes
request_tif order type = elim (map_time_in_force order.time_in_force) [
  | some tif ↦ some tif
  | none ↦ if str_eq type (codes "limit") then some (codes "GTC") else none
]

abbrev pub has_stop : Order → Bool
has_stop order =
    is_stop_order (map to_lower order.order_type) || is_stop_limit (map to_lower order.order_type)

abbrev pub type_of : Order → Bytes
type_of order = sent_type (map to_lower order.order_type)

-- The request that is built once the checks have passed.
unfoldable pub build_request : Env → Order → OrderRequest
build_request env order =
    let side = map to_lower order.side in
    let extra = merge_params order.params [] in
    record {
      client_order_id = order.cl_id;
      symbol = to_compact order.symbol order.product_type;
      side = side;
      order_type = type_of order;
      quantity = format_decimal env.library order.size;
      price = request_price env order (type_of order);
      time_in_force = request_tif order (type_of order);
      category = some (order_category order.product_type order.symbol);
      reduce_only = order.reduce_only;
      extra_params =
          if has_stop order && is_positive order.stop_price
          then stop_params env order side extra
          else extra;
    }

-- Everything up to the call of place_order: the adapter and the request, or the rejection.
unfoldable pub place_request : Env → Order → Checked (Adapter × OrderRequest)
place_request env order = do
  adapter ← elim (get_adapter (normalize_venue_key order.venue) env.router) [
    | none ↦ refuse (codes "unknown_venue") (codes "Exchange not supported")
    | some a ↦ pass a
  ]
  reject_if (is_empty order.symbol || (is_empty order.side || is_empty order.order_type))
      (codes "missing_parameters") (codes "Missing required parameters")
  reject_if (str_eq order.action (codes "place") && is_zero order.size) (codes "missing_parameters")
      (codes "Size must be greater than 0 for place orders")
  reject_if (not (one_of (type_of order) ("limit" ∷ "market" ∷ []))) (codes "unsupported_type")
      (codes "Unsupported order type for venue")
  reject_if (is_nonpositive order.size) (codes "invalid_size")
      (codes "Size must be greater than zero")
  reject_if (str_eq (type_of order) (codes "limit") && is_zero order.price) (codes "missing_price")
      (codes "Price required for limit orders")
  reject_if (has_stop order && is_nonpositive order.stop_price) (codes "missing_stop_price")
      (codes "stop_price required for stop orders")
  reject_if (order.reduce_only && str_eq order.product_type (codes "spot"))
      (codes "invalid_reduce_only") (codes "reduce_only not supported for spot orders")
  pass (adapter, build_request env order)

-- The parent intent, for the adapter that asks for it.
unfoldable pub note_intent : Adapter → Order → Engine → Engine
note_intent adapter order e = elim (find (codes "intent_id") order.tags) [
  | none ↦ e
  | some intent ↦
      if adapter.is_hyperliquid && not (is_empty intent)
      then record e { intents = (order.cl_id, intent) ∷ e.intents }
      else e
]

abbrev pub has_text : Option Bytes → Bool
has_text none = false
has_text (some s) = not (is_empty s)

-- Whether an order that was accepted is kept as pending.
unfoldable pub keeps_pending : Order → OrderResponse → Bool
keeps_pending order response =
    let is_ioc = one_of (map to_lower order.time_in_force) ("ioc" ∷ "fok" ∷ []) in
    let is_terminal : Bool = elim response.status [
      | none ↦ false
      | some st ↦ one_of (map to_lower st) ("filled" ∷ "canceled" ∷ "rejected" ∷ [])
    ] in
    has_text response.exchange_order_id || (not is_ioc && not is_terminal)

-- The copy that is kept, with the id that the venue gave.
unfoldable pub pending_copy : Env → Order → Option Bytes → Order
pending_copy env order exchange_order_id = elim exchange_order_id [
  | none ↦ order
  | some x ↦ if is_empty x then order else record order {
    params = (insert env.bounds.params_max (codes "exchange_order_id") (fixed 64 x) order.params).0;
  }
]

-- The copy gets a cell of the order pool. That the map may be full is not looked at.
unfoldable pub keep_pending : Env → Order → Option Bytes → Engine → Engine
keep_pending env order exchange_order_id e =
    let (p, cell) = allocate e.order_pool in
    elim cell [
      | none ↦ e
      | some idx ↦ record e {
        order_pool = p;
        orders = store e.orders idx (pending_copy env order exchange_order_id);
        pending = (insert env.bounds.pending_max order.cl_id idx e.pending).0;
      }
    ]

unfoldable pub place_failure_code : Bytes → Bytes
place_failure_code message =
    failure_code message ("private_ws_stale" ∷ network_phrases) (codes "venue_reject")

unfoldable pub place_answer : Env → Order → OrderResponse → Engine → Engine
place_answer env order response e =
    if response.success
    then send_acceptance env order response.exchange_order_id response.message (
        if keeps_pending order response
        then keep_pending env order response.exchange_order_id e
        else e)
    else send_rejection env order (place_failure_code response.message) response.message e

unfoldable pub place_order : Env → Order → Engine → Engine
place_order env order e = elim (place_request env order) [
  | refuse code text ↦ send_rejection env order code text e
  | pass (adapter, req) ↦
      let e' = note_intent adapter order e in
      elim (adapter.place_order req) [
        | thrown what ↦ send_rejection env order (codes "network_error") what e'
        | returned response ↦ place_answer env order response e'
      ]
]
