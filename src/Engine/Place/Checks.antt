-- ===== src/Engine/Place/Checks.antt =====
-- The checks of place_cex_order_hft before an adapter is called.
use latentspeed.Prelude.{◌≡◌, [], ◌∷◌, true, false, not, ◌&&◌, some, All}
use latentspeed.Prelude.Bytes.{Bytes, codes, str_eq, one_of, is_empty, is_some}
use latentspeed.Symbol.Laws.{Compact}
use latentspeed.Reasons.{canonical_reason_code}
use latentspeed.Reasons.Laws.{FailureCode, FailureCode.invalid_params, FailureCode.venue_reject}
use latentspeed.Engine.Types.{is_zero, is_nonpositive, Order, OrderRequest, Adapter, Env}
use latentspeed.Engine.Text.{normalize_venue_key, get_adapter}
use latentspeed.Engine.Place.{Checked, pass, refuse}

-- A request that may go out: for a venue that is known, under the order's id, for a compact symbol,
-- of a size that is not zero or negative, and a limit order has a price and a time in force.
pub record WellFormed (env : Env) (order : Order) (adapter : Adapter) (req : OrderRequest)
    : Type 0 where
  pub known : get_adapter (normalize_venue_key order.venue) env.router ≡ some adapter
  pub id : req.client_order_id ≡ order.cl_id
  pub symbol : All Compact req.symbol
  pub named : is_empty order.symbol ≡ false
  pub typed : one_of req.order_type ("limit" ∷ "market" ∷ []) ≡ true
  pub sized : is_nonpositive order.size ≡ false
  pub nonzero_price : (str_eq req.order_type (codes "limit") && is_zero order.price) ≡ false
  pub priced : (str_eq req.order_type (codes "limit") && not (is_some req.price)) ≡ false
  pub timed : (str_eq req.order_type (codes "limit") && not (is_some req.time_in_force)) ≡ false
  pub reducing : (req.reduce_only && str_eq order.product_type (codes "spot")) ≡ false

-- The result of the checks: such a request, or a code that is reported as a failure.
abbrev pub Sound : Env → Order → Checked (Adapter × OrderRequest) → Type 0
Sound env order (pass (adapter, req)) = WellFormed env order adapter req
Sound env order (refuse code text) = FailureCode (canonical_reason_code code)
