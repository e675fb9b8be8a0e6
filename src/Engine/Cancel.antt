-- ===== src/Engine/Cancel.antt =====
-- cancel_cex_order_hft.
pub mod Laws
use latentspeed.Prelude.{
  ℕ, List, [], ◌∷◌, map, Bool, true, false, not, ◌&&◌, ◌||◌, Option, none, some, if◌then◌else◌,
}
use latentspeed.Prelude.Bytes.{Bytes, codes, is_empty, to_lower}
use latentspeed.Hft.FlatMap.{find, erase}
use latentspeed.Hft.FlatMap.Keys.{bytes_ord}
use latentspeed.Hft.MemoryPool.{deallocate}
use latentspeed.Symbol.{to_compact}
use latentspeed.Engine.Types.{
  fixed, Tags, Order, Report, OrderResponse, returned, thrown, Adapter, Env, Engine,
}
use latentspeed.Engine.Text.{
  normalize_venue_key, get_adapter, mentions, failure_code, network_phrases,
}
use latentspeed.Engine.Publish.{send_report, send_acceptance, send_rejection}

-- The parameters of the order, then its tags.
unfoldable pub find_value : Order → Bytes → Option Bytes
find_value order key = elim (find key order.params) [ some v ↦ some v | none ↦ find key order.tags ]

-- The order that is pending under an id, if there is one.
unfoldable pub pending_order : Engine → Bytes → Option Order
pending_order e id = elim (find id e.pending) [ none ↦ none | some idx ↦ some (e.orders idx) ]

unfoldable pub cancel_symbol : Engine → Order → Bytes → Option Bytes
unfolding pending_order
cancel_symbol e order id =
    if not (is_empty order.symbol)
    then some (to_compact order.symbol order.product_type)
    else elim (pending_order e id) [
      | none ↦ none
      | some o ↦ some (to_compact o.symbol o.product_type)
    ]

unfoldable pub cancel_exchange_id : Engine → Order → Bytes → Option Bytes
unfolding pending_order find_value
cancel_exchange_id e order id = elim (find_value order (codes "cancel_exchange_order_id")) [
  | some x ↦ some x
  | none ↦ elim (pending_order e id) [
    | none ↦ none
    | some o ↦ find (codes "exchange_order_id") o.params
  ]
]

-- A venue that does not know the order counts as a success.
unfoldable pub is_missing : OrderResponse → Bool
is_missing response =
    not response.success
    && mentions (map to_lower response.message)
        ("does not exist" ∷ "not exists" ∷ "not found" ∷ "unknown order" ∷ [])

unfoldable pub canceled_report : Env → Engine → Bytes → OrderResponse → Report
unfolding pending_order is_missing
canceled_report env e id response = record {
  version = 1;
  cl_id = id;
  exchange_order_id = elim response.exchange_order_id [ none ↦ [] | some x ↦ fixed 64 x ];
  status = codes "canceled";
  reason_code = codes "ok";
  reason_text =
      if is_missing response
      then codes "Cancel idempotent: order missing"
      else codes "Cancel accepted";
  ts_ns = env.clock.report;
  tags = elim (pending_order e id) [ none ↦ [] | some o ↦ o.tags ];
}

-- The cell of the order goes back to the pool, and its entry goes.
unfoldable pub drop_pending : Bytes → Engine → Engine
drop_pending id e = elim (find id e.pending) [
  | none ↦ e
  | some idx ↦ record e {
    order_pool = deallocate e.order_pool (some idx);
    pending = (erase id e.pending).0;
  }
]

-- The request is acknowledged, the original order is reported as canceled and dropped.
unfoldable pub cancel_done : Env → Order → Bytes → OrderResponse → Engine → Engine
cancel_done env order id response e =
    let text =
      if is_empty response.message then codes "Cancel request sent" else response.message in
    let acked = send_acceptance env order response.exchange_order_id text e in
    drop_pending id (send_report env (canceled_report env acked id response) acked)

unfoldable pub cancel_answer : Env → Order → Bytes → OrderResponse → Engine → Engine
unfolding is_missing
cancel_answer env order id response e =
    if response.success || is_missing response
    then cancel_done env order id response e
    else send_rejection env order
        (failure_code response.message network_phrases (codes "cancel_rejected")) response.message e

unfoldable pub cancel_order : Env → Order → Engine → Engine
unfolding find_value
cancel_order env order e = elim (get_adapter (normalize_venue_key order.venue) env.router) [
  | none ↦ send_rejection env order (codes "unknown_venue") (codes "Exchange not supported") e
  | some adapter ↦ elim (find_value order (codes "cancel_cl_id_to_cancel")) [
    | none ↦
        send_rejection env order (codes "missing_cancel_id")
          (codes "Missing cl_id_to_cancel for cancel request") e
    | some id ↦
        elim (adapter.cancel_order id (cancel_symbol e order id) (cancel_exchange_id e order id)) [
          | thrown what ↦ send_rejection env order (codes "network_error") what e
          | returned response ↦ cancel_answer env order (fixed 64 id) response e
        ]
  ]
]
