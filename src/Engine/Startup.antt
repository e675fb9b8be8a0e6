-- ===== src/Engine/Startup.antt =====
-- The block of TradingEngineService::initialize that takes over the orders which are open at the
-- venue.
pub mod Laws
use latentspeed.Prelude.{ℕ, List, [], ◌∷◌, Bool, true, false, Option, none, some, if◌then◌else◌}
use latentspeed.Prelude.Bytes.{Bytes, codes, str_eq, c_str, is_empty}
use latentspeed.Hft.FlatMap.{find, insert}
use latentspeed.Hft.FlatMap.Keys.{bytes_ord}
use latentspeed.Hft.MemoryPool.{allocate}
use latentspeed.Engine.Types.{Tags, Order, new_order, Env, Engine, store}
use latentspeed.Engine.Parse.{from_c_str}

pub record OpenOrderBrief : Type 0 where
  pub client_order_id : Bytes
  pub exchange_order_id : Bytes
  pub symbol : Bytes
  pub side : Bytes
  pub order_type : Bytes
  pub qty : Bytes
  pub reduce_only : Bool
  pub category : Bytes
  pub extra : Tags

-- The size stays 0 where there is no quantity or std::stod throws.
unfoldable pub brief_size : Env → Bytes → ℕ
brief_size env qty =
    if is_empty qty then 0 else elim (env.library.stod qty) [ none ↦ 0 | some d ↦ d ]

unfoldable pub brief_params : Env → OpenOrderBrief → Tags
brief_params env x = elim (find (codes "orderId") x.extra) [
  | none ↦ []
  | some id ↦
      if is_empty id
      then []
      else (insert env.bounds.params_max (codes "exchange_order_id") (from_c_str 64 id) []).0
]

unfoldable pub brief_order : Env → OpenOrderBrief → Order
unfolding brief_size brief_params str_eq
brief_order env x = record new_order {
  version = 1;
  cl_id = from_c_str 64 x.client_order_id;
  venue = from_c_str 16 env.exchange;
  venue_type = codes "cex";
  product_type = if str_eq x.category (codes "spot") then codes "spot" else codes "perpetual";
  symbol = from_c_str 32 x.symbol;
  side = from_c_str 8 x.side;
  order_type = from_c_str 16 x.order_type;
  size = brief_size env x.qty;
  reduce_only = x.reduce_only;
  params = brief_params env x;
}

-- The loop over one answer of list_open_orders. An order that is pending stays as it is; an
-- exhausted pool ends the loop.
unfoldable pub take_over : Env → List OpenOrderBrief → Engine → Engine
unfolding brief_order
take_over env [] e = e
take_over env (x ∷ xs) e =
    let key = from_c_str 64 x.client_order_id in
    elim (find key e.pending) [
      | some idx ↦ take_over env xs e
      | none ↦
          let (p, cell) = allocate e.order_pool in
          elim cell [
            | none ↦ e
            | some idx ↦ take_over env xs (record e {
              order_pool = p;
              orders = store e.orders idx (brief_order env x);
              pending = (insert env.bounds.pending_max key idx e.pending).0;
            })
          ]
    ]

-- The four calls of list_open_orders, with what they answer.
unfoldable pub rehydrate_open_orders : Env → List (List OpenOrderBrief) → Engine → Engine
unfolding take_over
rehydrate_open_orders env [] e = e
rehydrate_open_orders env (answer ∷ answers) e =
    rehydrate_open_orders env answers (take_over env answer e)
