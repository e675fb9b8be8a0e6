-- ===== src/Hyperliquid/Batch.antt =====
-- The branch of place_order for an order that is batched: its asset, the item that is queued, and the
-- wait for the batch thread. The cap on the price of an "Ioc" order of that branch is left out: no
-- order with that time in force is batched.
pub mod Laws
use latentspeed.Prelude.{ℕ, [], ◌∷◌, map, Bool, ◌&&◌, not, Option, none, some, if◌then◌else◌}
use latentspeed.Prelude.Bytes.{Bytes, codes, is_empty}
use latentspeed.NumString.{trim_trailing_zeros}
use latentspeed.Engine.Types.{OrderRequest, OrderResponse}
use latentspeed.Hyperliquid.Text.{is_valid_cloid, map_tif_to_hl}
use latentspeed.Hyperliquid.Reply.{refused_as}
use latentspeed.Hyperliquid.Placement.{Market, HlResolution, Built, built, refused, or_first}

-- PendingOrderItem, without what the two threads wait with.
pub record PendingOrderItem : Type 0 where
  pub asset : ℕ
  pub is_buy : Bool
  pub symbol : Bytes
  pub px : Bytes
  pub sz : Bytes
  pub reduce_only : Bool
  pub tif : Bytes
  pub cloid : Bytes
  pub sz_decimals : Option ℕ
  pub client_order_id : Bytes

-- Unlike `resolve`, without a test of the quote of a spot pair.
unfoldable pub batch_resolve : Market → Bool → Bytes → Bytes → Built HlResolution
batch_resolve m is_spot base quote =
    let res =
      if is_spot
      then or_first (m.resolve_spot base quote) (m.refreshed_spot base quote)
      else or_first (m.resolve_perp base) (m.refreshed_perp base) in
    if is_empty base
    then refused (codes "hyperliquid: unable to parse symbol base/quote")
    else elim res [
      | none ↦ refused (codes "hyperliquid: failed to resolve asset id from meta/spotMeta")
      | some r ↦ built r
    ]

unfoldable pub pending_item : OrderRequest → Bool → HlResolution → PendingOrderItem
unfolding trim_trailing_zeros map_tif_to_hl
pending_item r is_buy res = record {
  asset = res.asset;
  is_buy = is_buy;
  symbol = r.symbol;
  px = elim r.price [ none ↦ [] | some p ↦ trim_trailing_zeros p ];
  sz = trim_trailing_zeros r.quantity;
  reduce_only = r.reduce_only;
  tif = map_tif_to_hl r.time_in_force;
  cloid =
      if not (is_empty r.client_order_id) && is_valid_cloid r.client_order_id
      then r.client_order_id
      else [];
  sz_decimals = res.sz_decimals;
  client_order_id = r.client_order_id;
}

-- `batched` is what the batch thread answers to an item in time, `none` if it does not.
unfoldable pub batch_order :
    (PendingOrderItem → Option OrderResponse)
    → Market
    → OrderRequest
    → Bool
    → Bool
    → Bytes
    → Bytes
    → OrderResponse
unfolding batch_resolve pending_item
batch_order batched m r is_spot is_buy base quote = elim (batch_resolve m is_spot base quote) [
  | refused message ↦ refused_as r.client_order_id message
  | built res ↦ elim (batched (pending_item r is_buy res)) [
    | none ↦ refused_as r.client_order_id (codes "expired")
    | some response ↦ response
  ]
]
