-- ===== src/Engine/Replace.antt =====
-- replace_cex_order_hft.
use latentspeed.Prelude.{Option, none, some, if◌then◌else◌}
use latentspeed.Prelude.Bytes.{Bytes, codes, is_empty}
use latentspeed.Engine.Types.{
  is_positive, Order, OrderResponse, returned, thrown, Env, Engine, Library,
}
use latentspeed.Engine.Text.{
  normalize_venue_key, get_adapter, format_decimal, failure_code, network_phrases,
}
use latentspeed.Engine.Publish.{send_acceptance, send_rejection}
use latentspeed.Engine.Cancel.{find_value}
use Prim.Native.Nat.{ℕ}

-- An override that is given, even an empty one, hides the number of the order.
unfoldable pub new_value : Library → Order → Bytes → ℕ → Option Bytes
new_value lib order key number = elim (find_value order key) [
  | some v ↦ if is_empty v then none else some v
  | none ↦ if is_positive number then some (format_decimal lib number) else none
]

unfoldable pub replace_answer : Env → Order → OrderResponse → Engine → Engine
replace_answer env order response e =
    if response.success
    then send_acceptance env order none (codes "Order modified") e
    else send_rejection env order
        (failure_code response.message network_phrases (codes "modify_rejected")) response.message e

unfoldable pub replace_order : Env → Order → Engine → Engine
unfolding new_value replace_answer
replace_order env order e = elim (get_adapter (normalize_venue_key order.venue) env.router) [
  | none ↦ send_rejection env order (codes "unknown_venue") (codes "Exchange not supported") e
  | some adapter ↦ elim (find_value order (codes "replace_cl_id_to_replace")) [
    | none ↦
        send_rejection env order (codes "missing_replace_id") (codes "Missing cl_id_to_replace") e
    | some id ↦
        elim (adapter.modify_order id
          (new_value env.library order (codes "replace_new_size") order.size)
          (new_value env.library order (codes "replace_new_price") order.price)) [
            | thrown what ↦ send_rejection env order (codes "network_error") what e
            | returned response ↦ replace_answer env order response e
          ]
  ]
]
