-- ===== src/Engine/Update.antt =====
-- on_order_update_hft: a status that the venue reports for an order.
pub mod Cleanup
pub mod Tracked
use latentspeed.Prelude.{
  ℕ, List, [], ◌∷◌, map, Bool, true, false, not, ◌&&◌, ◌||◌, Option, none, some, if◌then◌else◌,
  get_elem?,
}
use latentspeed.Prelude.Bytes.{Bytes, codes, str_eq, one_of, is_empty, is_some, to_lower}
use latentspeed.Hft.FlatMap.{find, insert, erase, lower_bound}
use latentspeed.Hft.FlatMap.Keys.{bytes_ord}
use latentspeed.Hft.MemoryPool.{allocate, deallocate}
use latentspeed.Reasons.{ReasonMapping, map_reason}
use latentspeed.Engine.Types.{
  fixed, Tags, Order, new_order, Report, OrderResponse, returned, thrown, Env, Engine, store,
}
use latentspeed.Engine.Text.{get_adapter, normalize_report_status, is_terminal_status}
use latentspeed.Engine.Publish.{publish_execution_report, send_report, with_venue}

-- OrderUpdate
pub record OrderUpdate : Type 0 where
  pub client_order_id : Bytes
  pub exchange_order_id : Bytes
  pub status : Bytes
  pub reason : Bytes
  pub timestamp_ms : ℕ
  pub extra_data : Tags

abbrev pub update_report : Env → OrderUpdate → Bytes → Tags → Report
update_report env u status tags = record {
  version = 1;
  cl_id = fixed 64 u.client_order_id;
  exchange_order_id = fixed 64 u.exchange_order_id;
  status = fixed 16 status;
  reason_code = fixed 32 (map_reason status u.reason).reason_code;
  reason_text = fixed 128 (map_reason status u.reason).reason_text;
  ts_ns = env.clock.report;
  tags = tags;
}

-- A terminal status for an order that is not tracked: reported unless it is a fill.
unfoldable pub report_untracked : Env → OrderUpdate → Engine → Engine
report_untracked env u e = elim (normalize_report_status u.status) [
  | none ↦ e
  | some status ↦
      if one_of status ("rejected" ∷ "canceled" ∷ [])
      then send_report env (update_report env u status (with_venue env (fixed 64 env.exchange) []))
          e
      else e
]

abbrev pub or_nothing : Option Bytes → Bytes
or_nothing none = []
or_nothing (some s) = s

-- Symbol, category and venue of an order that is not tracked.
pub record Origin : Type 0 where
  pub sym : Bytes
  pub cat : Bytes
  pub venue_name : Bytes

-- From the update, or else from the venue; `none` where the call throws.
unfoldable pub find_origin : Env → OrderUpdate → Option Origin
find_origin env u =
    let given : Origin = record {
      sym = or_nothing (find (codes "symbol") u.extra_data);
      cat = or_nothing (find (codes "category") u.extra_data);
      venue_name = or_nothing (find (codes "exchange") u.extra_data);
    } in
    if not (is_empty given.sym) then some given else elim (get_adapter env.exchange env.router) [
      | none ↦ some given
      | some adapter ↦ elim (adapter.query_order u.client_order_id) [
        | thrown what ↦ none
        | returned qr ↦
            if qr.success
            then some (record {
              sym = or_nothing (find (codes "symbol") qr.extra_data);
              cat = elim (find (codes "category") qr.extra_data) [ none ↦ given.cat | some c ↦ c ];
              venue_name =
                  if is_empty given.venue_name then adapter.exchange_name else given.venue_name;
            })
            else some given
      ]
    ]

-- The placeholder that stands for an order placed elsewhere.
unfoldable pub placeholder : Env → OrderUpdate → Origin → Order
placeholder env u from = record new_order {
  cl_id = fixed 64 u.client_order_id;
  venue = fixed 16 (if is_empty from.venue_name then env.exchange else from.venue_name);
  venue_type = codes "cex";
  product_type =
      if not (is_empty from.cat) && one_of (map to_lower from.cat) ("spot" ∷ [])
      then codes "spot"
      else codes "perpetual";
  symbol = fixed 32 from.sym;
  params =
      if is_empty u.exchange_order_id
      then []
      else (insert env.bounds.params_max (codes "exchange_order_id") (fixed 64 u.exchange_order_id)
          []).0;
}

unfoldable pub rehydrate : Env → OrderUpdate → Origin → Engine → Engine
rehydrate env u from e =
    if is_empty from.sym
    then e
    else let (p, cell) = allocate e.order_pool in
      elim cell [
        | none ↦ e
        | some idx ↦ record e {
          order_pool = p;
          orders = store e.orders idx (placeholder env u from);
          pending = (insert env.bounds.pending_max (fixed 64 u.client_order_id) idx e.pending).0;
        }
      ]

-- `pending_orders_->erase(cl_id); order_pool_->deallocate(*order_ptr);` where order_ptr points at
-- the value `idx` of the entry. The pointer is read after the erasure has moved the entries behind
-- it one place down, so it shows the next entry's value, or still its own if there was none.
unfoldable pub shown_after_erase : Bytes → ℕ → List (Bytes × ℕ) → ℕ
unfolding lower_bound erase
shown_after_erase id idx m = elim (get_elem? (erase id m).0 (lower_bound id m)) [
  | none ↦ idx
  | some entry ↦ entry.1
]

unfoldable pub clean_up : Bytes → ℕ → Engine → Engine
unfolding shown_after_erase
clean_up id idx e = record e {
  order_pool = deallocate e.order_pool (some (shown_after_erase id idx e.pending));
  pending = (erase id e.pending).0;
}

-- The report on a tracked order, and the end of a terminal one. An empty report pool ends the call.
unfoldable pub report_tracked : Env → OrderUpdate → Bytes → ℕ → Engine → Engine
report_tracked env u status idx e =
    let (p, cell) = allocate e.report_pool in
    elim cell [
      | none ↦ e
      | some slot ↦
          let order = e.orders idx in
          let r = update_report env u status (with_venue env order.venue order.tags) in
          let sent = publish_execution_report env r (record e { report_pool = p }) in
          let freed = record sent { report_pool = deallocate sent.report_pool (some slot) } in
          if is_terminal_status u.status
          then clean_up (fixed 64 u.client_order_id) idx freed
          else freed
    ]

-- From where the order is known. A confirmation of an order that was tracked before is skipped.
unfoldable pub update_tracked : Env → OrderUpdate → Bool → ℕ → Engine → Engine
update_tracked env u was_tracked idx e = elim (normalize_report_status u.status) [
  | none ↦ e
  | some status ↦
      if str_eq status (codes "accepted") && was_tracked
      then e
      else report_tracked env u status idx e
]

unfoldable pub update_untracked : Env → OrderUpdate → Engine → Engine
update_untracked env u e =
    if is_terminal_status u.status then report_untracked env u e else elim (find_origin env u) [
      | none ↦ e
      | some from ↦
          let e' = rehydrate env u from e in
          elim (find (fixed 64 u.client_order_id) e'.pending) [
            | none ↦ e'
            | some idx ↦ update_tracked env u false idx e'
          ]
    ]

unfoldable pub on_order_update : Env → OrderUpdate → Engine → Engine
on_order_update env u e = elim (find (fixed 64 u.client_order_id) e.pending) [
  | some idx ↦ update_tracked env u true idx e
  | none ↦ update_untracked env u e
]
