-- ===== src/Engine/Process.antt =====
-- process_execution_order_hft, and one round of hft_order_receiver_thread with
-- parse_execution_order_hft. The parser of the message is the argument `parsed`.
pub mod Laws
use latentspeed.Prelude.{
  ℕ, ◌+◌, ◌-◌, ◌%◌, ◌^◌, map, Bool, true, false, not, ◌&&◌, Option, none, some, if◌then◌else◌,
}
use latentspeed.Prelude.Bytes.{Bytes, codes, is_empty, is_some, to_lower}
use latentspeed.Dispatch.{ActionKind, place, cancel, replace, unknown, decode_action}
use latentspeed.Hft.FlatMap.{find, insert}
use latentspeed.Hft.FlatMap.Keys.{bytes_ord}
use latentspeed.Hft.MemoryPool.{allocate, deallocate}
use latentspeed.Hft.Stats.{Stats, inc, update_latency}
use latentspeed.Engine.Types.{Order, Env, Engine, store}
use latentspeed.Engine.Text.{is_alpha}
use latentspeed.Engine.Publish.{send_rejection}
use latentspeed.Engine.Parse.{ExecParsed, fill_order}
use latentspeed.Engine.Place.{place_order}
use latentspeed.Engine.Cancel.{cancel_order}
use latentspeed.Engine.Replace.{replace_order}

-- The handler of an action; an unknown one has none.
unfoldable pub handle : ActionKind → Env → Order → Engine → Engine
handle place env order e = place_order env order e
handle cancel env order e = cancel_order env order e
handle replace env order e = replace_order env order e
handle unknown env order e = e

abbrev pub is_place : ActionKind → Bool
is_place place = true
is_place _ = false

-- A PLACE that was processed before and is still pending.
unfoldable pub is_duplicate : ActionKind → Order → Engine → Bool
is_duplicate kind order e =
    is_some (find order.cl_id e.processed)
    && (is_place kind && is_some (find order.cl_id e.pending))

abbrev pub with_latency : ℕ → Engine → Engine
with_latency ns e = record e { stats = update_latency e.stats ns }

abbrev pub elapsed : ℕ → ℕ → ℕ
elapsed start stop = (stop + 2 ^ 64 - start) % 2 ^ 64

abbrev pub mark_processed : Env → Order → Engine → Engine
mark_processed env order e = record e {
  processed = (insert env.bounds.processed_max order.cl_id env.clock.current e.processed).0;
}

unfoldable pub dispatch : ActionKind → Env → Order → Engine → Engine
unfolding is_duplicate
dispatch unknown env order e =
    send_rejection env order (codes "invalid_action") (codes "Unknown action") e
dispatch kind env order e =
    if is_duplicate kind order e
    then e
    else with_latency (elapsed env.clock.process_start env.clock.process_end)
        (handle kind env order (mark_processed env order e))

unfoldable pub process : Env → Order → Engine → Engine
process env order e =
    if is_empty order.action
    then send_rejection env order (codes "missing_action") (codes "Action is required") e
    else if not (is_alpha order.action)
    then send_rejection env order (codes "invalid_action")
        (codes "Action contains invalid characters") e
    else dispatch (decode_action (map to_lower order.action)) env order e

abbrev pub count_rejected : Engine → Engine
count_rejected e = record e {
  stats = record e.stats { orders_rejected = inc e.stats.orders_rejected };
}

-- One message: a cell is taken, filled from the parsed message and processed. `parsed` is what
-- parse_exec_order_json makes of the message, `none` for a failure, which gives the cell back.
unfoldable pub receive : Env → Option ExecParsed → Engine → Engine
receive env parsed e =
    let seen = record e {
      stats = record e.stats { orders_received = inc e.stats.orders_received };
    } in
    let (p, cell) = allocate seen.order_pool in
    elim cell [
      | none ↦ count_rejected (record seen {
        stats = record seen.stats { memory_pool_exhausted = inc seen.stats.memory_pool_exhausted };
      })
      | some idx ↦ elim parsed [
        | none ↦ count_rejected (record seen { order_pool = deallocate p (some idx) })
        | some fields ↦
            let order = fill_order env fields in
            let done =
              process env order
                (record seen { order_pool = p; orders = store seen.orders idx order }) in
            let timed = with_latency (elapsed env.clock.process_start env.clock.process_end) done in
            record timed {
              stats = record timed.stats { orders_processed = inc timed.stats.orders_processed };
            }
      ]
    ]
