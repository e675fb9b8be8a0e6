-- ===== src/Engine/Publish.antt =====
-- publish_execution_report_hft, publish_fill_hft, send_acceptance_report_hft and
-- send_rejection_report_hft.
pub mod Laws
use latentspeed.Prelude.{
  ℕ, List, [], ◌∷◌, Bool, true, false, not, ◌&&◌, Option, none, some, if◌then◌else◌,
}
use latentspeed.Prelude.Bytes.{Bytes, codes, is_empty, is_some}
use latentspeed.Hft.FlatMap.{find, insert}
use latentspeed.Hft.FlatMap.Keys.{bytes_ord}
use latentspeed.Hft.MemoryPool.{allocate, deallocate}
use latentspeed.Hft.SpscQueue.{try_push}
use latentspeed.Hft.Stats.{inc}
use latentspeed.Reasons.{canonical_reason_code}
use latentspeed.Json.{Fields}
use latentspeed.Engine.Serialize.{serialize_execution_report_hft, serialize_fill_hft}
use latentspeed.Engine.Types.{fixed, Tags, Order, Report, Fill, Message, Env, Engine}

-- A full queue drops the message and counts it.
unfoldable pub publish : Env → Message → Engine → Engine
publish env msg e =
    let (q, done) = try_push env.bounds.queue_slots msg e.publish_queue in
    if done
    then record e { publish_queue = q }
    else record e { stats = record e.stats { queue_full_count = inc e.stats.queue_full_count } }

-- MAX_MESSAGE_LEN
abbrev pub max_message_len : ℕ
max_message_len = 2048

-- What the FixedString of the payload keeps of the text of a document.
abbrev pub payload_text : Env → Fields → Bytes
payload_text env doc = fixed max_message_len (env.library.write_json doc)

unfoldable pub publish_execution_report : Env → Report → Engine → Engine
publish_execution_report env r e =
    publish env
      (record {
        topic = codes "exec.report";
        payload = payload_text env (serialize_execution_report_hft r);
        timestamp_ns = env.clock.message;
      })
      e

unfoldable pub publish_fill : Env → Fill → Engine → Engine
publish_fill env f e =
    publish env
      (record {
        topic = codes "exec.fill";
        payload = payload_text env (serialize_fill_hft f);
        timestamp_ns = env.clock.message;
      })
      e

-- The tags, with the venue added where they lack it.
unfoldable pub with_venue : Env → Bytes → Tags → Tags
with_venue env venue tags =
    if not (is_some (find (codes "venue") tags)) && not (is_empty venue)
    then (insert env.bounds.tags_max (codes "venue") venue tags).0
    else tags

-- A report is taken from the pool, published and given back; an empty pool drops it silently.
unfoldable pub send_report : Env → Report → Engine → Engine
send_report env r e =
    let (p, cell) = allocate e.report_pool in
    elim cell [
      | none ↦ e
      | some idx ↦
          let sent = publish_execution_report env r (record e { report_pool = p }) in
          record sent { report_pool = deallocate sent.report_pool (some idx) }
    ]

unfoldable pub acceptance_report : Env → Order → Option Bytes → Bytes → Report
acceptance_report env order exchange_order_id message = record {
  version = 1;
  cl_id = order.cl_id;
  exchange_order_id = elim exchange_order_id [ none ↦ [] | some x ↦ fixed 64 x ];
  status = codes "accepted";
  reason_code = codes "ok";
  reason_text = fixed 128 message;
  ts_ns = env.clock.report;
  tags = with_venue env order.venue order.tags;
}

unfoldable pub rejection_report : Env → Order → Bytes → Bytes → Report
rejection_report env order reason_code reason_text = record {
  version = 1;
  cl_id = order.cl_id;
  exchange_order_id = [];
  status = codes "rejected";
  reason_code = fixed 32 (canonical_reason_code reason_code);
  reason_text = fixed 128 reason_text;
  ts_ns = env.clock.report;
  tags = with_venue env order.venue order.tags;
}

unfoldable pub send_acceptance : Env → Order → Option Bytes → Bytes → Engine → Engine
send_acceptance env order exchange_order_id message =
    send_report env (acceptance_report env order exchange_order_id message)

unfoldable pub send_rejection : Env → Order → Bytes → Bytes → Engine → Engine
send_rejection env order reason_code reason_text =
    send_report env (rejection_report env order reason_code reason_text)
