-- ===== src/Engine/Publish/Laws.antt =====
-- Publishing, for the queue, the pools and the orders.
use latentspeed.Prelude.{
  ℕ, ◌≡◌, refl, ap, ◌∙◌, subst, List, ◌∷◌, false, Option, some, Bool-cases, Option-cases, inl, inr,
  arith,
}
use latentspeed.Prelude.Bytes.{Bytes, codes}
use latentspeed.Hft.MemoryPool.{Pool, allocate, deallocate}
use latentspeed.Hft.MemoryPool.Inv.{Inv}
use latentspeed.Hft.MemoryPool.Laws.{give_back, allocate_first}
use latentspeed.Hft.SpscQueue.{Queue, try_push}
use latentspeed.Hft.SpscQueue.Spec.{fifo_push}
use latentspeed.Hft.SpscQueue.Refine.{Models, push_refines}
use latentspeed.Engine.Types.{Order, Report, Message, Env, Engine}
use latentspeed.Engine.Serialize.{serialize_execution_report_hft}
use latentspeed.Engine.Publish.{
  payload_text, publish, publish_execution_report, send_report, send_acceptance, send_rejection,
}

-- The two engines agree on the orders: on their cells, on what is pending and on what was processed.
pub record Kept (e e' : Engine) : Type 0 where
  pub order_pool : e'.order_pool ≡ e.order_pool
  pub orders : e'.orders ≡ e.orders
  pub pending : e'.pending ≡ e.pending
  pub processed : e'.processed ≡ e.processed

Kept-refl : (e : Engine) → Kept e e
Kept-refl e = record { order_pool = refl; orders = refl; pending = refl; processed = refl }

pub Kept-trans : (a b c : Engine) → Kept a b → Kept b c → Kept a c
Kept-trans a b c k l = record {
  order_pool = l.order_pool ∙ k.order_pool;
  orders = l.orders ∙ k.orders;
  pending = l.pending ∙ k.pending;
  processed = l.processed ∙ k.processed;
}

pub publish-Kept : (env : Env) (msg : Message) (e : Engine) → Kept e (publish env msg e)
unfolding publish
publish-Kept env msg e = elim (Bool-cases (try_push env.bounds.queue_slots msg e.publish_queue).1) [
  | inl t ↦ rw t (record { order_pool = refl; orders = refl; pending = refl; processed = refl })
  | inr f ↦ rw f (record { order_pool = refl; orders = refl; pending = refl; processed = refl })
]

-- The pools of reports and of fills, and the number of fills, are not touched either.
pub publish-pools :
    (env : Env) (msg : Message) (e : Engine)
    → ((publish env msg e).report_pool ≡ e.report_pool)
      × ((publish env msg e).fill_pool ≡ e.fill_pool)
      × ((publish env msg e).stats.fills_received ≡ e.stats.fills_received)
unfolding publish
publish-pools env msg e =
    elim (Bool-cases (try_push env.bounds.queue_slots msg e.publish_queue).1) [
      | inl t ↦ rw t (refl, refl, refl)
      | inr f ↦ rw f (refl, refl, refl)
    ]

try_push_refused :
    {T : Type 0} (cap : ℕ) (x : T) (q : Queue T)
    → (try_push cap x q).1 ≡ false
    → (try_push cap x q).0 ≡ q
unfolding try_push
try_push_refused cap x q f = ground (arith, f)

pub publish_queue-publish :
    (env : Env) (msg : Message) (e : Engine) (ms : List Message)
    → Models env.bounds.queue_slots e.publish_queue ms
    → Models env.bounds.queue_slots
        (publish env msg e).publish_queue
        (fifo_push env.bounds.queue_slots msg ms).0
unfolding publish
publish_queue-publish env msg e ms c =
    let cap = env.bounds.queue_slots in
    let pushed = (push_refines cap e.publish_queue ms c msg).0 in
    elim (Bool-cases (try_push cap msg e.publish_queue).1) [
      | inl t ↦ rw t pushed
      | inr f ↦ rw f (
          subst (λ q. Models cap q (fifo_push cap msg ms).0)
            (try_push_refused cap msg e.publish_queue f) pushed)
    ]

abbrev pub report_message : Env → Report → Message
report_message env r = record {
  topic = codes "exec.report";
  payload = payload_text env (serialize_execution_report_hft r);
  timestamp_ns = env.clock.message;
}

send_report_cell :
    (n : ℕ) (env : Env) (r : Report) (e : Engine) (x : ℕ) (fs : List ℕ)
    → Inv n e.report_pool (x ∷ fs)
    → send_report env r e ≡ (
        let sent =
          publish env
            (report_message env r)
            (record e { report_pool = (allocate e.report_pool).0 }) in
        record sent { report_pool = deallocate sent.report_pool (some x) })
unfolding send_report publish_execution_report
send_report_cell n env r e x fs v =
    let h = ap (λ (a : Pool × Option ℕ). a.1) (allocate_first n e.report_pool x fs v) in
    rw (send_report, h) refl

pub send_report-Kept : (env : Env) (r : Report) (e : Engine) → Kept e (send_report env r e)
unfolding send_report publish_execution_report
send_report-Kept env r e = elim (Option-cases (allocate e.report_pool).1) [
  | inl h ↦ rw (send_report, h) (Kept-refl e)
  | inr (x, h) ↦
      let k =
        publish-Kept env (report_message env r)
          (record e { report_pool = (allocate e.report_pool).0 }) in
      rw (send_report, h)
        (record {
          order_pool = k.order_pool;
          orders = k.orders;
          pending = k.pending;
          processed = k.processed;
        })
]

-- Sending a report with a cell to spare adds one message at the end of the queue, unless the queue
-- is full: the text of exactly that report, cut to 2047 bytes. It gives the cell back to the pool of reports, and leaves the
-- orders alone.
pub send_report_lem :
    (n : ℕ) (env : Env) (r : Report) (e : Engine) (x : ℕ) (fs : List ℕ) (ms : List Message)
    → Inv n e.report_pool (x ∷ fs)
    → Models env.bounds.queue_slots e.publish_queue ms
    → Models env.bounds.queue_slots
        (send_report env r e).publish_queue
        (fifo_push env.bounds.queue_slots (report_message env r) ms).0
      × Inv n (send_report env r e).report_pool (x ∷ fs)
      × Kept e (send_report env r e)
send_report_lem n env r e x fs ms v c =
    let taken = record e { report_pool = (allocate e.report_pool).0 } in
    let (pool, _, _) = publish-pools env (report_message env r) taken in
    (
      rw (send_report_cell n env r e x fs v)
          (publish_queue-publish env (report_message env r) taken ms c),
      rw (send_report_cell n env r e x fs v, pool) (give_back n e.report_pool x fs v),
      send_report-Kept env r e,
    )

pub send_rejection-Kept :
    (env : Env) (order : Order) (code text : Bytes) (e : Engine)
    → Kept e (send_rejection env order code text e)
unfolding send_rejection
send_rejection-Kept env order code text e = send_report-Kept env _ e

pub send_acceptance-Kept :
    (env : Env) (order : Order) (id : Option Bytes) (text : Bytes) (e : Engine)
    → Kept e (send_acceptance env order id text e)
unfolding send_acceptance
send_acceptance-Kept env order id text e = send_report-Kept env _ e
