-- ===== src/Engine/Process/Laws.antt =====
-- process_execution_order_hft for a PLACE that comes twice, and the cell that a message takes.
use latentspeed.Prelude.{
  ℕ, ◌<◌, ◌≡◌, refl, ap, subst, ◌∙◌, List, ◌∷◌, map, true, false, not, ◌&&◌, ◌||◌, Option, none,
  some, if◌then◌else◌, Bool-cases, Option-cases, if_ind, ◌⊎◌, inl, inr, arith, length,
}
use latentspeed.Prelude.Bytes.{Bytes, codes, is_empty, is_some, to_lower, str_eq_refl}
use latentspeed.Dispatch.{place, decode_action}
use latentspeed.Hft.FlatMap.{find}
use latentspeed.Hft.FlatMap.Keys.{bytes_ord}
use latentspeed.Hft.FlatMap.Spec.{IsSorted}
use latentspeed.Hft.FlatMap.Laws.{insert_lem}
use latentspeed.Hft.MemoryPool.{Pool, allocate}
use latentspeed.Hft.MemoryPool.Inv.{Inv}
use latentspeed.Hft.MemoryPool.Laws.{allocate_first, allocate-Inv, give_back}
use latentspeed.Engine.Types.{
  Order, OrderResponse, Outcome, returned, thrown, Adapter, Message, Env, Engine, store,
}
use latentspeed.Hft.Stats.{inc}
use latentspeed.Hft.SpscQueue.Refine.{Models}
use latentspeed.Hft.SpscQueue.Spec.{fifo_push}
use latentspeed.Engine.Publish.{rejection_report, send_rejection}
use latentspeed.Engine.Text.{is_alpha}
use latentspeed.Engine.Publish.Laws.{
  Kept, report_message, send_report_lem, send_rejection-Kept, send_acceptance-Kept,
}
use latentspeed.Engine.Place.{
  Checked, pass, refuse, place_request, place_failure_code, note_intent, keeps_pending,
  keep_pending, place_answer, place_order,
}
use latentspeed.Engine.Parse.{ExecParsed, fill_order}
use latentspeed.Engine.Process.{
  handle, is_duplicate, dispatch, process, receive, mark_processed, with_latency, elapsed,
}

keep_pending-processed :
    (env : Env) (order : Order) (id : Option Bytes) (e : Engine)
    → (keep_pending env order id e).processed ≡ e.processed
unfolding keep_pending
keep_pending-processed env order id e = elim (Option-cases (allocate e.order_pool).1) [
  | inl h ↦ rw (keep_pending, h) refl
  | inr (x, h) ↦ rw (keep_pending, h) refl
]

note_intent-processed :
    (adapter : Adapter) (order : Order) (e : Engine)
    → (note_intent adapter order e).processed ≡ e.processed
unfolding note_intent
note_intent-processed adapter order e = elim (Option-cases (find (codes "intent_id") order.tags)) [
  | inl h ↦ rw (note_intent, h) refl
  | inr (x, h) ↦
      rw (note_intent, h)
        (elim (Bool-cases (adapter.is_hyperliquid && not (is_empty x))) [
          | inl t ↦ rw t refl
          | inr f ↦ rw f refl
        ])
]

place_answer-processed :
    (env : Env) (order : Order) (response : OrderResponse) (e : Engine)
    → (place_answer env order response e).processed ≡ e.processed
unfolding place_answer
place_answer-processed env order response e =
    if_ind (λ (r : Engine). r.processed ≡ e.processed) response.success
      (Kept.processed (
          send_acceptance-Kept env order response.exchange_order_id response.message (
            if keeps_pending order response
            then keep_pending env order response.exchange_order_id e
            else e))
        ∙ if_ind (λ (r : Engine). r.processed ≡ e.processed) (keeps_pending order response)
            (keep_pending-processed env order response.exchange_order_id e) refl)
      (Kept.processed
        (send_rejection-Kept env order (place_failure_code response.message) response.message e))

pub Checked-cases :
    {A : Type 0} (c : Checked A)
    → ((a : A) × (c ≡ pass a)) ⊎ ((code : Bytes) × (text : Bytes) × (c ≡ refuse code text))
Checked-cases (pass a) = inl (a, refl)
Checked-cases (refuse code text) = inr (code, text, refl)

pub Outcome-cases :
    {A : Type 0} (o : Outcome A)
    → ((a : A) × (o ≡ returned a)) ⊎ ((what : Bytes) × (o ≡ thrown what))
Outcome-cases (returned a) = inl (a, refl)
Outcome-cases (thrown what) = inr (what, refl)

place_order-processed :
    (env : Env) (order : Order) (e : Engine) → (place_order env order e).processed ≡ e.processed
unfolding place_order
place_order-processed env order e = elim (Checked-cases (place_request env order)) [
  | inr (code, text, h) ↦
      rw (place_order, h) (Kept.processed (send_rejection-Kept env order code text e))
  | inl ((adapter, req), h) ↦
      let noted = note_intent-processed adapter order e in
      let e' = note_intent adapter order e in
      elim (Outcome-cases (adapter.place_order req)) [
        | inr (what, o) ↦
            rw (place_order, h, o)
              (Kept.processed (send_rejection-Kept env order (codes "network_error") what e')
                ∙ noted)
        | inl (response, o) ↦
            rw (place_order, h, o) (place_answer-processed env order response e' ∙ noted)
      ]
]

duplicate :
    (order : Order) (e : Engine)
    → is_some (find order.cl_id e.processed) ≡ true
    → is_some (find order.cl_id e.pending) ≡ true
    → is_duplicate place order e ≡ true
unfolding is_duplicate
duplicate order e seen left = rw (seen, left) refl

-- The branch of a PLACE that is not a duplicate.
abbrev fresh_place : Env → Order → Engine → Engine
fresh_place env order e =
    with_latency (elapsed env.clock.process_start env.clock.process_end)
      (place_order env order (mark_processed env order e))

process-place :
    (env : Env) (order : Order) (e : Engine)
    → is_empty order.action ≡ false
    → is_alpha order.action ≡ true
    → decode_action (map to_lower order.action) ≡ place
    → process env order e ≡ (if is_duplicate place order e then e else fresh_place env order e)
unfolding process dispatch handle
process-place env order e named alpha kind = rw (process, named, alpha, kind) refl

-- The identifier is on the map of processed orders afterwards.
fresh_place-seen :
    (env : Env) (order : Order) (e : Engine)
    → IsSorted e.processed
    → length e.processed < env.bounds.processed_max
    → is_some (find order.cl_id (fresh_place env order e).processed) ≡ true
fresh_place-seen env order e sorted room =
    let kept = place_order-processed env order (mark_processed env order e) in
    elim (insert_lem env.bounds.processed_max order.cl_id env.clock.current e.processed sorted) [
      | inl (full, _) ↦ absurd (omega (arith, full, room))
      | inr (_, _, _, _, entries) ↦ rw (kept, entries order.cl_id, str_eq_refl order.cl_id) refl
    ]

-- A PLACE that left a pending order behind is not sent again: to process it a second time while
-- that order is pending changes nothing, provided that the map of processed orders, which must be
-- sorted, had room for its identifier.
pub process_twice :
    (env : Env) (order : Order) (e : Engine)
    → is_empty order.action ≡ false
    → is_alpha order.action ≡ true
    → decode_action (map to_lower order.action) ≡ place
    → IsSorted e.processed
    → length e.processed < env.bounds.processed_max
    → is_some (find order.cl_id (process env order e).pending) ≡ true
    → process env order (process env order e) ≡ process env order e
process_twice env order e named alpha kind sorted room left =
    let once = process-place env order e named alpha kind in
    elim (Bool-cases (is_duplicate place order e)) [
      | inl d ↦
          let same : process env order e ≡ e = rw (once, d) refl in ap (process env order) same
      | inr nd ↦
          let sent : process env order e ≡ fresh_place env order e = rw (once, nd) refl in
          let seen =
            ap (λ (r : Engine). is_some (find order.cl_id r.processed)) sent
            ∙ fresh_place-seen env order e sorted room in
          rw
            (
              process-place env order (process env order e) named alpha kind,
              duplicate order (process env order e) seen left,
            )
            refl
    ]

-- The code of an action that is no word.
abbrev pub action_fault : Order → Bytes
action_fault order =
    if is_empty order.action then codes "missing_action" else codes "invalid_action"

process_turned_away :
    (env : Env) (order : Order) (e : Engine)
    → (is_empty order.action || not (is_alpha order.action)) ≡ true
    → (text : Bytes) × (process env order e ≡ send_rejection env order (action_fault order) text e)
unfolding process
process_turned_away env order e bad = elim (Bool-cases (is_empty order.action)) [
  | inl t ↦ (codes "Action is required", rw (process, t) refl)
  | inr f ↦
      let odd : not (is_alpha order.action) ≡ true =
        subst (λ b. (b || not (is_alpha order.action)) ≡ true) f bad in
      (codes "Action contains invalid characters", rw (process, f, odd) refl)
]

-- A message that cannot be parsed gives its cell back. An order whose action is missing or is no
-- word is rejected, with a cell to spare for the report: the rejection, with the code for the one or
-- the other, is added to the queue unless that is full. Nothing is pending for the order, but its
-- cell is not given back: the pool of orders has one cell less.
pub receive_lem :
    (n : ℕ) (env : Env) (parsed : ExecParsed) (e : Engine) (x : ℕ) (fs : List ℕ) (k y : ℕ)
    (gs : List ℕ) (ms : List Message)
    → Inv n e.order_pool (x ∷ fs)
    → Inv k e.report_pool (y ∷ gs)
    → Models env.bounds.queue_slots e.publish_queue ms
    → (is_empty (fill_order env parsed).action || not (is_alpha (fill_order env parsed).action))
      ≡ true
    → Inv n (receive env none e).order_pool (x ∷ fs)
      × Inv n (receive env (some parsed) e).order_pool fs
      × ((receive env (some parsed) e).pending ≡ e.pending)
      × (text : Bytes) × Models env.bounds.queue_slots
          (receive env (some parsed) e).publish_queue
          (fifo_push env.bounds.queue_slots
            (report_message env (
              rejection_report env
                (fill_order env parsed)
                (action_fault (fill_order env parsed))
                text))
            ms).0
unfolding receive send_rejection
receive_lem n env parsed e x fs m y gs ms v w c bad =
    let order = fill_order env parsed in
    let h = ap (λ (a : Pool × Option ℕ). a.1) (allocate_first n e.order_pool x fs v) in
    let seen : Engine = record e {
      stats = record e.stats { orders_received = inc e.stats.orders_received };
      order_pool = (allocate e.order_pool).0;
      orders = store e.orders x order;
    } in
    let (text, sent) = process_turned_away env order seen bad in
    let r = rejection_report env order (action_fault order) text in
    let (queue, _, k) = send_report_lem m env r seen y gs ms w c in
    (
      rw (receive, h) (give_back n e.order_pool x fs v),
      rw (receive, h, sent, k.order_pool) (allocate-Inv n e.order_pool x fs v),
      rw (receive, h, sent, k.pending) refl,
      text,
      rw (receive, h, sent) queue,
    )
