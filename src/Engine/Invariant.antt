-- ===== src/Engine/Invariant.antt =====
-- The two maps of the engine, pending_orders_ and processed_orders_, through the handlers.
use latentspeed.Prelude.{
  sym, subst, map, not, ◌&&◌, ◌||◌, Option, none, if◌then◌else◌, if_ind, inl, inr, Option-cases,
}
use latentspeed.Prelude.Bytes.{Bytes, codes, is_empty, to_lower}
use latentspeed.Dispatch.{ActionKind, place, cancel, replace, unknown, decode_action}
use latentspeed.Hft.FlatMap.{find}
use latentspeed.Hft.FlatMap.Keys.{bytes_ord}
use latentspeed.Hft.MemoryPool.{allocate}
use latentspeed.Hft.FlatMap.Fits.{Fits, insert-Fits, erase-Fits}
use latentspeed.Engine.Types.{fixed, Order, OrderResponse, Adapter, Env, Engine}
use latentspeed.Engine.Text.{
  get_adapter, normalize_venue_key, failure_code, network_phrases, is_alpha,
}
use latentspeed.Engine.Publish.{send_report, send_acceptance, send_rejection}
use latentspeed.Engine.Publish.Laws.{
  Kept, send_report-Kept, send_acceptance-Kept, send_rejection-Kept,
}
use latentspeed.Engine.Place.{
  place_request, note_intent, keeps_pending, keep_pending, place_answer, place_order,
  place_failure_code,
}
use latentspeed.Engine.Cancel.{
  find_value, is_missing, canceled_report, drop_pending, cancel_done, cancel_answer, cancel_order,
  cancel_symbol, cancel_exchange_id,
}
use latentspeed.Engine.Replace.{new_value, replace_answer, replace_order}
use latentspeed.Engine.Process.{
  handle, is_duplicate, dispatch, process, mark_processed, with_latency, elapsed,
}
use latentspeed.Engine.Process.Laws.{Checked-cases, Outcome-cases}

-- Both maps are within their capacities and in the order of their keys.
abbrev pub MapsFit : Env → Engine → Type 0
MapsFit env e = Fits env.bounds.pending_max e.pending × Fits env.bounds.processed_max e.processed

module _ (env : Env) (order : Order) where
  kept : (e e' : Engine) → Kept e e' → MapsFit env e → MapsFit env e'
  kept e e' k (p, q) = (
    subst (Fits env.bounds.pending_max) (sym k.pending) p,
    subst (Fits env.bounds.processed_max) (sym k.processed) q,
  )

  rejected :
      (code text : Bytes) (e : Engine)
      → MapsFit env e
      → MapsFit env (send_rejection env order code text e)
  rejected code text e = kept e _ (send_rejection-Kept env order code text e)

  accepted :
      (id : Option Bytes) (text : Bytes) (e : Engine)
      → MapsFit env e
      → MapsFit env (send_acceptance env order id text e)
  accepted id text e = kept e _ (send_acceptance-Kept env order id text e)

  keep_pending-MapsFit :
      (id : Option Bytes) (e : Engine) → MapsFit env e → MapsFit env (keep_pending env order id e)
  unfolding keep_pending
  keep_pending-MapsFit id e (p, q) = elim (Option-cases (allocate e.order_pool).1) [
    | inl h ↦ rw (keep_pending, h) (p, q)
    | inr (x, h) ↦
        rw (keep_pending, h) (insert-Fits env.bounds.pending_max order.cl_id x e.pending p, q)
  ]

  note_intent-MapsFit :
      (adapter : Adapter) (e : Engine) → MapsFit env e → MapsFit env (note_intent adapter order e)
  unfolding note_intent
  note_intent-MapsFit adapter e v = elim (Option-cases (find (codes "intent_id") order.tags)) [
    | inl h ↦ rw (note_intent, h) v
    | inr (x, h) ↦
        rw (note_intent, h) (if_ind (MapsFit env) (adapter.is_hyperliquid && not (is_empty x)) v v)
  ]

  place_answer-MapsFit :
      (response : OrderResponse) (e : Engine)
      → MapsFit env e
      → MapsFit env (place_answer env order response e)
  unfolding place_answer
  place_answer-MapsFit response e v =
      if_ind (MapsFit env) response.success
        (accepted response.exchange_order_id response.message
          (if keeps_pending order response
            then keep_pending env order response.exchange_order_id e
            else e)
          (if_ind (MapsFit env) (keeps_pending order response)
            (keep_pending-MapsFit response.exchange_order_id e v) v))
        (rejected (place_failure_code response.message) response.message e v)

  place_order-MapsFit : (e : Engine) → MapsFit env e → MapsFit env (place_order env order e)
  unfolding place_order
  place_order-MapsFit e v = elim (Checked-cases (place_request env order)) [
    | inr (code, text, h) ↦ rw (place_order, h) (rejected code text e v)
    | inl ((adapter, req), h) ↦
        let e' = note_intent adapter order e in
        let w = note_intent-MapsFit adapter e v in
        elim (Outcome-cases (adapter.place_order req)) [
          | inr (what, o) ↦ rw (place_order, h, o) (rejected (codes "network_error") what e' w)
          | inl (response, o) ↦ rw (place_order, h, o) (place_answer-MapsFit response e' w)
        ]
  ]

  drop_pending-MapsFit : (id : Bytes) (e : Engine) → MapsFit env e → MapsFit env (drop_pending id e)
  unfolding drop_pending
  drop_pending-MapsFit id e (p, q) = elim (Option-cases (find id e.pending)) [
    | inl h ↦ rw (drop_pending, h) (p, q)
    | inr (x, h) ↦ rw (drop_pending, h) (erase-Fits env.bounds.pending_max id e.pending p, q)
  ]

  cancel_answer-MapsFit :
      (id : Bytes) (response : OrderResponse) (e : Engine)
      → MapsFit env e
      → MapsFit env (cancel_answer env order id response e)
  unfolding cancel_answer cancel_done
  cancel_answer-MapsFit id response e v =
      let text =
        if is_empty response.message then codes "Cancel request sent" else response.message in
      let acked = send_acceptance env order response.exchange_order_id text e in
      let told = send_report env (canceled_report env acked id response) acked in
      if_ind (MapsFit env) (response.success || is_missing response)
        (drop_pending-MapsFit id told (
          kept acked told (send_report-Kept env (canceled_report env acked id response) acked)
            (accepted response.exchange_order_id text e v)))
        (rejected (failure_code response.message network_phrases (codes "cancel_rejected"))
          response.message e v)

  cancel_order-MapsFit : (e : Engine) → MapsFit env e → MapsFit env (cancel_order env order e)
  unfolding cancel_order
  cancel_order-MapsFit e v =
      elim (Option-cases (get_adapter (normalize_venue_key order.venue) env.router)) [
        | inl h ↦ rw (cancel_order, h) (rejected _ _ e v)
        | inr (adapter, h) ↦
            elim (Option-cases (find_value order (codes "cancel_cl_id_to_cancel"))) [
              | inl m ↦ rw (cancel_order, h, m) (rejected _ _ e v)
              | inr (id, m) ↦
                  let symbol = cancel_symbol e order id in
                  let venue_id = cancel_exchange_id e order id in
                  elim (Outcome-cases (adapter.cancel_order id symbol venue_id)) [
                    | inr (what, o) ↦
                        rw (cancel_order, h, m, o) (rejected (codes "network_error") what e v)
                    | inl (response, o) ↦
                        rw (cancel_order, h, m, o)
                          (cancel_answer-MapsFit (fixed 64 id) response e v)
                  ]
            ]
      ]

  replace_answer-MapsFit :
      (response : OrderResponse) (e : Engine)
      → MapsFit env e
      → MapsFit env (replace_answer env order response e)
  unfolding replace_answer
  replace_answer-MapsFit response e v =
      if_ind (MapsFit env) response.success (accepted none (codes "Order modified") e v) (
        rejected (failure_code response.message network_phrases (codes "modify_rejected"))
          response.message e v)

  replace_order-MapsFit : (e : Engine) → MapsFit env e → MapsFit env (replace_order env order e)
  unfolding replace_order
  replace_order-MapsFit e v =
      elim (Option-cases (get_adapter (normalize_venue_key order.venue) env.router)) [
        | inl h ↦ rw (replace_order, h) (rejected _ _ e v)
        | inr (adapter, h) ↦
            elim (Option-cases (find_value order (codes "replace_cl_id_to_replace"))) [
              | inl m ↦ rw (replace_order, h, m) (rejected _ _ e v)
              | inr (id, m) ↦
                  let size = new_value env.library order (codes "replace_new_size") order.size in
                  let price = new_value env.library order (codes "replace_new_price") order.price in
                  elim (Outcome-cases (adapter.modify_order id size price)) [
                    | inr (what, o) ↦
                        rw (replace_order, h, m, o) (rejected (codes "network_error") what e v)
                    | inl (response, o) ↦
                        rw (replace_order, h, m, o) (replace_answer-MapsFit response e v)
                  ]
            ]
      ]

  handle-MapsFit :
      (kind : ActionKind) (e : Engine) → MapsFit env e → MapsFit env (handle kind env order e)
  unfolding handle
  handle-MapsFit place e v = place_order-MapsFit e v
  handle-MapsFit cancel e v = cancel_order-MapsFit e v
  handle-MapsFit replace e v = replace_order-MapsFit e v
  handle-MapsFit unknown e v = v

  handled :
      (kind : ActionKind) (e : Engine)
      → MapsFit env e
      → MapsFit env (
          if is_duplicate kind order e
          then e
          else with_latency
              (elapsed env.clock.process_start env.clock.process_end)
              (handle kind env order (mark_processed env order e)))
  handled kind e v = if_ind (MapsFit env) (is_duplicate kind order e) v (
      handle-MapsFit kind (mark_processed env order e)
        (v.0, insert-Fits env.bounds.processed_max order.cl_id env.clock.current e.processed v.1))

  dispatch-MapsFit :
      (kind : ActionKind) (e : Engine) → MapsFit env e → MapsFit env (dispatch kind env order e)
  unfolding dispatch
  dispatch-MapsFit unknown e v = rejected _ _ e v
  dispatch-MapsFit place e v = handled place e v
  dispatch-MapsFit cancel e v = handled cancel e v
  dispatch-MapsFit replace e v = handled replace e v

  -- Whatever an order says and whatever the venue answers, processing it keeps the map of pending
  -- orders and that of processed orders within their capacities and in the order of their keys.
  pub process-MapsFit : (e : Engine) → MapsFit env e → MapsFit env (process env order e)
  unfolding process
  process-MapsFit e v = if_ind (MapsFit env) (is_empty order.action) (rejected _ _ e v) (
      if_ind (MapsFit env) (not (is_alpha order.action)) (rejected _ _ e v)
        (dispatch-MapsFit (decode_action (map to_lower order.action)) e v))
