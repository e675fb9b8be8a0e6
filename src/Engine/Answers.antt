-- ===== src/Engine/Answers.antt =====
-- place_cex_order_hft and replace_cex_order_hft, for the reports that they send.
use latentspeed.Prelude.{
  ◌≡◌, ◌⊎◌, refl, not, ◌&&◌, Option, none, if_ind, if◌then◌else◌, inl, inr, Option-cases,
}
use latentspeed.Prelude.Bytes.{Bytes, codes, is_empty}
use latentspeed.Hft.FlatMap.{find}
use latentspeed.Hft.FlatMap.Keys.{bytes_ord}
use latentspeed.Hft.MemoryPool.{allocate}
use latentspeed.Engine.Types.{Order, OrderResponse, Report, Adapter, Env, Engine}
use latentspeed.Engine.Text.{get_adapter, normalize_venue_key, failure_code, network_phrases}
use latentspeed.Engine.Publish.{
  send_report, send_acceptance, send_rejection, acceptance_report, rejection_report,
}
use latentspeed.Engine.Place.{
  place_request, note_intent, keeps_pending, keep_pending, place_answer, place_order,
  place_failure_code,
}
use latentspeed.Engine.Cancel.{find_value}
use latentspeed.Engine.Replace.{new_value, replace_answer, replace_order}
use latentspeed.Engine.Process.Laws.{Checked-cases, Outcome-cases}

-- What is left of the publishing side before the answer: the queue and the pool of reports.
abbrev pub SameReports : Engine → Engine → Type 0
SameReports e e' = (e'.publish_queue ≡ e.publish_queue) × (e'.report_pool ≡ e.report_pool)

-- `result` is what sending one report on the order, an acceptance or a rejection, makes of an
-- engine that has sent nothing since `e`.
pub record Answered (env : Env) (order : Order) (e result : Engine) : Type 0 where
  pub report : Report
  pub before : Engine
  pub own : report.cl_id ≡ order.cl_id
  pub told : (report.status ≡ codes "accepted") ⊎ (report.status ≡ codes "rejected")
  pub quiet : SameReports e before
  pub sent : result ≡ send_report env report before

rejected :
    (env : Env) (order : Order) (code text : Bytes) (e e' : Engine)
    → SameReports e e'
    → Answered env order e (send_rejection env order code text e')
unfolding send_rejection rejection_report
rejected env order code text e e' quiet = record {
  report = rejection_report env order code text;
  before = e';
  own = refl;
  told = inr refl;
  quiet = quiet;
  sent = refl;
}

accepted :
    (env : Env) (order : Order) (id : Option Bytes) (text : Bytes) (e e' : Engine)
    → SameReports e e'
    → Answered env order e (send_acceptance env order id text e')
unfolding send_acceptance acceptance_report
accepted env order id text e e' quiet = record {
  report = acceptance_report env order id text;
  before = e';
  own = refl;
  told = inl refl;
  quiet = quiet;
  sent = refl;
}

keep_pending-SameReports :
    (env : Env) (order : Order) (id : Option Bytes) (e e' : Engine)
    → SameReports e e'
    → SameReports e (keep_pending env order id e')
unfolding keep_pending
keep_pending-SameReports env order id e e' q = elim (Option-cases (allocate e'.order_pool).1) [
  | inl h ↦ rw (keep_pending, h) q
  | inr (x, h) ↦ rw (keep_pending, h) q
]

note_intent-SameReports :
    (adapter : Adapter) (order : Order) (e : Engine) → SameReports e (note_intent adapter order e)
unfolding note_intent
note_intent-SameReports adapter order e =
    elim (Option-cases (find (codes "intent_id") order.tags)) [
      | inl h ↦ rw (note_intent, h) (refl, refl)
      | inr (x, h) ↦
          rw (note_intent, h)
            (if_ind (SameReports e) (adapter.is_hyperliquid && not (is_empty x)) (refl, refl)
              (refl, refl))
    ]

place_answer-Answered :
    (env : Env) (order : Order) (response : OrderResponse) (e e' : Engine)
    → SameReports e e'
    → Answered env order e (place_answer env order response e')
unfolding place_answer
place_answer-Answered env order response e e' q =
    if_ind (Answered env order e) response.success
      (accepted env order response.exchange_order_id response.message e
        (if keeps_pending order response
          then keep_pending env order response.exchange_order_id e'
          else e')
        (if_ind (SameReports e) (keeps_pending order response)
          (keep_pending-SameReports env order response.exchange_order_id e e' q) q))
      (rejected env order (place_failure_code response.message) response.message e e' q)

place_order-Answered :
    (env : Env) (order : Order) (e : Engine) → Answered env order e (place_order env order e)
unfolding place_order
place_order-Answered env order e = elim (Checked-cases (place_request env order)) [
  | inr (code, text, h) ↦ rw (place_order, h) (rejected env order code text e e (refl, refl))
  | inl ((adapter, req), h) ↦
      let e' = note_intent adapter order e in
      let q = note_intent-SameReports adapter order e in
      elim (Outcome-cases (adapter.place_order req)) [
        | inr (what, o) ↦
            rw (place_order, h, o) (rejected env order (codes "network_error") what e e' q)
        | inl (response, o) ↦
            rw (place_order, h, o) (place_answer-Answered env order response e e' q)
      ]
]

replace_answer-Answered :
    (env : Env) (order : Order) (response : OrderResponse) (e : Engine)
    → Answered env order e (replace_answer env order response e)
unfolding replace_answer
replace_answer-Answered env order response e =
    if_ind (Answered env order e) response.success
      (accepted env order none (codes "Order modified") e e (refl, refl))
      (rejected env order (failure_code response.message network_phrases (codes "modify_rejected"))
        response.message e e (refl, refl))

replace_order-Answered :
    (env : Env) (order : Order) (e : Engine) → Answered env order e (replace_order env order e)
unfolding replace_order
replace_order-Answered env order e =
    elim (Option-cases (get_adapter (normalize_venue_key order.venue) env.router)) [
      | inl h ↦ rw (replace_order, h) (rejected env order _ _ e e (refl, refl))
      | inr (adapter, h) ↦
          elim (Option-cases (find_value order (codes "replace_cl_id_to_replace"))) [
            | inl m ↦ rw (replace_order, h, m) (rejected env order _ _ e e (refl, refl))
            | inr (id, m) ↦
                let size = new_value env.library order (codes "replace_new_size") order.size in
                let price = new_value env.library order (codes "replace_new_price") order.price in
                elim (Outcome-cases (adapter.modify_order id size price)) [
                  | inr (what, o) ↦
                      rw (replace_order, h, m, o)
                        (rejected env order (codes "network_error") what e e (refl, refl))
                  | inl (response, o) ↦
                      rw (replace_order, h, m, o) (replace_answer-Answered env order response e)
                ]
          ]
    ]

-- Whatever the checks, the venue and its adapter do, a place and a replace each end in sending
-- exactly one report, an acceptance or a rejection under the identifier of the order, with the queue
-- and the pool of reports as they were before. (An empty pool or a full queue may still drop it.)
pub answers_lem :
    (env : Env) (order : Order) (e : Engine)
    → Answered env order e (place_order env order e)
      × Answered env order e (replace_order env order e)
answers_lem env order e = (place_order-Answered env order e, replace_order-Answered env order e)
