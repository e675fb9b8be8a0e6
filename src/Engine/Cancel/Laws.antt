-- ===== src/Engine/Cancel/Laws.antt =====
-- cancel_cex_order_hft, for the order that is canceled.
use latentspeed.Prelude.{
  [], map, ◌⊎◌, inl, inr, refl, Bool, Bool-cases, true, false, ◌||◌, ℕ, ◌<◌, ◌≡◌, sym, ap, ◌∙◌,
  subst, List, ◌∷◌, none, some, if◌then◌else◌, get_or,
}
use latentspeed.Prelude.Bytes.{Bytes, codes, str_eq, is_empty, to_lower}
use latentspeed.Hft.FlatMap.{find}
use latentspeed.Hft.FlatMap.Keys.{bytes_ord}
use latentspeed.Hft.FlatMap.Spec.{IsSorted}
use latentspeed.Hft.FlatMap.Laws.{erase_lem}
use latentspeed.Hft.MemoryPool.{Pool, deallocate}
use latentspeed.Hft.MemoryPool.Inv.{Inv}
use latentspeed.Hft.MemoryPool.Laws.{release-Inv}
use latentspeed.Engine.Types.{fixed, Order, OrderResponse, returned, Adapter, Env, Engine}
use latentspeed.Engine.Text.{
  normalize_venue_key, get_adapter, mentions, failure_code, network_phrases,
}
use latentspeed.Engine.Publish.Laws.{
  Kept-trans, send_acceptance-Kept, send_rejection-Kept, send_report-Kept,
}
use latentspeed.Engine.Publish.{send_acceptance, send_rejection, send_report}
use latentspeed.Engine.Cancel.{
  drop_pending, cancel_done, canceled_report, is_missing, find_value, cancel_symbol,
  cancel_exchange_id, cancel_answer, cancel_order,
}

drop_pending_lem :
    (n : ℕ) (id : Bytes) (idx : ℕ) (fs : List ℕ) (e : Engine)
    → find id e.pending ≡ some idx
    → IsSorted e.pending
    → Inv n e.order_pool fs
    → idx < n
    → get_or e.order_pool.state idx 1 ≡ 0
    → Inv n (drop_pending id e).order_pool (idx ∷ fs)
      × IsSorted (drop_pending id e).pending
      × ((i : Bytes)
          → find i (drop_pending id e).pending ≡ (if str_eq id i then none else find i e.pending))
unfolding drop_pending deallocate
drop_pending_lem n id idx fs e at s v h taken =
    let (sorted, _, _, at_key) = erase_lem id e.pending s in
    rw (drop_pending, at) (release-Inv n e.order_pool idx fs v h taken, sorted, at_key)

cancel_done_lem :
    (n : ℕ) (env : Env) (order : Order) (id : Bytes) (response : OrderResponse) (idx : ℕ)
    (fs : List ℕ) (e : Engine)
    → find id e.pending ≡ some idx
    → IsSorted e.pending
    → Inv n e.order_pool fs
    → idx < n
    → get_or e.order_pool.state idx 1 ≡ 0
    → Inv n (cancel_done env order id response e).order_pool (idx ∷ fs)
      × IsSorted (cancel_done env order id response e).pending
      × ((i : Bytes)
          → find i (cancel_done env order id response e).pending
            ≡ (if str_eq id i then none else find i e.pending))
unfolding cancel_done
cancel_done_lem n env order id response idx fs e at s v h taken =
    let text =
      if is_empty response.message then codes "Cancel request sent" else response.message in
    let acked = send_acceptance env order response.exchange_order_id text e in
    let report = canceled_report env acked id response in
    let k =
      Kept-trans e acked (send_report env report acked)
        (send_acceptance-Kept env order response.exchange_order_id text e)
        (send_report-Kept env report acked) in
    let (pool, sorted, entries) =
      drop_pending_lem n id idx fs (send_report env report acked) (ap (find id) k.pending ∙ at)
        (subst IsSorted (sym k.pending) s) (subst (λ p. Inv n p fs) (sym k.order_pool) v) h
        (ap (λ (p : Pool). get_or p.state idx 1) k.order_pool ∙ taken) in
    (pool, sorted, λ i. entries i ∙ ap (λ m. if str_eq id i then none else find i m) k.pending)

-- The venue accepts the cancel, or its message says that it does not know the order.
abbrev pub is_over : OrderResponse → Bool
is_over response =
    response.success
    || mentions (map to_lower response.message)
        ("does not exist" ∷ "not exists" ∷ "not found" ∷ "unknown order" ∷ [])

over_branch :
    (response : OrderResponse) → (response.success || is_missing response) ≡ is_over response
unfolding is_missing
over_branch response = elim (Bool-cases response.success) [ inl e ↦ rw e refl | inr e ↦ rw e refl ]

-- Where the pending orders are sorted and the pool of orders is well-formed, a cancel that the venue
-- accepts, or that it refuses with a message that says that it does not know the order, takes exactly that order, which was pending with an allocated cell, out of the pending
-- ones, and gives exactly its cell back to the pool. After any other refusal the pending orders and
-- the pool are as before.
pub cancel_order_drops :
    (n : ℕ) (env : Env) (order : Order) (adapter : Adapter) (id : Bytes) (response : OrderResponse)
    (idx : ℕ) (fs : List ℕ) (e : Engine)
    → get_adapter (normalize_venue_key order.venue) env.router ≡ some adapter
    → find_value order (codes "cancel_cl_id_to_cancel") ≡ some id
    → adapter.cancel_order id (cancel_symbol e order id) (cancel_exchange_id e order id)
      ≡ returned response
    → find (fixed 64 id) e.pending ≡ some idx
    → IsSorted e.pending
    → Inv n e.order_pool fs
    → idx < n
    → get_or e.order_pool.state idx 1 ≡ 0
    → ((is_over response ≡ true)
        × Inv n (cancel_order env order e).order_pool (idx ∷ fs)
        × IsSorted (cancel_order env order e).pending
        × ((i : Bytes)
            → find i (cancel_order env order e).pending
              ≡ (if str_eq (fixed 64 id) i then none else find i e.pending)))
      ⊎ ((is_over response ≡ false)
          × ((cancel_order env order e).pending ≡ e.pending)
          × ((cancel_order env order e).order_pool ≡ e.order_pool))
unfolding cancel_order cancel_answer
cancel_order_drops n env order adapter id response idx fs e venue named answer at s v h taken =
    let same = over_branch response in
    elim (Bool-cases (is_over response)) [
      | inl t ↦
          let done : cancel_order env order e ≡ cancel_done env order (fixed 64 id) response e =
            rw (cancel_order, venue, named, answer) (rw (cancel_answer, same, t) refl) in
          let (pool, sorted, entries) =
            cancel_done_lem n env order (fixed 64 id) response idx fs e at s v h taken in
          inl (t, rw done pool, rw done sorted, rw done entries)
      | inr f ↦
          let code = failure_code response.message network_phrases (codes "cancel_rejected") in
          let done : cancel_order env order e ≡ send_rejection env order code response.message e =
            rw (cancel_order, venue, named, answer) (rw (cancel_answer, same, f) refl) in
          let k = send_rejection-Kept env order code response.message e in
          inr (f, rw done k.pending, rw done k.order_pool)
    ]
