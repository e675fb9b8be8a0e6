-- ===== src/Engine/Update/Tracked.antt =====
-- What the venue's word on an order that is tracked does to the engine.
use Prim.Native.String.{String}
use latentspeed.Prelude.{
  ℕ, ◌≡◌, refl, sym, ap, ◌∙◌, subst, List, [], ◌∷◌, ◌++◌, map, true, Option, some, get_elem?,
}
use latentspeed.Prelude.Bytes.{Bytes, codes, str_eq, str_eq_refl, one_of, one_of_ind, to_lower}
use latentspeed.Hft.FlatMap.{find, hit}
use latentspeed.Hft.FlatMap.Keys.{bytes_ord}
use latentspeed.Hft.FlatMap.Spec.{IsSorted}
use latentspeed.Hft.MemoryPool.{Pool, allocate, deallocate}
use latentspeed.Hft.MemoryPool.Inv.{Inv}
use latentspeed.Hft.MemoryPool.Laws.{allocate_first}
use latentspeed.Hft.SpscQueue.Refine.{Models}
use latentspeed.Hft.SpscQueue.Spec.{fifo_push}
use latentspeed.Engine.Types.{fixed, Order, Report, Message, Env, Engine}
use latentspeed.Engine.Text.{normalize_report_status, is_terminal_status}
use latentspeed.Engine.Publish.{publish_execution_report, publish, with_venue}
use latentspeed.Engine.Publish.Laws.{publish-Kept, publish_queue-publish, report_message}
use latentspeed.Engine.Update.{
  OrderUpdate, on_order_update, update_tracked, report_tracked, update_report, clean_up,
}
use latentspeed.Engine.Update.Cleanup.{
  Entries, lower_bound-middle, get-middle, cell_of_next, clean_up_lem,
}

-- The status "filled" ends an order, but it is taken for a repeated acceptance of an order that is
-- tracked: nothing is reported, and the order stays pending with its cell.
pub update_filled :
    (env : Env) (u : OrderUpdate) (e : Engine) (idx : ℕ)
    → find (fixed 64 u.client_order_id) e.pending ≡ some idx
    → map to_lower u.status ≡ codes "filled"
    → (is_terminal_status u.status ≡ true) × (on_order_update env u e ≡ e)
unfolding on_order_update update_tracked normalize_report_status is_terminal_status one_of str_eq
update_filled env u e idx at filled = (
  rw (is_terminal_status, filled) refl,
  rw (on_order_update, at, update_tracked, normalize_report_status, filled) refl,
)

find-middle :
    (id : Bytes) (idx : ℕ) (pre post : Entries)
    → IsSorted (pre ++ (id, idx) ∷ post)
    → find id (pre ++ (id, idx) ∷ post) ≡ some idx
unfolding find hit
find-middle id idx pre post s =
    let m = pre ++ (id, idx) ∷ post in
    ap (λ i. hit id (get_elem? m i)) (lower_bound-middle id idx pre post s)
    ∙ rw (get-middle id idx pre post, str_eq_refl id) refl

-- The words of the venues for a cancellation that ends an order.
abbrev pub cancellations : List String
cancellations = "cancelled" ∷ "canceled" ∷ "partiallyfilledcancelled" ∷ []

canceled_word :
    (status : Bytes)
    → one_of (map to_lower status) cancellations ≡ true
    → (normalize_report_status status ≡ some (codes "canceled"))
      × (is_terminal_status status ≡ true)
unfolding normalize_report_status is_terminal_status one_of str_eq
canceled_word status known =
    one_of_ind
      (λ w.
        (s : Bytes)
        → map to_lower s ≡ w
        → (normalize_report_status s ≡ some (codes "canceled")) × (is_terminal_status s ≡ true))
      (map to_lower status) cancellations
      (
        λ s e. (rw (normalize_report_status, e) refl, rw (is_terminal_status, e) refl),
        (
          λ s e. (rw (normalize_report_status, e) refl, rw (is_terminal_status, e) refl),
          (λ s e. (rw (normalize_report_status, e) refl, rw (is_terminal_status, e) refl), tt),
        ),
      )
      known status refl

-- The report on a tracked order that was canceled.
abbrev pub canceled_update_report : Env → OrderUpdate → Order → Report
canceled_update_report env u order =
    update_report env u (codes "canceled") (with_venue env order.venue order.tags)

-- A cancellation by the venue, in any of its three words and any case of letters, ends a tracked
-- order, with a cell to spare for the report. The report, with the status "canceled", is added to
-- the queue unless that is full. The entry of the order goes, but the cell that is given back is
-- that of the entry behind it, which stays pending. Only the last entry gives back its own cell.
pub update_canceled :
    (n : ℕ) (env : Env) (u : OrderUpdate) (e : Engine) (idx x : ℕ) (fs : List ℕ)
    (pre post : Entries) (ms : List Message)
    → e.pending ≡ pre ++ (fixed 64 u.client_order_id, idx) ∷ post
    → IsSorted e.pending
    → one_of (map to_lower u.status) cancellations ≡ true
    → Inv n e.report_pool (x ∷ fs)
    → Models env.bounds.queue_slots e.publish_queue ms
    → ((on_order_update env u e).pending ≡ pre ++ post)
      × ((on_order_update env u e).order_pool
          ≡ deallocate e.order_pool (some (cell_of_next idx post)))
      × Models env.bounds.queue_slots
          (on_order_update env u e).publish_queue
          (fifo_push env.bounds.queue_slots
            (report_message env (canceled_update_report env u (e.orders idx)))
            ms).0
unfolding on_order_update update_tracked report_tracked publish_execution_report str_eq clean_up
update_canceled n env u e idx x fs pre post ms entries sorted canceled v c =
    let id = fixed 64 u.client_order_id in
    let (norm, ends) = canceled_word u.status canceled in
    let at = ap (find id) entries ∙ find-middle id idx pre post (subst IsSorted entries sorted) in
    let h = ap (λ (a : Pool × Option ℕ). a.1) (allocate_first n e.report_pool x fs v) in
    let r = canceled_update_report env u (e.orders idx) in
    let taken : Engine = record e { report_pool = (allocate e.report_pool).0 } in
    let sent = publish env (report_message env r) taken in
    let k = publish-Kept env (report_message env r) taken in
    let freed : Engine = record sent { report_pool = deallocate sent.report_pool (some x) } in
    let done : on_order_update env u e ≡ clean_up id idx freed =
      rw (on_order_update, at, update_tracked, norm, report_tracked, h, ends) refl in
    let (pending, pool) =
      clean_up_lem id idx freed pre post (k.pending ∙ entries)
        (subst IsSorted (sym k.pending) sorted) in
    (
      ap (λ (s : Engine). s.pending) done ∙ pending,
      ap (λ (s : Engine). s.order_pool) done
          ∙ pool
          ∙ ap (λ p. deallocate p (some (cell_of_next idx post))) k.order_pool,
      subst
          (λ (s : Engine).
            Models env.bounds.queue_slots s.publish_queue
              (fifo_push env.bounds.queue_slots (report_message env r) ms).0)
          (sym done) (publish_queue-publish env (report_message env r) taken ms c),
    )
