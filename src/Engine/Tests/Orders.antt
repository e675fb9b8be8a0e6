-- ===== src/Engine/Tests/Orders.antt =====
-- Orders that are placed, replaced, canceled and turned away.
use latentspeed.Prelude.{
  ◌≡◌, refl, [], ◌∷◌, map, true, false, ◌⊎◌, not, ◌||◌, none, some, if◌then◌else◌, arith,
}
use latentspeed.Prelude.Bytes.{
  Bytes, codes, str_eq, str_lt, c_str, one_of, is_empty, is_some, to_lower,
}
use latentspeed.Dispatch.{place, decode_action, fnv1a_32, fnv1a_from, fnv1a_step}
use latentspeed.Hft.FlatMap.{find, insert, put, lower_bound, hit}
use latentspeed.Hft.FlatMap.Keys.{bytes_ord}
use latentspeed.Hft.FlatMap.Spec.{IsSorted}
use latentspeed.Hft.MemoryPool.{init, links_from, allocate}
use latentspeed.Hft.MemoryPool.Inv.{Inv}
use latentspeed.Hft.SpscQueue.{try_push}
use latentspeed.Hft.SpscQueue.Refine.{Models}
use latentspeed.Hft.SpscQueue.Spec.{fifo_push}
use latentspeed.Engine.Types.{Order, Adapter}
use latentspeed.Engine.Text.{normalize_venue_key, get_adapter, is_alpha}
use latentspeed.Engine.Publish.{
  rejection_report, send_report, send_acceptance, publish_execution_report, publish,
}
use latentspeed.Engine.Publish.Laws.{Kept, report_message, send_report_lem}
use latentspeed.Engine.Place.{
  place_request, place_order, note_intent, place_answer, keeps_pending, keep_pending,
}
use latentspeed.Engine.Cancel.{find_value, cancel_order}
use latentspeed.Engine.Cancel.Laws.{is_over, cancel_order_drops}
use latentspeed.Engine.Parse.{fill_order}
use latentspeed.Engine.Replace.{replace_order}
use latentspeed.Engine.Answers.{Answered, answers_lem}
use latentspeed.Engine.Process.{process, receive, dispatch, is_duplicate, handle}
use latentspeed.Engine.Process.Laws.{action_fault, process_twice, receive_lem}
use latentspeed.Engine.Parse.Laws.{fill_order_lem}
use latentspeed.Hft.FlatMap.Fits.{Fits}
use latentspeed.Engine.Invariant.{MapsFit, process-MapsFit}
use latentspeed.Engine.Tests.{
  accepted, venue, env, order, odd_message, report, ring-Models, engine, pool-Inv, one_left-Inv,
  two_pending, two_pending-IsSorted, a_pending,
}

send_report_lem_example :
    Models 4
      (send_report env report engine).publish_queue
      (fifo_push 4 (report_message env report) []).0
    × Inv 3 (send_report env report engine).report_pool (0 ∷ 1 ∷ 2 ∷ [])
    × Kept engine (send_report env report engine)
send_report_lem_example = send_report_lem 3 env report engine 0 (1 ∷ 2 ∷ []) [] pool-Inv ring-Models

odd_action :
    (is_empty (fill_order env odd_message).action
      || not (is_alpha (fill_order env odd_message).action))
    ≡ true
unfolding is_alpha fill_order c_str
odd_action = refl

receive_lem_example :
    Inv 3 (receive env none engine).order_pool (0 ∷ 1 ∷ 2 ∷ [])
    × Inv 3 (receive env (some odd_message) engine).order_pool (1 ∷ 2 ∷ [])
    × ((receive env (some odd_message) engine).pending ≡ engine.pending)
    × (text : Bytes) × Models 4
        (receive env (some odd_message) engine).publish_queue
        (fifo_push 4
          (report_message env (
            rejection_report env
              (fill_order env odd_message)
              (action_fault (fill_order env odd_message))
              text))
          []).0
receive_lem_example =
    receive_lem 3 env odd_message engine 0 (1 ∷ 2 ∷ []) 3 0 (1 ∷ 2 ∷ []) [] pool-Inv pool-Inv
      ring-Models odd_action

abbrev cancel_a : Order
cancel_a = record order {
  action = codes "cancel";
  params = (codes "cancel_cl_id_to_cancel", codes "a") ∷ [];
}

routed : get_adapter (normalize_venue_key cancel_a.venue) env.router ≡ some venue
unfolding get_adapter normalize_venue_key to_lower str_eq one_of
routed = refl

names_a : find_value cancel_a (codes "cancel_cl_id_to_cancel") ≡ some (codes "a")
unfolding find_value find lower_bound hit str_eq str_lt
names_a = refl

cancel_order_drops_example :
    ((is_over accepted ≡ true)
      × Inv 3 (cancel_order env cancel_a two_pending).order_pool (0 ∷ 2 ∷ [])
      × IsSorted (cancel_order env cancel_a two_pending).pending
      × ((i : Bytes)
          → find i (cancel_order env cancel_a two_pending).pending
            ≡ (if str_eq (codes "a") i then none else find i two_pending.pending)))
    ⊎ ((is_over accepted ≡ false)
        × ((cancel_order env cancel_a two_pending).pending ≡ two_pending.pending)
        × ((cancel_order env cancel_a two_pending).order_pool ≡ two_pending.order_pool))
cancel_order_drops_example =
    cancel_order_drops 3 env cancel_a venue (codes "a") accepted 0 (2 ∷ []) two_pending routed
      names_a refl a_pending two_pending-IsSorted one_left-Inv (omega arith) refl

order_is_place : decode_action (map to_lower order.action) ≡ place
unfolding decode_action fnv1a_32 fnv1a_from fnv1a_step to_lower
order_is_place = refl

order_is_alpha : is_alpha order.action ≡ true
unfolding is_alpha
order_is_alpha = refl

left_pending : is_some (find order.cl_id (process env order engine).pending) ≡ true
unfolding process dispatch is_duplicate handle place_order place_request note_intent place_answer
    keeps_pending keep_pending send_acceptance send_report publish_execution_report publish try_push
    allocate init links_from find insert put lower_bound hit str_eq str_lt one_of
    normalize_venue_key get_adapter is_alpha decode_action fnv1a_32 fnv1a_from fnv1a_step to_lower
left_pending = refl

process_twice_example : process env order (process env order engine) ≡ process env order engine
process_twice_example =
    process_twice env order engine refl order_is_alpha order_is_place tt (omega arith) left_pending

answers_lem_example :
    Answered env order engine (place_order env order engine)
    × Answered env order engine (replace_order env order engine)
answers_lem_example = answers_lem env order engine

fill_order_lem_example :
    Fits 8 (fill_order env odd_message).tags × Fits 12 (fill_order env odd_message).params
fill_order_lem_example = fill_order_lem env odd_message

abbrev okx : Adapter
okx = record venue { exchange_name = codes "okx" }

process-MapsFit_example : MapsFit env (process env order engine)
process-MapsFit_example = process-MapsFit env order engine ((tt, omega arith), (tt, omega arith))
