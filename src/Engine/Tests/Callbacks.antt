-- ===== src/Engine/Tests/Callbacks.antt =====
-- What the venue reports on the order "a".
use latentspeed.Prelude.{ℕ, ◌≡◌, ◌⊎◌, refl, [], ◌∷◌, map, true, none, some}
use latentspeed.Prelude.Bytes.{Bytes, codes, str_eq, str_lt, one_of, to_lower}
use latentspeed.Hft.FlatMap.{find, lower_bound, hit}
use latentspeed.Hft.FlatMap.Keys.{bytes_ord}
use latentspeed.Hft.MemoryPool.{deallocate}
use latentspeed.Hft.MemoryPool.Inv.{Inv}
use latentspeed.Hft.SpscQueue.Refine.{Models}
use latentspeed.Hft.SpscQueue.Spec.{fifo_push}
use latentspeed.Hft.Stats.{inc}
use latentspeed.Engine.Update.{OrderUpdate, on_order_update}
use latentspeed.Engine.Update.Tracked.{cancellations, canceled_update_report, update_canceled}
use latentspeed.Engine.Publish.Laws.{report_message}
use latentspeed.Engine.Fills.{FillData, has_intent, amounts, on_fill}
use latentspeed.Engine.Fills.Laws.{fill_message, on_fill_lem}
use latentspeed.Engine.Tests.{
  library, env, ring, ring-Models, engine, pool-Inv, one_left, two_pending, two_pending-IsSorted,
}

abbrev pub update_of : Bytes → OrderUpdate
update_of status = record {
  client_order_id = codes "a";
  exchange_order_id = codes "77";
  status = status;
  reason = [];
  timestamp_ms = 0;
  extra_data = [];
}

canceled_known : one_of (map to_lower (codes "Canceled")) cancellations ≡ true
unfolding to_lower one_of str_eq
canceled_known = refl

-- The end of "a" gives back the cell 1, which "b" still stands for.
update_canceled_example :
    ((on_order_update env (update_of (codes "Canceled")) two_pending).pending ≡ (codes "b", 1) ∷ [])
    × ((on_order_update env (update_of (codes "Canceled")) two_pending).order_pool
        ≡ deallocate one_left (some 1))
    × Models 4
        (on_order_update env (update_of (codes "Canceled")) two_pending).publish_queue
        (fifo_push 4
          (report_message env
            (canceled_update_report env (update_of (codes "Canceled")) (two_pending.orders 0)))
          []).0
update_canceled_example =
    update_canceled 3 env (update_of (codes "Canceled")) two_pending 0 0 (1 ∷ 2 ∷ []) []
      ((codes "b", 1) ∷ []) [] refl two_pending-IsSorted canceled_known pool-Inv ring-Models

abbrev some_fill : FillData
some_fill = record {
  client_order_id = codes "a";
  exchange_order_id = codes "77";
  exec_id = codes "5";
  symbol = codes "ETHUSDT";
  side = codes "buy";
  price = codes "1.5";
  quantity = codes "2";
  fee = codes "0";
  fee_currency = codes "USDT";
  liquidity = codes "taker";
  timestamp_ms = 0;
  extra_data = (codes "intent", codes "a") ∷ [];
}

fill_has_intent : has_intent some_fill ≡ true
unfolding find lower_bound hit str_eq str_lt
fill_has_intent = refl

-- The three numbers can be read.
readable : amounts library some_fill ≡ some (3, 1, 1)
unfolding amounts
readable = refl

on_fill_lem_example :
    ((amounts library some_fill ≡ none)
      × Inv 3 (on_fill env some_fill engine).fill_pool (1 ∷ 2 ∷ [])
      × ((on_fill env some_fill engine).publish_queue ≡ ring))
    ⊎ ((ns : ℕ × ℕ × ℕ) × (amounts library some_fill ≡ some ns)
        × Inv 3 (on_fill env some_fill engine).fill_pool (0 ∷ 1 ∷ 2 ∷ [])
        × Models 4
            (on_fill env some_fill engine).publish_queue
            (fifo_push 4 (fill_message env some_fill engine ns) []).0
        × ((on_fill env some_fill engine).stats.fills_received ≡ inc engine.stats.fills_received))
on_fill_lem_example =
    on_fill_lem 3 env some_fill engine 0 (1 ∷ 2 ∷ []) [] fill_has_intent pool-Inv ring-Models
