-- ===== src/Engine/Startup/Laws.antt =====
-- What the takeover of the open orders leaves in the map of pending orders.
use latentspeed.Prelude.{List, [], ◌∷◌, Option-cases, inl, inr}
use latentspeed.Hft.FlatMap.{find}
use latentspeed.Hft.FlatMap.Keys.{bytes_ord}
use latentspeed.Hft.FlatMap.Fits.{insert-Fits}
use latentspeed.Hft.MemoryPool.{allocate}
use latentspeed.Engine.Types.{Env, Engine}
use latentspeed.Engine.Parse.{from_c_str}
use latentspeed.Engine.Invariant.{MapsFit}
use latentspeed.Engine.Startup.{OpenOrderBrief, take_over, rehydrate_open_orders}

take_over-MapsFit :
    (env : Env) (xs : List OpenOrderBrief) (e : Engine)
    → MapsFit env e
    → MapsFit env (take_over env xs e)
unfolding take_over
take_over-MapsFit env [] e v = v
take_over-MapsFit env (x ∷ xs) e v =
    let key = from_c_str 64 x.client_order_id in
    elim (Option-cases (find key e.pending)) [
      | inr (idx, h) ↦ rw (take_over, h) (take_over-MapsFit env xs e v)
      | inl h ↦ elim (Option-cases (allocate e.order_pool).1) [
        | inl g ↦ rw (take_over, h, g) v
        | inr (idx, g) ↦
            rw (take_over, h, g)
              (take_over-MapsFit env xs _
                (insert-Fits env.bounds.pending_max key idx e.pending v.0, v.1))
      ]
    ]

-- Whatever the venue lists, the takeover keeps the map of pending orders within its capacity and
-- sorted.
rehydrate-MapsFit :
    (env : Env) (answers : List (List OpenOrderBrief)) (e : Engine)
    → MapsFit env e
    → MapsFit env (rehydrate_open_orders env answers e)
unfolding rehydrate_open_orders
rehydrate-MapsFit env [] e v = v
rehydrate-MapsFit env (answer ∷ answers) e v =
    rehydrate-MapsFit env answers (take_over env answer e) (take_over-MapsFit env answer e v)
