-- ===== src/Engine/Parse/Laws.antt =====
-- The maps of an order that was just parsed.
use latentspeed.Prelude.{ℕ, [], ◌∷◌, ◌++◌, arith, if_ind}
use latentspeed.Prelude.Bytes.{Bytes, codes}
use latentspeed.Hft.FlatMap.{insert, full}
use latentspeed.Hft.FlatMap.Keys.{bytes_ord}
use latentspeed.Engine.Types.{Tags, Env}
use latentspeed.Hft.FlatMap.Fits.{Fits, insert-Fits}
use latentspeed.Engine.Parse.{ExecParsed, from_c_str, insert_all, fill_order}

insert_all-Fits :
    (max : ℕ) (prefix : Bytes) (entries m : Tags)
    → Fits max m
    → Fits max (insert_all max prefix entries m)
unfolding insert_all
insert_all-Fits max prefix [] m h = h
insert_all-Fits max prefix ((k, v) ∷ entries) m h = if_ind (Fits max) (full max m) h (
    insert_all-Fits max prefix entries
      (insert max (from_c_str 32 (prefix ++ k)) (from_c_str 64 v) m).0
      (insert-Fits max (from_c_str 32 (prefix ++ k)) (from_c_str 64 v) m h))

-- Whatever a message says, its tags and its parameters, those of its cancel and replace parts
-- included, are within the capacity of their maps and in the order of their keys, as every lookup
-- needs it.
pub fill_order_lem :
    (env : Env) (p : ExecParsed)
    → Fits env.bounds.tags_max (fill_order env p).tags
      × Fits env.bounds.params_max (fill_order env p).params
unfolding fill_order
fill_order_lem env p =
    let d = p.details in
    let max = env.bounds.params_max in
    let params = insert_all max [] d.params [] in
    (
      insert_all-Fits env.bounds.tags_max [] p.tags [] (tt, omega arith),
      insert_all-Fits max (codes "replace_") d.replace_fields
          (insert_all max (codes "cancel_") d.cancel_fields params)
          (insert_all-Fits max (codes "cancel_") d.cancel_fields params
            (insert_all-Fits max [] d.params [] (tt, omega arith))),
    )
