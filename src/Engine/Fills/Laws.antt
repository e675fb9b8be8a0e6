-- ===== src/Engine/Fills/Laws.antt =====
-- What becomes of a fill and of its cell, and how an identifier is read.
use latentspeed.Prelude.{
  ℕ, zero, suc, ◌+◌, ◌≡◌, ◌≢◌, ◌⊎◌, refl, ap, List, [], ◌∷◌, ◌++◌, true, Option, none, some, inl,
  inr, Option-cases, length, drop, take-append, All, arith,
}
use latentspeed.Prelude.Bytes.{Bytes, codes, starts_with, find as find_text, one_of}
use latentspeed.Hft.MemoryPool.{Pool, allocate}
use latentspeed.Hft.MemoryPool.Inv.{Inv}
use latentspeed.Hft.MemoryPool.Laws.{allocate_first, allocate-Inv, give_back}
use latentspeed.Hft.SpscQueue.Refine.{Models}
use latentspeed.Hft.SpscQueue.Spec.{fifo_push}
use latentspeed.Hft.Stats.{inc}
use latentspeed.Engine.Types.{Message, Env, Engine}
use latentspeed.Engine.Publish.{payload_text, publish_fill}
use latentspeed.Engine.Serialize.{serialize_fill_hft}
use latentspeed.Engine.Publish.Laws.{publish-pools, publish_queue-publish}
use latentspeed.Engine.Fills.{
  FillData, has_intent, amounts, make_fill, filled_order, on_fill, parse_cl_id,
}

abbrev pub fill_message : Env → FillData → Engine → ℕ × ℕ × ℕ → Message
fill_message env f e ns = record {
  topic = codes "exec.fill";
  payload = payload_text env (serialize_fill_hft (make_fill env f (filled_order f e) ns));
  timestamp_ns = env.clock.message;
}

-- With a cell to spare and an intent, a fill whose numbers can be read adds one message at the end
-- of the queue, its text cut to 2047 bytes, unless the queue is full; full or not, the fill is
-- counted and its cell is given back. If a number cannot be read, nothing is published and the cell
-- is not given back: the pool has one cell less.
pub on_fill_lem :
    (n : ℕ) (env : Env) (f : FillData) (e : Engine) (x : ℕ) (fs : List ℕ) (ms : List Message)
    → has_intent f ≡ true
    → Inv n e.fill_pool (x ∷ fs)
    → Models env.bounds.queue_slots e.publish_queue ms
    → ((amounts env.library f ≡ none)
        × Inv n (on_fill env f e).fill_pool fs
        × ((on_fill env f e).publish_queue ≡ e.publish_queue))
      ⊎ ((ns : ℕ × ℕ × ℕ) × (amounts env.library f ≡ some ns)
          × Inv n (on_fill env f e).fill_pool (x ∷ fs)
          × Models env.bounds.queue_slots
              (on_fill env f e).publish_queue
              (fifo_push env.bounds.queue_slots (fill_message env f e ns) ms).0
          × ((on_fill env f e).stats.fills_received ≡ inc e.stats.fills_received))
unfolding on_fill publish_fill
on_fill_lem n env f e x fs ms intent v c =
    let h = ap (λ (a : Pool × Option ℕ). a.1) (allocate_first n e.fill_pool x fs v) in
    let taken : Engine = record e { fill_pool = (allocate e.fill_pool).0 } in
    elim (Option-cases (amounts env.library f)) [
      | inl bad ↦ inl (
        bad,
        rw (on_fill, intent, h, bad) (allocate-Inv n e.fill_pool x fs v),
        rw (on_fill, intent, h, bad) refl,
      )
      | inr (ns, good) ↦
          let msg = fill_message env f e ns in
          let (_, pool, count) = publish-pools env msg taken in
          inr (
            ns,
            good,
            rw (on_fill, intent, h, good, pool) (give_back n e.fill_pool x fs v),
            rw (on_fill, intent, h, good) (publish_queue-publish env msg taken ms c),
            rw (on_fill, intent, h, good) (ap inc count),
          )
    ]

abbrev separator : Bytes
separator = codes "::"

find-separator :
    (base rest : Bytes)
    → All (λ c. c ≢ b':') base
    → find_text separator (base ++ b':' ∷ b':' ∷ rest) ≡ some (length base)
unfolding find_text starts_with
find-separator [] rest h = refl
find-separator (c ∷ base) rest h = ground (arith, h.0, find-separator base rest h.1)

find-no_separator : (base : Bytes) → All (λ c. c ≢ b':') base → find_text separator base ≡ none
unfolding find_text starts_with
find-no_separator [] h = refl
find-no_separator (c ∷ base) h = ground (arith, h.0, find-no_separator base h.1)

drop-separator :
    (base rest : Bytes) (k : ℕ) → k ≡ length base + 2 → drop k (base ++ b':' ∷ b':' ∷ rest) ≡ rest
drop-separator [] rest k e =
    let two : k ≡ 2 = omega (arith, e) in ap (λ j. drop j (b':' ∷ b':' ∷ rest)) two
drop-separator (c ∷ base) rest zero e = absurd (omega (arith, e))
drop-separator (c ∷ base) rest (suc k) e = drop-separator base rest k (omega (arith, e))

parse_cl_id-role :
    (base role : Bytes)
    → All (λ c. c ≢ b':') base
    → one_of role ("sl" ∷ "tp" ∷ []) ≡ true
    → parse_cl_id (base ++ b':' ∷ b':' ∷ role) ≡ (base, role)
unfolding parse_cl_id
parse_cl_id-role base role h known =
    rw
      (
        parse_cl_id,
        find-separator base role h,
        drop-separator base role (length base + 2) refl,
        known,
      )
      (ap (λ b. (b, role)) (take-append base (b':' ∷ b':' ∷ role)))

-- An identifier without a colon is that of an entry, and with the suffix of a stop-loss or of a
-- take-profit order it is read back as itself and the role.
pub parse_cl_id_lem :
    (base : Bytes)
    → All (λ c. c ≢ b':') base
    → (parse_cl_id base ≡ (base, codes "entry"))
      × (parse_cl_id (base ++ codes "::sl") ≡ (base, codes "sl"))
      × (parse_cl_id (base ++ codes "::tp") ≡ (base, codes "tp"))
unfolding parse_cl_id one_of
parse_cl_id_lem base h = (
  rw (parse_cl_id, find-no_separator base h) refl,
  parse_cl_id-role base (codes "sl") h refl,
  parse_cl_id-role base (codes "tp") h refl,
)
