-- ===== src/Hft/SpscQueue/Refine.antt =====
-- try_push and try_pop, called one after the other, against the queue of Spec.
use native.Mathlib.Nat.{mod-eq_of_lt, add-mul-mod_self_left}
use latentspeed.Prelude.{
  ℕ, zero, suc, ◌+◌, ◌-◌, ◌*◌, ◌%◌, ◌^◌, ◌<◌, ◌≡◌, refl, ap, ◌∙◌, ◌≢◌, inl, inr, List, [], ◌∷◌,
  true, false, some, none, length, set, arith, ℕ_discrete, get_elem?-set_self, ◌==◌, test_true,
  test_false,
}
use latentspeed.Hft.SpscQueue.{Queue, try_push, try_pop, empty, size}
use latentspeed.Hft.SpscQueue.Spec.{
  Op, push, pop, Reply, pushed, popped, fifo_push, fifo_pop, fifo_run,
}
use latentspeed.Hft.SpscQueue.Window.{
  Contents, full_iff, empty_iff, Contents-tail, Contents-write, Contents-snoc, Contents-pop,
  mod_cases,
}

-- The queue holds `xs`, oldest first.
abbrev pub Models : {T : Type 0} → ℕ → Queue T → List T → Type 0
Models cap q xs = Contents cap q.buffer q.head q.tail xs

-- The calls of a producer and a consumer in the order in which they run.
unfoldable pub run : {T : Type 0} → ℕ → Queue T → List (Op T) → List (Reply T)
run cap q [] = []
run cap q (push x ∷ ops) = let (q', done) = try_push cap x q in pushed done ∷ run cap q' ops
run cap q (pop ∷ ops) = let (q', out) = try_pop cap q in popped out ∷ run cap q' ops

module _ {T : Type 0} (cap : ℕ) (q : Queue T) (xs : List T) where
  push_refused : Models cap q xs → suc (length xs) ≡ cap → (x : T) → try_push cap x q ≡ (q, false)
  unfolding try_push
  push_refused c e x = ground (arith, full_iff cap q.buffer q.head q.tail xs c)

  push_accepted :
      Models cap q xs
      → suc (length xs) ≢ cap
      → (x : T)
      → try_push cap x q
        ≡ (record q { buffer = set q.buffer q.tail x; tail = (q.tail + 1) % cap }, true)
  unfolding try_push
  push_accepted c e x = ground (arith, full_iff cap q.buffer q.head q.tail xs c)

  -- try_push refuses exactly when the specification does, and otherwise adds the item at the end.
  pub push_refines :
      Models cap q xs
      → (x : T)
      → Models cap (try_push cap x q).0 (fifo_push cap x xs).0
        × ((try_push cap x q).1 ≡ (fifo_push cap x xs).1)
  unfolding fifo_push
  push_refines c x = elim (ℕ_discrete (suc (length xs)) cap) [
    | yes e ↦ rw (push_refused c e x, test_true (suc (length xs)) cap e) (c, refl)
    | no e ↦
        let room : suc (length xs) < cap = omega (arith, c.free) in
        let wrote = Contents-write cap q.buffer q.head q.tail xs x room c in
        let there = get_elem?-set_self q.buffer q.tail x (omega (arith, c.slots, c.tail_in)) in
        rw (push_accepted c e x, test_false (suc (length xs)) cap e)
          (Contents-snoc cap (set q.buffer q.tail x) q.head q.tail xs x room there wrote, refl)
  ]

module _ {T : Type 0} (cap : ℕ) (q : Queue T) where
  pop_empty : Models cap q [] → try_pop cap q ≡ (q, none)
  unfolding try_pop
  pop_empty c = ground (arith, empty_iff cap q.buffer q.head q.tail [] c)

  pop_some :
      (x : T) (xs : List T)
      → Models cap q (x ∷ xs)
      → try_pop cap q ≡ (record q { head = (q.head + 1) % cap }, some x)
  unfolding try_pop
  pop_some x xs c = ground (arith, empty_iff cap q.buffer q.head q.tail (x ∷ xs) c, c.held)

  -- try_pop takes the oldest item, and fails exactly on the empty queue.
  pub pop_refines :
      (xs : List T)
      → Models cap q xs
      → Models cap (try_pop cap q).0 (fifo_pop xs).0 × ((try_pop cap q).1 ≡ (fifo_pop xs).1)
  unfolding fifo_pop
  pop_refines [] c = rw (pop_empty c) (c, refl)
  pop_refines (x ∷ xs) c =
      rw (pop_some x xs c) ((Contents-pop cap q.buffer q.head q.tail x xs c).1, refl)

-- No sequence of calls tells the ring from the first-in first-out queue of its items.
pub run_refines :
    {T : Type 0} (cap : ℕ) (q : Queue T) (xs : List T) (ops : List (Op T))
    → Models cap q xs
    → run cap q ops ≡ fifo_run cap xs ops
unfolding run fifo_run
run_refines cap q xs [] c = refl
run_refines cap q xs (push x ∷ ops) c =
    let (c', e) = push_refines cap q xs c x in
    rw (e, run_refines cap (try_push cap x q).0 (fifo_push cap x xs).0 ops c')
run_refines cap q xs (pop ∷ ops) c =
    let (c', e) = pop_refines cap q xs c in
    rw (e, run_refines cap (try_pop cap q).0 (fifo_pop xs).0 ops c')

distance :
    (cap j h t n : ℕ)
    → cap * j + cap ≡ 2 ^ 64
    → h < cap
    → n < cap
    → t ≡ (h + n) % cap
    → ((t + 2 ^ 64 - h) % 2 ^ 64) % cap ≡ n
distance cap j h t n div p q at = elim (mod_cases cap (h + n) (omega arith)) [
  | inl (_, e) ↦
      let apart : (t + 2 ^ 64 - h) % 2 ^ 64 ≡ n = omega arith in
      ap (λ x. x % cap) apart ∙ mod-eq_of_lt q
  | inr (_, e) ↦
      let apart : (t + 2 ^ 64 - h) % 2 ^ 64 ≡ n + cap * j = omega arith in
      ap (λ x. x % cap) apart ∙ add-mul-mod_self_left n cap j ∙ mod-eq_of_lt q
]

-- size() counts the items, also where the tail has gone round and the subtraction wraps, if the
-- capacity divides 2^64, as a power of two does; empty() tells whether there are none.
pub size_lem :
    {T : Type 0} (cap k : ℕ) (q : Queue T) (xs : List T)
    → cap * k ≡ 2 ^ 64
    → Models cap q xs
    → (size cap q ≡ length xs) × (empty q ≡ (length xs == 0))
unfolding size empty
size_lem cap zero q xs div c = absurd (omega arith)
size_lem cap (suc j) q xs div c =
    let at = Contents-tail cap q.buffer q.head q.tail xs c in
    (
      distance cap j q.head q.tail (length xs) (omega arith) c.head_in c.free at,
      ground (arith, empty_iff cap q.buffer q.head q.tail xs c),
    )
