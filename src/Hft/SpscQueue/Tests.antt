-- ===== src/Hft/SpscQueue/Tests.antt =====
-- A ring of four slots whose tail has gone round, and two threads on a fresh one.
use latentspeed.Prelude.{ℕ, ◌<◌, ◌≡◌, refl, ◌≢◌, List, [], ◌∷◌, ◌++◌, length, ◌==◌, arith}
use latentspeed.Hft.SpscQueue.{Queue, size, empty}
use latentspeed.Hft.SpscQueue.Spec.{Op, push, pop, fifo_run}
use latentspeed.Hft.SpscQueue.Refine.{Models, run, run_refines, size_lem}
use latentspeed.Hft.SpscQueue.Interleaved.{
  Shared, Producer, Consumer, ProducerStep, ConsumerStep, Reach, here, produce, consume,
}
use latentspeed.Hft.SpscQueue.Interleaved.Fifo.{fresh, reach_fifo, reach_no_race}

abbrev round : Queue ℕ
round = record { head = 3; tail = 1; buffer = 8 ∷ 0 ∷ 0 ∷ 7 ∷ [] }

round-Models : Models 4 round (7 ∷ 8 ∷ [])
round-Models = record {
  slots = refl;
  head_in = omega arith;
  tail_in = omega arith;
  free = omega arith;
  held = (refl, (refl, refl));
}

abbrev script : List (Op ℕ)
script = push 9 ∷ push 1 ∷ pop ∷ pop ∷ pop ∷ pop ∷ []

run_refines_example : run 4 round script ≡ fifo_run 4 (7 ∷ 8 ∷ []) script
run_refines_example = run_refines 4 round (7 ∷ 8 ∷ []) script round-Models

size_lem_example : (size 4 round ≡ 2) × (empty round ≡ (2 == 0))
size_lem_example = size_lem 4 0x4000000000000000 round (7 ∷ 8 ∷ []) refl round-Models

abbrev slots : List ℕ
slots = 0 ∷ 0 ∷ 0 ∷ []

-- After one try_push of 5.
abbrev after_push : Shared ℕ
after_push = record { head = 0; tail = 1; buffer = 5 ∷ 0 ∷ 0 ∷ []; sent = 5 ∷ []; got = [] }

one_published :
    Reach 3 (fresh slots) Producer.idle Consumer.idle after_push Producer.idle Consumer.idle
one_published =
    produce
      (produce
        (produce (produce here (ProducerStep.load_tail 5)) (ProducerStep.check (omega arith)))
        ProducerStep.write)
      ProducerStep.store_tail

-- The producer is about to write its second item while the consumer is about to copy the first.
both_inside :
    Reach 3
      (fresh slots)
      Producer.idle
      Consumer.idle
      after_push
      (Producer.checked 6 1)
      (Consumer.checked 0)
both_inside =
    produce
      (consume (produce (consume one_published ConsumerStep.load_head) (ProducerStep.load_tail 6))
        (ConsumerStep.check (omega arith)))
      (ProducerStep.check (omega arith))

reach_fifo_example : (xs : List ℕ) × (5 ∷ [] ≡ [] ++ xs) × (length xs < 3)
reach_fifo_example =
    reach_fifo 3 slots after_push Producer.idle Consumer.idle (omega arith) refl one_published

reach_no_race_example : ◌≢◌ {A = ℕ} 1 0
reach_no_race_example = reach_no_race 3 slots after_push 6 1 0 (omega arith) refl both_inside
