-- ===== src/Nonce/Tests.antt =====
-- Two threads that read the same clock and the same last value.
use latentspeed.Prelude.{◌≡◌, refl, [], ◌∷◌, arith}
use latentspeed.Nonce.{Manager, Step, Reach, here, next, init, candidate}
use latentspeed.Nonce.Monotone.{Descending, reach-Descending}

-- Thread 1 loses the race, retries and stores the next value.
contended : (s : Manager) × Reach 1000 init s × (s.issued ≡ (1001, 1000) ∷ (1000, 1000) ∷ [])
unfolding candidate
contended = (
  _,
  next
      (next
        (next
          (next (next here (Step.call_next 0 1000 refl (omega arith)))
            (Step.call_next 1 1000 refl (omega arith)))
          (Step.exchange 0 1000 0 refl refl (omega arith)))
        (Step.retry 1 1000 0 refl))
      (Step.exchange 1 1000 1000 refl refl (omega arith)),
  refl,
)

reach-Descending_example : Descending contended.0.last_nonce_ms contended.0.issued
unfolding contended candidate
reach-Descending_example = reach-Descending 1000 contended.0 contended.1 (omega arith)
