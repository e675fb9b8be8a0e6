-- ===== src/Nonce/Monotone.antt =====
-- The nonces of a run in the order in which they were issued.
use latentspeed.Prelude.{
  ℕ, suc, ◌+◌, ◌-◌, ◌⊎◌, subst, ◌^◌, ◌≤◌, ◌<◌, ◌≡◌, List, [], ◌∷◌, length, arith,
}
use latentspeed.Nonce.{Manager, Step, Reach, here, next, init, candidate}

-- Newest first: a nonce is at least the clock reading of its call, and greater than the one
-- before it; the newest is at most `top`.
abbrev pub Descending : ℕ → List (ℕ × ℕ) → Type 0
Descending top [] = Unit {0}
Descending top ((n, now) ∷ rest) = (n ≤ top) × (now ≤ n) × Descending (n - 1) rest × (0 < n)

Descending-mono : {a b : ℕ} (l : List (ℕ × ℕ)) → a ≤ b → Descending a l → Descending b l
Descending-mono [] h d = tt
Descending-mono ((n, now) ∷ rest) h d = (omega arith, d.1, d.2, d.3)

record Inv (limit : ℕ) (s : Manager) : Type 0 where
  falling : Descending s.last_nonce_ms s.issued
  bounded : s.last_nonce_ms ≤ limit + length s.issued

-- No wrap: the candidate is greater than the value that it replaces, and not less than the clock.
candidate_bounds :
    (now prev : ℕ)
    → prev + 1 < 2 ^ 64
    → (prev < candidate now prev)
      × (now ≤ candidate now prev)
      × ((candidate now prev ≡ now) ⊎ (candidate now prev ≡ prev + 1))
unfolding candidate
candidate_bounds now prev h = ground arith

-- What a nonce that is stored finds below it.
issue :
    (limit now last : ℕ) (l : List (ℕ × ℕ))
    → now ≤ limit
    → limit + suc (length l) < 2 ^ 64
    → last ≤ limit + length l
    → Descending last l
    → Descending (candidate now last) ((candidate now last, now) ∷ l)
      × (candidate now last ≤ limit + suc (length l))
issue limit now last l h small b d =
    let c = candidate_bounds now last (omega arith) in
    (
      (
        omega arith,
        c.1,
        Descending-mono {a = last} {b = candidate now last - 1} l (omega (arith, c.0)) d,
        omega (arith, c.0),
      ),
      omega (arith, c.2),
    )

-- A step never takes a nonce back.
length-issued : {limit : ℕ} {s t : Manager} → Step limit s t → length s.issued ≤ length t.issued
length-issued (Step.call_next i now e h) = omega arith
length-issued (Step.exchange i now prev e l h) = omega arith
length-issued (Step.retry i now prev e) = omega arith
length-issued (Step.call_forward i now e h) = omega arith
length-issued (Step.forward i now prev e p l h) = omega arith
length-issued (Step.retry_forward i now prev e p) = omega arith
length-issued (Step.end_forward i now prev e p) = omega arith

Step-Inv :
    {limit : ℕ} {s t : Manager}
    → Step limit s t
    → limit + length t.issued < 2 ^ 64
    → Inv limit s
    → Inv limit t
Step-Inv (Step.call_next i now e h) small v = record { falling = v.falling; bounded = v.bounded }
Step-Inv {limit} {s} (Step.exchange i now prev e l h) small v =
    let done : Descending (candidate now prev) ((candidate now prev, now) ∷ s.issued)
        × (candidate now prev ≤ limit + suc (length s.issued)) =
      issue limit now prev s.issued h small (omega (arith, v.bounded))
        (subst (λ k. Descending k s.issued) l v.falling) in
    record { falling = done.0; bounded = done.1 }
Step-Inv (Step.retry i now prev e) small v = record { falling = v.falling; bounded = v.bounded }
Step-Inv (Step.call_forward i now e h) small v = record { falling = v.falling; bounded = v.bounded }
Step-Inv {s = s} (Step.forward i now prev e p l h) small v = record {
  falling = Descending-mono s.issued (omega (arith, p, l)) v.falling;
  bounded = omega (arith, h);
}
Step-Inv (Step.retry_forward i now prev e p) small v = record {
  falling = v.falling;
  bounded = v.bounded;
}
Step-Inv (Step.end_forward i now prev e p) small v = record {
  falling = v.falling;
  bounded = v.bounded;
}

reach-Inv :
    {limit : ℕ} {s t : Manager}
    → Reach limit s t
    → limit + length t.issued < 2 ^ 64
    → Inv limit s
    → Inv limit t
reach-Inv here small v = v
reach-Inv (next r st) small v =
    Step-Inv st small (reach-Inv r (omega (arith, small, length-issued st)) v)

-- In every run from the constructor, with any number of threads and any clock that stays below
-- `limit`, and as long as the nonces cannot wrap: each nonce is at least the clock reading of its
-- call and greater than every nonce before it, and the last value stored is at least the newest.
pub reach-Descending :
    (limit : ℕ) (s : Manager)
    → Reach limit init s
    → limit + length s.issued < 2 ^ 64
    → Descending s.last_nonce_ms s.issued
reach-Descending limit s r small =
    (reach-Inv r small (record { falling = tt; bounded = omega arith })).falling
