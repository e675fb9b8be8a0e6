-- ===== src/Nonce.antt =====
-- include/adapters/hyperliquid_nonce.h, class HyperliquidNonceManager, with any number of threads.
-- Each load and each compare-exchange of next() and fast_forward_to_now() is a step. The clock is
-- the environment's: a step that reads it takes the reading as an argument.
pub mod Monotone
mod Tests
use latentspeed.Prelude.{ℕ, ◌+◌, ◌%◌, ◌^◌, ◌≤◌, ◌<◌, ◌≡◌, Bool, List, ◌∷◌, if◌then◌else◌, ltb, ◌==◌}

-- A thread between calls, in the loop of next(), or in that of fast_forward_to_now(), with the
-- clock reading and the last value that it saw.
pub data Thread : Type 0 where
  idle : Thread
  trying : (now prev : ℕ) → Thread
  forwarding : (now prev : ℕ) → Thread

-- `issued` records what next() has returned, newest first, each nonce with the clock reading of
-- its call.
pub record Manager : Type 0 where
  pub last_nonce_ms : ℕ
  pub threads : ℕ → Thread
  pub issued : List (ℕ × ℕ)

-- The value that next() tries to store.
unfoldable pub candidate : ℕ → ℕ → ℕ
candidate now prev = if ltb prev now then now else (prev + 1) % 2 ^ 64

abbrev pub update : (ℕ → Thread) → ℕ → Thread → ℕ → Thread
update f i t j = if i == j then t else f j

-- Step `s s'`, where the clock never reads more than `limit`.
pub data Step (limit : ℕ) : Manager → Manager → Type 0 where
  call_next :
      {s : Manager} (i now : ℕ)
      → s.threads i ≡ Thread.idle
      → now ≤ limit
      → Step limit s (record s { threads = update s.threads i (Thread.trying now s.last_nonce_ms) })
  exchange :
      {s : Manager} (i now prev : ℕ)
      → s.threads i ≡ Thread.trying now prev
      → s.last_nonce_ms ≡ prev
      → now ≤ limit
      → Step limit s (record s {
        last_nonce_ms = candidate now prev;
        threads = update s.threads i Thread.idle;
        issued = (candidate now prev, now) ∷ s.issued;
      })
  -- The weak compare-exchange may fail for no reason; it loads the value that is there.
  retry :
      {s : Manager} (i now prev : ℕ)
      → s.threads i ≡ Thread.trying now prev
      → Step limit s (record s { threads = update s.threads i (Thread.trying now s.last_nonce_ms) })
  call_forward :
      {s : Manager} (i now : ℕ)
      → s.threads i ≡ Thread.idle
      → now ≤ limit
      → Step limit s
          (record s { threads = update s.threads i (Thread.forwarding now s.last_nonce_ms) })
  forward :
      {s : Manager} (i now prev : ℕ)
      → s.threads i ≡ Thread.forwarding now prev
      → prev < now
      → s.last_nonce_ms ≡ prev
      → now ≤ limit
      → Step limit s (record s { last_nonce_ms = now; threads = update s.threads i Thread.idle })
  retry_forward :
      {s : Manager} (i now prev : ℕ)
      → s.threads i ≡ Thread.forwarding now prev
      → prev < now
      → Step limit s
          (record s { threads = update s.threads i (Thread.forwarding now s.last_nonce_ms) })
  end_forward :
      {s : Manager} (i now prev : ℕ)
      → s.threads i ≡ Thread.forwarding now prev
      → now ≤ prev
      → Step limit s (record s { threads = update s.threads i Thread.idle })

-- The constructor.
abbrev pub init : Manager
init = record { last_nonce_ms = 0; threads = λ _. Thread.idle; issued = List.[] }

pub data Reach (limit : ℕ) (s : Manager) : Manager → Type 0 where
  here : Reach limit s s
  next : {t u : Manager} → Reach limit s t → Step limit t u → Reach limit s u
