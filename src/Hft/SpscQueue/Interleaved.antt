-- ===== src/Hft/SpscQueue/Interleaved.antt =====
-- LockFreeSPSCQueue with its atomic loads and stores as single steps, so that one producer and one
-- consumer may run in any interleaving. The acquire and release orders make the buffer accesses of
-- one thread visible before the index that the other loads; the steps are taken one after another.
pub mod Fifo
use latentspeed.Prelude.{
  ℕ, suc, ◌+◌, ◌%◌, ◌<◌, ◌≡◌, ◌≢◌, List, [], ◌∷◌, ◌++◌, some, length, get_elem?, set,
}
use latentspeed.Hft.SpscQueue.{masked}

-- The atomics and the buffer. `sent` and `got` record what was published and what was taken.
pub record Shared (T : Type 0) : Type 0 where
  pub head : ℕ
  pub tail : ℕ
  pub buffer : List T
  pub sent : List T
  pub got : List T

-- Where the producer stands in try_push, with its local variables.
pub data Producer (T : Type 0) : Type 0 where
  idle : Producer T
  loaded : (item : T) (current_tail : ℕ) → Producer T
  checked : (item : T) (current_tail : ℕ) → Producer T
  written : (item : T) (current_tail : ℕ) → Producer T

-- Where the consumer stands in try_pop.
pub data Consumer (T : Type 0) : Type 0 where
  idle : Consumer T
  loaded : (current_head : ℕ) → Consumer T
  checked : (current_head : ℕ) → Consumer T
  copied : (item : T) (current_head : ℕ) → Consumer T

pub data ProducerStep {T : Type 0} (cap : ℕ)
    : Shared T → Producer T → Shared T → Producer T → Type 0 where
  load_tail : {s : Shared T} (x : T) → ProducerStep cap s Producer.idle s (Producer.loaded x s.tail)
  refuse :
      {s : Shared T} {x : T} {t : ℕ}
      → masked cap (t + 1) ≡ s.head
      → ProducerStep cap s (Producer.loaded x t) s Producer.idle
  check :
      {s : Shared T} {x : T} {t : ℕ}
      → masked cap (t + 1) ≢ s.head
      → ProducerStep cap s (Producer.loaded x t) s (Producer.checked x t)
  write :
      {s : Shared T} {x : T} {t : ℕ}
      → ProducerStep cap s
          (Producer.checked x t)
          (record s { buffer = set s.buffer t x })
          (Producer.written x t)
  store_tail :
      {s : Shared T} {x : T} {t : ℕ}
      → ProducerStep cap s
          (Producer.written x t)
          (record s { tail = masked cap (t + 1); sent = s.sent ++ x ∷ [] })
          Producer.idle

pub data ConsumerStep {T : Type 0} (cap : ℕ)
    : Shared T → Consumer T → Shared T → Consumer T → Type 0 where
  load_head : {s : Shared T} → ConsumerStep cap s Consumer.idle s (Consumer.loaded s.head)
  refuse :
      {s : Shared T} {h : ℕ} → h ≡ s.tail → ConsumerStep cap s (Consumer.loaded h) s Consumer.idle
  check :
      {s : Shared T} {h : ℕ}
      → h ≢ s.tail
      → ConsumerStep cap s (Consumer.loaded h) s (Consumer.checked h)
  copy :
      {s : Shared T} {h : ℕ} (x : T)
      → get_elem? s.buffer h ≡ some x
      → ConsumerStep cap s (Consumer.checked h) s (Consumer.copied x h)
  store_head :
      {s : Shared T} {x : T} {h : ℕ}
      → ConsumerStep cap s
          (Consumer.copied x h)
          (record s { head = masked cap (h + 1); got = s.got ++ x ∷ [] })
          Consumer.idle

-- Any interleaving of the two threads, from `s`, `p` and `c`.
pub data Reach {T : Type 0} (cap : ℕ) (s : Shared T) (p : Producer T) (c : Consumer T)
    : Shared T → Producer T → Consumer T → Type 0 where
  here : Reach cap s p c s p c
  produce :
      {s' s'' : Shared T} {p' p'' : Producer T} {c' : Consumer T}
      → Reach cap s p c s' p' c'
      → ProducerStep cap s' p' s'' p''
      → Reach cap s p c s'' p'' c'
  consume :
      {s' s'' : Shared T} {p' : Producer T} {c' c'' : Consumer T}
      → Reach cap s p c s' p' c'
      → ConsumerStep cap s' c' s'' c''
      → Reach cap s p c s'' p' c''
