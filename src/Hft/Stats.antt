-- ===== src/Hft/Stats.antt =====
-- include/hft_data_structures.h, struct HFTStats: counters of 64 bits. The compare-exchange loops
-- of update_latency are those of a thread that nobody disturbs. get_average_latency_ns divides
-- doubles; the model gives its two operands.
use latentspeed.Prelude.{
  ℕ, ◌+◌, ◌%◌, ◌^◌, ◌≤◌, ◌<◌, ◌≡◌, List, [], ◌∷◌, Option, some, none, ltb, if◌then◌else◌, arith,
  ◌∙◌,
}

pub record Stats : Type 0 where
  pub orders_received : ℕ
  pub orders_processed : ℕ
  pub orders_rejected : ℕ
  pub fills_received : ℕ
  pub messages_published : ℕ
  pub queue_full_count : ℕ
  pub memory_pool_exhausted : ℕ
  pub min_latency : ℕ
  pub max_latency : ℕ
  pub total_latency : ℕ

abbrev pub init : Stats
init = record {
  orders_received = 0;
  orders_processed = 0;
  orders_rejected = 0;
  fills_received = 0;
  messages_published = 0;
  queue_full_count = 0;
  memory_pool_exhausted = 0;
  min_latency = 0xffffffffffffffff;
  max_latency = 0;
  total_latency = 0;
}

-- counter.fetch_add(1)
abbrev pub inc : ℕ → ℕ
inc n = (n + 1) % 2 ^ 64

unfoldable pub update_latency : Stats → ℕ → Stats
update_latency s ns = record s {
  min_latency = if ltb ns s.min_latency then ns else s.min_latency;
  max_latency = if ltb s.max_latency ns then ns else s.max_latency;
  total_latency = (s.total_latency + ns) % 2 ^ 64;
}

-- The quotient that get_average_latency_ns returns; `none` stands for the 0.0 of no orders.
unfoldable pub average_latency : Stats → Option (ℕ × ℕ)
average_latency s =
    if ltb 0 s.orders_processed then some (s.total_latency, s.orders_processed) else none

unfoldable pub record_all : Stats → List ℕ → Stats
record_all s [] = s
record_all s (x ∷ xs) = record_all (update_latency s x) xs

abbrev pub sum : List ℕ → ℕ
sum [] = 0
sum (x ∷ xs) = x + sum xs

abbrev pub Between : ℕ → ℕ → List ℕ → Type 0
Between lo hi [] = Unit {0}
Between lo hi (x ∷ xs) = (lo ≤ x) × (x ≤ hi) × Between lo hi xs

record_all_lem :
    (s : Stats) (xs : List ℕ)
    → ((record_all s xs).min_latency ≤ s.min_latency)
      × (s.max_latency ≤ (record_all s xs).max_latency)
      × Between (record_all s xs).min_latency (record_all s xs).max_latency xs
unfolding record_all update_latency
record_all_lem s [] = (omega arith, omega arith, tt)
record_all_lem s (x ∷ xs) =
    let rest = record_all_lem (update_latency s x) xs in ground (arith, rest)

record_all-total :
    (s : Stats) (xs : List ℕ)
    → s.total_latency + sum xs < 2 ^ 64
    → (record_all s xs).total_latency ≡ s.total_latency + sum xs
unfolding record_all update_latency
record_all-total s [] h = omega arith
record_all-total s (x ∷ xs) h =
    let small : (s.total_latency + x) % 2 ^ 64 ≡ s.total_latency + x = omega arith in
    record_all-total (update_latency s x) xs (omega (arith, small)) ∙ omega (arith, small)

-- From the constructor on, the two extremes enclose every latency that was recorded, and the total
-- is their sum as long as that fits in 64 bits.
latency_lem :
    (xs : List ℕ)
    → sum xs < 2 ^ 64
    → Between (record_all init xs).min_latency (record_all init xs).max_latency xs
      × ((record_all init xs).total_latency ≡ sum xs)
latency_lem xs h =
    ((record_all_lem init xs).2, record_all-total init xs (omega arith) ∙ omega arith)
