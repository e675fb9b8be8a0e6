-- ===== src/Rolling/Tests.antt =====
-- A window of two values over prices in whole ticks.
use latentspeed.Prelude.{ℕ, ◌+◌, ◌-◌, ◌*◌, ◌/◌, ◌≡◌, refl, [], ◌∷◌, some, none, ltb, arith}
use latentspeed.Rolling.{
  Arith, RollingStats, rolling_stats, update_mid, update_all, update_flows, ofi_rolling, pop_value,
}
use latentspeed.Rolling.Laws.{average, rolling_windows}

abbrev ticks : Arith ℕ
ticks = record {
  zero = 0;
  add = λ a b. a + b;
  sub = λ a b. a - b;
  mul = λ a b. a * b;
  div = λ a n. a / n;
  sqrt = λ a. a;
  lt = ltb;
}

rolling_windows_example :
    ((r : RollingStats ℕ) × (update_all ticks (3 ∷ 1 ∷ 5 ∷ []) (rolling_stats ticks 2) ≡ some r)
      × (r.window ≡ 1 ∷ 5 ∷ [])
      × (r.count ≡ 2))
    × ((r : RollingStats ℕ) × (update_flows ticks
            ((2, 1) ∷ (7, 2) ∷ (9, 2) ∷ [])
            (rolling_stats ticks 2)
          ≡ some r)
        × (ofi_rolling ticks r ≡ average ticks (4 ∷ 2 ∷ [])))
rolling_windows_example =
    rolling_windows ticks 2 (3 ∷ 1 ∷ 5 ∷ []) ((2, 1) ∷ (7, 2) ∷ (9, 2) ∷ []) (omega arith)

average_of_flows : average ticks (4 ∷ 2 ∷ []) ≡ 3
unfolding average
average_of_flows = refl

-- A window of size zero has no front to drop.
empty_window_undefined : update_mid ticks 3 (rolling_stats ticks 0) ≡ none
unfolding update_mid rolling_stats pop_value
empty_window_undefined = refl
