-- ===== src/Rolling.antt =====
-- include/rolling_stats.h, class RollingStats: the last values of a price and of the order flow,
-- with running sums. Reading or removing the front of an empty deque, which a window of size zero
-- comes to, is undefined: `none`.
pub mod Laws
mod Tests
use latentspeed.Prelude.{
  ℕ, ◌+◌, ◌-◌, List, [], ◌∷◌, ◌++◌, Bool, Option, none, some, length, ltb, leb, if◌then◌else◌,
}

-- The arithmetic of double, with a quotient by a size.
pub record Arith (A : Type 0) : Type 0 where
  pub zero : A
  pub add : A → A → A
  pub sub : A → A → A
  pub mul : A → A → A
  pub div : A → ℕ → A
  pub sqrt : A → A
  pub lt : A → A → Bool

pub record RollingStats (A : Type 0) : Type 0 where
  pub max_size : ℕ
  pub window : List A
  pub ofi_window : List A
  pub sum : A
  pub sum_sq : A
  pub count : ℕ
  pub last_bid_size : A
  pub last_ask_size : A

module _ {A : Type 0} where
  unfoldable pub rolling_stats : Arith A → ℕ → RollingStats A
  rolling_stats num window_size = record {
    max_size = window_size;
    window = [];
    ofi_window = [];
    sum = num.zero;
    sum_sq = num.zero;
    count = 0;
    last_bid_size = num.zero;
    last_ask_size = num.zero;
  }

  unfoldable pub push_value : Arith A → A → RollingStats A → RollingStats A
  push_value num value s = record s {
    window = s.window ++ value ∷ [];
    sum = num.add s.sum value;
    sum_sq = num.add s.sum_sq (num.mul value value);
    count = s.count + 1;
  }

  unfoldable pub pop_value : Arith A → List A → RollingStats A → Option (RollingStats A)
  pop_value num [] s = none
  pop_value num (old ∷ rest) s = some (record s {
    window = rest;
    sum = num.sub s.sum old;
    sum_sq = num.sub s.sum_sq (num.mul old old);
    count = s.count - 1;
  })

  unfoldable pub update_mid : Arith A → A → RollingStats A → Option (RollingStats A)
  unfolding push_value pop_value
  update_mid num value s =
      if leb s.max_size (length s.window)
      then elim (pop_value num s.window s) [
        | none ↦ none
        | some popped ↦ some (push_value num value popped)
      ]
      else some (push_value num value s)

  unfoldable pub update_trade : Arith A → A → RollingStats A → Option (RollingStats A)
  unfolding update_mid
  update_trade = update_mid

  unfoldable pub update_ofi : Arith A → A → A → RollingStats A → Option (RollingStats A)
  update_ofi num bid_size ask_size s =
      let delta_bid = num.sub bid_size s.last_bid_size in
      let delta_ask = num.sub ask_size s.last_ask_size in
      let push : List A → Option (RollingStats A) = λ kept. some (record s {
        ofi_window = kept ++ num.sub delta_bid delta_ask ∷ [];
        last_bid_size = bid_size;
        last_ask_size = ask_size;
      }) in
      if leb s.max_size (length s.ofi_window)
      then elim s.ofi_window [ [] ↦ none | old ∷ rest ↦ push rest ]
      else push s.ofi_window

  -- The standard deviation from the two sums.
  unfoldable pub volatility : Arith A → RollingStats A → A
  volatility num s =
      let mean = num.div s.sum s.count in
      let variance = num.sub (num.div s.sum_sq s.count) (num.mul mean mean) in
      if ltb s.count 2
      then num.zero
      else num.sqrt (if num.lt num.zero variance then variance else num.zero)

  abbrev pub total : Arith A → A → List A → A
  total num acc [] = acc
  total num acc (x ∷ xs) = total num (num.add acc x) xs

  unfoldable pub ofi_rolling : Arith A → RollingStats A → A
  ofi_rolling num s = elim s.ofi_window [
    | [] ↦ num.zero
    | x ∷ xs ↦ num.div (total num num.zero s.ofi_window) (length s.ofi_window)
  ]

  unfoldable pub mean : Arith A → RollingStats A → A
  mean num s = if ltb 0 s.count then num.div s.sum s.count else num.zero

  unfoldable pub reset : Arith A → RollingStats A → RollingStats A
  reset num s = record s {
    window = [];
    ofi_window = [];
    sum = num.zero;
    sum_sq = num.zero;
    count = 0;
    last_bid_size = num.zero;
    last_ask_size = num.zero;
  }

  -- The updates with each value in turn.
  unfoldable pub update_all : Arith A → List A → RollingStats A → Option (RollingStats A)
  update_all num [] s = some s
  update_all num (x ∷ xs) s = elim (update_mid num x s) [
    | none ↦ none
    | some s' ↦ update_all num xs s'
  ]

  -- The updates with each pair of sizes in turn.
  unfoldable pub update_flows : Arith A → List (A × A) → RollingStats A → Option (RollingStats A)
  update_flows num [] s = some s
  update_flows num ((bid, ask) ∷ xs) s = elim (update_ofi num bid ask s) [
    | none ↦ none
    | some s' ↦ update_flows num xs s'
  ]
