-- ===== src/Hyperliquid/Price.antt =====
-- Prices that the Hyperliquid adapter sends: the perpetual's tick and five significant figures, and
-- prices derived from the book or the last fill.
use latentspeed.Prelude.{
  ℕ, suc, ◌-◌, [], ◌∷◌, Bool, ◌&&◌, Option, none, some, if◌then◌else◌, leb, take, min,
}
use latentspeed.Prelude.Bytes.{Bytes, find_char}
use latentspeed.NumString.{trim_trailing_zeros}
use latentspeed.Engine.Types.{is_positive, is_nonpositive, is_finite}
use latentspeed.Hyperliquid.Text.{count_sig_figs}

-- The arithmetic of doubles and the standard library: `snap d up x` is x rounded up or down to a
-- multiple of 10^-d, `slip up x` is x * (1 + slip) or x * (1 - slip) with the slippage that is set,
-- and `print_fixed d x` has d decimals.
pub record Doubles : Type 0 where
  pub stod : Bytes → Option ℕ
  pub snap : ℕ → Bool → ℕ → ℕ
  pub slip : Bool → ℕ → ℕ
  pub print_fixed : ℕ → ℕ → Bytes

unfoldable pub format_fixed : Doubles → ℕ → ℕ → Bytes
unfolding trim_trailing_zeros
format_fixed lib v decimals = trim_trailing_zeros (lib.print_fixed decimals v)

unfoldable pub count_digits : Bytes → ℕ
count_digits [] = 0
count_digits (c ∷ s) =
    let rest = count_digits s in if leb b'0' c && leb c b'9' then suc rest else rest

-- Fewer decimals where there would be more than five significant figures.
unfoldable pub limit_figures : Doubles → ℕ → ℕ → Bytes → Bytes
unfolding find_char count_sig_figs format_fixed count_digits
limit_figures lib snapped max_decimals out = elim (find_char b'.' out) [
  | none ↦ out
  | some dot ↦
      if leb (count_sig_figs out) 5
      then out
      else format_fixed lib snapped (min (5 - count_digits (take dot out)) max_decimals)
]

-- A negative number of decimals, `none` here, leaves the price as it is.
unfoldable pub snap_and_format_perp_px : Doubles → Bytes → Bool → Option ℕ → Bytes
unfolding limit_figures format_fixed
snap_and_format_perp_px lib px_in is_buy none = px_in
snap_and_format_perp_px lib px_in is_buy (some sz_decimals) = elim (lib.stod px_in) [
  | none ↦ px_in
  | some px ↦
      let max_decimals = 6 - sz_decimals in
      let snapped = lib.snap max_decimals is_buy px in
      if is_nonpositive px
      then px_in
      else limit_figures lib snapped max_decimals (format_fixed lib snapped max_decimals)
]

-- The price from the best bid and ask, and that from the last fill; the empty text stands for none.
unfoldable pub book_px : Doubles → Bool → Option (ℕ × ℕ) → Bytes
unfolding format_fixed
book_px lib is_buy none = []
book_px lib is_buy (some (bid, ask)) =
    let best = if is_buy then ask else bid in
    let target = lib.slip is_buy best in
    if is_positive best && is_positive target then format_fixed lib target 8 else []

unfoldable pub last_px : Doubles → Bool → Option ℕ → Bytes
unfolding format_fixed
last_px lib is_buy none = []
last_px lib is_buy (some last) =
    let target = lib.slip is_buy last in
    if is_positive target && is_finite target then format_fixed lib target 8 else []
