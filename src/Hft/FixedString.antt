-- ===== src/Hft/FixedString.antt =====
-- include/hft_data_structures.h, class FixedString<N>: text in a fixed buffer, always terminated.
-- The template argument is the first argument `n` of each operation.
pub mod Laws
use latentspeed.Prelude.{ℕ, ◌-◌, ◌++◌, Bool, min, length, set, take, drop, Option, none, some}
use latentspeed.Prelude.Bytes.{Bytes, str_eq, str_lt}

pub record FixedString : Type 0 where
  pub data_ : Bytes
  pub size_ : ℕ

pub clear : FixedString → FixedString
clear s = record { data_ = set s.data_ 0 0; size_ = 0 }

-- assign(std::string_view): at most N - 1 bytes are copied, and a NUL is put behind them.
unfoldable pub assign : ℕ → FixedString → Bytes → FixedString
assign n s sv =
    let k = min (length sv) (n - 1) in
    record { data_ = set (take k sv ++ drop k s.data_) k 0; size_ = k }

-- assign(const char*): `none` is the null pointer.
pub assign_ptr : ℕ → FixedString → Option Bytes → FixedString
unfolding assign clear
assign_ptr n s none = clear s
assign_ptr n s (some str) = assign n s str

unfoldable pub view : FixedString → Bytes
view s = take s.size_ s.data_

pub equals : FixedString → FixedString → Bool
unfolding view
equals s t = str_eq (view s) (view t)

pub less : FixedString → FixedString → Bool
unfolding view
less s t = str_lt (view s) (view t)
