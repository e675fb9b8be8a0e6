-- ===== src/NumString.antt =====
-- include/core/util/num_string.h: canonical decimal texts. The engine's own copy of
-- trim_trailing_zeros, in src/trading_engine_service.cpp, is the same function.
pub mod Laws
use latentspeed.Prelude.{
  ℕ, suc, ◌+◌, ◌-◌, List, [], ◌∷◌, ◌++◌, map, Bool, true, false, not, Option, none, some, ◌==◌,
  if◌then◌else◌, length, take,
}
use latentspeed.Prelude.Bytes.{Bytes, codes, find_char, starts_with, is_empty, is_some, to_lower}

-- find_last_not_of one character
unfoldable pub find_last_not_of : ℕ → Bytes → Option ℕ
find_last_not_of k [] = none
find_last_not_of k (c ∷ s) = elim (find_last_not_of k s) [
  | some i ↦ some (suc i)
  | none ↦ if c == k then none else some 0
]

-- back() and pop_back(), where there is a last character
unfoldable pub back : Bytes → Option ℕ
back [] = none
back (c ∷ s) = elim (back s) [ none ↦ some c | some d ↦ some d ]

unfoldable pub pop_back : Bytes → Bytes
pop_back s = take (length s - 1) s

abbrev pub ends_with_dot : Bytes → Bool
ends_with_dot s = elim (back s) [ none ↦ false | some c ↦ c == b'.' ]

-- The part that runs when there is a dot.
unfoldable pub trim_fraction : Bytes → Bytes
unfolding find_last_not_of back pop_back
trim_fraction value =
    let kept : Bytes = elim (find_last_not_of b'0' value) [
      | none ↦ value
      | some last ↦ take (last + 1) value
    ] in
    if ends_with_dot kept then pop_back kept else kept

abbrev pub or_zero : Bytes → Bytes
or_zero value = if is_empty value then codes "0" else value

unfoldable pub trim_trailing_zeros : Bytes → Bytes
unfolding find_char trim_fraction
trim_trailing_zeros value =
    or_zero (if is_some (find_char b'.' value) then trim_fraction value else value)

unfoldable pub to_lower_hex_address : Bytes → Bytes
unfolding starts_with
to_lower_hex_address s =
    let out = map to_lower s in if starts_with (codes "0x") out then out else codes "0x" ++ out
