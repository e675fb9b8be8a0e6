-- ===== src/Symbol.antt =====
-- src/core/symbol/symbol_mapper.cpp: compact (ETHUSDT) and hyphenated (ETH-USDT-PERP) symbols.
pub mod Laws
pub mod Hyphen
mod Tests
use Prim.Native.String.{String}
use latentspeed.Prelude.{
  ℕ, ◌+◌, ◌-◌, ◌%◌, ◌^◌, List, [], ◌∷◌, ◌++◌, map, Bool, true, false, not, ◌&&◌, ◌||◌, Option, none,
  some, ◌==◌, ltb, if◌then◌else◌, length, take, drop,
}
use latentspeed.Prelude.Bytes.{
  Bytes, codes, str_eq, find_char, rfind, or_npos, is_empty, is_some, to_upper,
}

unfoldable pub trim_settle_suffix : Bytes → Bytes
unfolding find_char
trim_settle_suffix s = elim (find_char b':' s) [ none ↦ s | some colon ↦ take colon s ]

unfoldable pub compact_from_hyphen_or_slash : Bytes → Bytes
compact_from_hyphen_or_slash [] = []
compact_from_hyphen_or_slash (c ∷ s) =
    let rest = compact_from_hyphen_or_slash s in
    if (c == b'-') || (c == b'/') then rest else c ∷ rest

abbrev pub perp_suffix : Bytes
perp_suffix = codes "-PERP"

-- Drops a trailing -PERP from a longer symbol.
unfoldable pub drop_perp : Bytes → Bytes
drop_perp upper =
    let cut = length upper - 5 in
    if ltb 5 (length upper) && str_eq (drop cut upper) perp_suffix then take cut upper else upper

-- DefaultSymbolMapper::to_compact. The product type is not read.
unfoldable pub to_compact : Bytes → Bytes → Bytes
unfolding trim_settle_suffix drop_perp compact_from_hyphen_or_slash
to_compact symbol product_type =
    compact_from_hyphen_or_slash (drop_perp (map to_upper (trim_settle_suffix symbol)))

abbrev pub quotes : List String
quotes = "USDT" ∷ "USDC" ∷ "BTC" ∷ "ETH" ∷ "USD" ∷ "EUR" ∷ "DAI" ∷ "FDUSD" ∷ []

abbrev pub perp_part : Bool → Bytes
perp_part is_perp = if is_perp then perp_suffix else []

-- The loop over the quotes, on a compact symbol in upper case.
unfoldable pub split_by_quotes : Bytes → Bool → List String → Bytes
unfolding rfind
split_by_quotes upper is_perp [] = upper ++ perp_part is_perp
split_by_quotes upper is_perp (q ∷ qs) =
    let rest = split_by_quotes upper is_perp qs in
    let qlen = length (codes q) in
    if ltb qlen (length upper) && (or_npos (rfind (codes q) upper) == length upper - qlen)
    then take (length upper - qlen) upper ++ (b'-' ∷ codes q) ++ perp_part is_perp
    else rest

-- What follows the ccxt form. `size() - 5` is a subtraction of size_t.
unfoldable pub hyphen_plain : Bytes → Bool → Bytes
unfolding find_char rfind split_by_quotes
hyphen_plain str is_perp =
    if is_some (find_char b'-' str)
    then if is_perp && not (or_npos (rfind perp_suffix str) == (length str + 2 ^ 64 - 5) % 2 ^ 64)
      then str ++ perp_suffix
      else str
    else split_by_quotes (map to_upper str) is_perp quotes

-- BASE/QUOTE of the part before the colon, if there is a slash in it.
unfoldable pub hyphen_ccxt : Bytes → Bytes → Bool → Bytes
unfolding find_char hyphen_plain
hyphen_ccxt str left is_perp = elim (find_char b'/' left) [
  | none ↦ hyphen_plain str is_perp
  | some slash ↦ take slash left ++ (b'-' ∷ drop (slash + 1) left) ++ perp_part is_perp
]

-- DefaultSymbolMapper::to_hyphen.
unfoldable pub to_hyphen : Bytes → Bool → Bytes
unfolding find_char hyphen_plain hyphen_ccxt
to_hyphen str is_perp = if is_empty str then str else elim (find_char b':' str) [
  | none ↦ hyphen_plain str is_perp
  | some colon ↦ hyphen_ccxt str (take colon str) is_perp
]
