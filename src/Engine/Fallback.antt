-- ===== src/Engine/Fallback.antt =====
-- The helpers on symbols and reasons at the top of src/trading_engine_service.cpp that the mappers
-- of src/core stand beside.
pub mod Laws
use latentspeed.Prelude.{
  ℕ, ◌+◌, ◌-◌, ◌%◌, ◌^◌, List, [], ◌∷◌, ◌++◌, map, Bool, true, false, not, ◌&&◌, Option, none, some,
  ◌==◌, if◌then◌else◌, length, take, drop, ltb,
}
use Prim.Native.String.{String}
use latentspeed.Prelude.Bytes.{
  Bytes, codes, str_eq, one_of, contains, is_empty, is_some, find_char, rfind, or_npos, to_lower,
  to_upper,
}
use latentspeed.Symbol.{
  trim_settle_suffix, compact_from_hyphen_or_slash, drop_perp, perp_suffix, perp_part, quotes,
}

-- split_compact_symbol, on the symbol as it is written.
unfoldable pub split_compact : Bytes → List String → Option (Bytes × Bytes)
unfolding rfind
split_compact s [] = none
split_compact s (q ∷ qs) =
    let rest = split_compact s qs in
    let qlen = length (codes q) in
    if ltb qlen (length s) && (or_npos (rfind (codes q) s) == length s - qlen)
    then some (take (length s - qlen) s, codes q)
    else rest

-- Without a slash: hyphenated, or compact. `size() - 5` is a subtraction of size_t.
unfoldable pub fallback_plain : Bytes → Bool → Bytes
unfolding find_char rfind split_compact
fallback_plain s is_perp =
    if is_some (find_char b'-' s)
    then if is_perp && not (or_npos (rfind perp_suffix s) == (length s + 2 ^ 64 - 5) % 2 ^ 64)
      then s ++ perp_suffix
      else s
    else elim (split_compact s quotes) [
      | none ↦ s
      | some (base, quote) ↦ base ++ (b'-' ∷ quote) ++ perp_part is_perp
    ]

-- BASE/QUOTE of a text that has a slash at that place.
unfoldable pub slashed : Bytes → ℕ → Bool → Bytes
slashed s slash is_perp = take slash s ++ (b'-' ∷ drop (slash + 1) s) ++ perp_part is_perp

unfoldable pub fallback_spot : Bytes → Bool → Bytes
unfolding find_char slashed fallback_plain
fallback_spot s is_perp = elim (find_char b'/' s) [
  | some slash ↦ slashed s slash is_perp
  | none ↦ fallback_plain s is_perp
]

-- to_hyphen_symbol
unfoldable pub to_hyphen_symbol : Bytes → Bool → Bytes
unfolding find_char slashed fallback_spot
to_hyphen_symbol s is_perp = if is_empty s then s else elim (find_char b':' s) [
  | none ↦ fallback_spot s is_perp
  | some colon ↦ elim (find_char b'/' (take colon s)) [
    | some slash ↦ slashed (take colon s) slash is_perp
    | none ↦ fallback_spot s is_perp
  ]
]

-- normalize_symbol_compact. The product type is not read.
unfoldable pub normalize_symbol_compact : Bytes → Bytes → Bytes
unfolding trim_settle_suffix drop_perp compact_from_hyphen_or_slash
normalize_symbol_compact symbol product_type =
    let upper = drop_perp (map to_upper (trim_settle_suffix symbol)) in
    let compact = compact_from_hyphen_or_slash upper in
    if is_empty symbol then symbol else if is_empty compact then upper else compact

unfoldable pub normalize_reason_code : Bytes → Bytes → Bytes
unfolding one_of contains
normalize_reason_code normalized_status raw_reason =
    if one_of normalized_status ("rejected" ∷ [])
    then if contains (codes "balance") (map to_lower raw_reason)
      then codes "insufficient_balance"
      else codes "venue_reject"
    else codes "ok"

unfoldable pub build_reason_text : Bytes → Bytes → Bytes
unfolding one_of
build_reason_text normalized_status raw_reason =
    if not (is_empty raw_reason)
    then if one_of raw_reason ("EC_NoError" ∷ []) then codes "OK" else raw_reason
    else if one_of normalized_status ("canceled" ∷ [])
    then codes "Order cancelled"
    else if one_of normalized_status ("rejected" ∷ [])
    then codes "Order rejected"
    else if one_of normalized_status ("replaced" ∷ [])
    then codes "Order replaced"
    else codes "OK"
