-- ===== src/Engine/Fallback/Laws.antt =====
-- The engine's own symbol helpers against those of src/core/symbol/symbol_mapper.cpp.
use latentspeed.Prelude.{
  ◌≡◌, refl, ℕ, [], ◌∷◌, map, Bool, true, Option-cases, some, none, take, All-take, if◌then◌else◌,
  inl, inr, ◌⊎◌,
}
use latentspeed.Prelude.Bytes.{
  Bytes, is_empty, is_some, to_upper, find_char, find_char-none, find_char-none-All,
}
use latentspeed.Symbol.{
  trim_settle_suffix, compact_from_hyphen_or_slash, drop_perp, to_compact, to_hyphen, hyphen_plain,
  hyphen_ccxt,
}
use latentspeed.Engine.Fallback.{
  normalize_symbol_compact, to_hyphen_symbol, fallback_spot, fallback_plain, slashed,
}

-- The engine's compact form is the mapper's, except for a symbol of which the mapper leaves
-- nothing: there the engine keeps the separators.
normalize_symbol_compact-to_compact :
    (symbol product : Bytes)
    → normalize_symbol_compact symbol product ≡ (
        if is_empty (to_compact symbol product)
        then drop_perp (map to_upper (trim_settle_suffix symbol))
        else to_compact symbol product)
unfolding normalize_symbol_compact to_compact trim_settle_suffix drop_perp
    compact_from_hyphen_or_slash
normalize_symbol_compact-to_compact [] product = refl
normalize_symbol_compact-to_compact (c ∷ s) product = refl

-- The forms of a symbol on which the two conversions are to agree: hyphenated without a slash, or
-- BASE/QUOTE:SETTLE.
abbrev pub IsCommon : Bytes → Type 0
IsCommon s =
    ((is_some (find_char b'-' s) ≡ true) × (find_char b'/' s ≡ none))
    ⊎ ((colon : ℕ) × (slash : ℕ) × (find_char b':' s ≡ some colon)
        × (find_char b'/' (take colon s) ≡ some slash))

no_slash-take : (n : ℕ) (s : Bytes) → find_char b'/' s ≡ none → find_char b'/' (take n s) ≡ none
no_slash-take n s h = find_char-none b'/' (take n s) (All-take _ n s (find_char-none-All b'/' s h))

plain_agrees :
    (s : Bytes) (is_perp : Bool)
    → is_some (find_char b'-' s) ≡ true
    → fallback_plain s is_perp ≡ hyphen_plain s is_perp
unfolding fallback_plain hyphen_plain
plain_agrees s is_perp h = rw (fallback_plain, hyphen_plain, h) refl

-- On a hyphenated symbol without a slash and on BASE/QUOTE:SETTLE the engine's hyphenated form is
-- the mapper's.
pub to_hyphen_symbol-to_hyphen :
    (s : Bytes) (is_perp : Bool) → IsCommon s → to_hyphen_symbol s is_perp ≡ to_hyphen s is_perp
unfolding to_hyphen_symbol to_hyphen hyphen_ccxt fallback_spot slashed
to_hyphen_symbol-to_hyphen [] is_perp h = refl
to_hyphen_symbol-to_hyphen (c ∷ t) is_perp (inr (colon, slash, at, in_left)) =
    rw (to_hyphen_symbol, to_hyphen, at) (rw (hyphen_ccxt, in_left) refl)
to_hyphen_symbol-to_hyphen (c ∷ t) is_perp (inl (dash, no_slash)) =
    let s = c ∷ t in
    let same = plain_agrees s is_perp dash in
    elim (Option-cases (find_char b':' s)) [
      | inl e ↦ rw (to_hyphen_symbol, to_hyphen, e) (rw (fallback_spot, no_slash) same)
      | inr (colon, e) ↦
          let left = no_slash-take colon s no_slash in
          rw (to_hyphen_symbol, to_hyphen, e)
            (rw (hyphen_ccxt, left) (rw (fallback_spot, no_slash) same))
    ]
