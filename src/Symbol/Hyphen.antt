-- ===== src/Symbol/Hyphen.antt =====
-- The hyphenated form: what becomes of the ccxt perpetual form BASE/QUOTE:SETTLE, and back.
use latentspeed.Prelude.{
  ℕ, suc, ◌+◌, ◌-◌, ◌<◌, ◌≡◌, refl, ap, ap₂, ◌∙◌, ◌≢◌, [], ◌∷◌, ◌++◌, map, Bool, true, false, inl,
  inr, length, drop, arith, All, All-append, All-mono, take-append, drop-append, length-append, ltb,
  lt→ltb, ◌⊎◌,
}
use latentspeed.Prelude.Bytes.{Bytes, str_eq, to_upper, is_empty, find_char-append}
use latentspeed.Symbol.{
  trim_settle_suffix, compact_from_hyphen_or_slash, drop_perp, perp_suffix, to_compact, to_hyphen,
  hyphen_ccxt, perp_part,
}
use latentspeed.Symbol.Laws.{Plain, trim_plain, compact-Plain, drop_perp_plain}

-- BASE/QUOTE:SETTLE
abbrev pub ccxt : Bytes → Bytes → Bytes → Bytes
ccxt base quote settle = (base ++ b'/' ∷ quote) ++ b':' ∷ settle

NoColon-pair :
    (base quote : Bytes)
    → All Plain base
    → All Plain quote
    → All (λ c. c ≢ b':') (base ++ b'/' ∷ quote)
NoColon-pair base quote hb hq =
    All-append _ base (b'/' ∷ quote) (All-mono _ _ base (λ c k. k.0) hb)
      (omega arith, All-mono _ _ quote (λ c k. k.0) hq)

drop_past : (xs : Bytes) (y : ℕ) (ys : Bytes) → drop (length xs + 1) (xs ++ y ∷ ys) ≡ ys
drop_past [] y ys = refl
drop_past (x ∷ xs) y ys =
    let e : suc (length xs) + 1 ≡ suc (length xs + 1) = omega arith in
    ap (λ k. drop k (x ∷ xs ++ y ∷ ys)) e ∙ drop_past xs y ys

not_empty : (xs : Bytes) (y : ℕ) (ys : Bytes) → is_empty (xs ++ y ∷ ys) ≡ false
not_empty [] y ys = refl
not_empty (x ∷ xs) y ys = refl

ccxt_left :
    (base quote str : Bytes) (is_perp : Bool)
    → All Plain base
    → hyphen_ccxt str (base ++ b'/' ∷ quote) is_perp ≡ (base ++ b'-' ∷ quote) ++ perp_part is_perp
unfolding hyphen_ccxt
ccxt_left base quote str is_perp h =
    let slash = find_char-append b'/' base quote (All-mono _ _ base (λ c k. k.2) h) in
    rw (slash, hyphen_ccxt)
      (ap₂ (λ x y. (x ++ b'-' ∷ y) ++ perp_part is_perp) (take-append base (b'/' ∷ quote))
        (drop_past base b'/' quote))

-- The ccxt form becomes BASE-QUOTE, with -PERP for a perpetual; the settlement currency is lost.
to_hyphen-ccxt :
    (base quote settle : Bytes) (is_perp : Bool)
    → All Plain base
    → All Plain quote
    → to_hyphen (ccxt base quote settle) is_perp ≡ (base ++ b'-' ∷ quote) ++ perp_part is_perp
unfolding to_hyphen
to_hyphen-ccxt base quote settle is_perp hb hq =
    let left = base ++ b'/' ∷ quote in
    let colon = find_char-append b':' left settle (NoColon-pair base quote hb hq) in
    rw (not_empty left b':' settle, colon, to_hyphen)
      (ap (λ x. hyphen_ccxt (ccxt base quote settle) x is_perp) (take-append left (b':' ∷ settle))
        ∙ ccxt_left base quote (ccxt base quote settle) is_perp hb)

upper_append : (xs ys : Bytes) → map to_upper (xs ++ ys) ≡ map to_upper xs ++ map to_upper ys
upper_append [] ys = refl
upper_append (x ∷ xs) ys = ap (◌∷◌ (to_upper x)) (upper_append xs ys)

to_upper-Plain : (c : ℕ) → Plain c → Plain (to_upper c)
unfolding to_upper
to_upper-Plain c h = ground arith

upper-Plain : (s : Bytes) → All Plain s → All Plain (map to_upper s)
upper-Plain [] h = tt
upper-Plain (c ∷ s) h = (to_upper-Plain c h.0, upper-Plain s h.1)

-- Compacting a plain part drops nothing of it, and a separator behind it goes.
compact_part :
    (s : Bytes) (sep : ℕ) (t : Bytes)
    → All Plain s
    → (sep ≡ b'-') ⊎ (sep ≡ b'/')
    → compact_from_hyphen_or_slash (s ++ sep ∷ t) ≡ s ++ compact_from_hyphen_or_slash t
unfolding compact_from_hyphen_or_slash
compact_part [] sep t h e = ground arith
compact_part (c ∷ s) sep t h e = ground (arith, compact_part s sep t h.1 e, h.0)

-- A symbol that ends in -PERP loses that ending.
drop_perp_suffix : (s : Bytes) → 0 < length s → drop_perp (s ++ perp_suffix) ≡ s
unfolding drop_perp str_eq
drop_perp_suffix s h =
    let e : length (s ++ perp_suffix) - 5 ≡ length s = omega (arith, length-append s perp_suffix) in
    let long : ltb 5 (length (s ++ perp_suffix)) ≡ true =
      lt→ltb 5 (length (s ++ perp_suffix)) (omega (arith, length-append s perp_suffix)) in
    rw (long, e, drop-append s perp_suffix, drop_perp) (take-append s perp_suffix)

-- The compact symbol of BASE sep QUOTE, in upper case.
compact_pair :
    (base quote : Bytes) (sep : ℕ)
    → All Plain base
    → All Plain quote
    → (sep ≡ b'-') ⊎ (sep ≡ b'/')
    → compact_from_hyphen_or_slash (map to_upper base ++ sep ∷ map to_upper quote)
      ≡ map to_upper base ++ map to_upper quote
compact_pair base quote sep hb hq e =
    compact_part (map to_upper base) sep (map to_upper quote) (upper-Plain base hb) e
    ∙ ap (◌++◌ (map to_upper base)) (compact-Plain (map to_upper quote) (upper-Plain quote hq))

upper_pair :
    (base quote : Bytes) (sep : ℕ)
    → to_upper sep ≡ sep
    → map to_upper (base ++ sep ∷ quote) ≡ map to_upper base ++ sep ∷ map to_upper quote
upper_pair base quote sep e =
    upper_append base (sep ∷ quote) ∙ ap (λ c. map to_upper base ++ c ∷ map to_upper quote) e

to_compact-hyphenated :
    (base quote product : Bytes)
    → All Plain base
    → All Plain quote
    → to_compact ((base ++ b'-' ∷ quote) ++ perp_suffix) product
      ≡ map to_upper base ++ map to_upper quote
unfolding to_compact to_upper
to_compact-hyphenated base quote product hb hq =
    let pair = base ++ b'-' ∷ quote in
    let up = map to_upper base ++ b'-' ∷ map to_upper quote in
    let plain : All (λ c. c ≢ b':') (pair ++ perp_suffix) =
      All-append _ pair perp_suffix
        (All-append _ base (b'-' ∷ quote) (All-mono _ _ base (λ c k. k.0) hb)
          (omega arith, All-mono _ _ quote (λ c k. k.0) hq))
        (omega arith) in
    let long : 0 < length up =
      omega (arith, length-append (map to_upper base) (b'-' ∷ map to_upper quote)) in
    ap (λ x. compact_from_hyphen_or_slash (drop_perp (map to_upper x)))
      (trim_plain (pair ++ perp_suffix) plain)
    ∙ ap (λ x. compact_from_hyphen_or_slash (drop_perp x))
        (upper_append pair perp_suffix
          ∙ ap (λ x. x ++ perp_suffix) (upper_pair base quote b'-' refl))
    ∙ ap compact_from_hyphen_or_slash (drop_perp_suffix up long)
    ∙ compact_pair base quote b'-' hb hq (inl refl)

to_compact-ccxt :
    (base quote settle product : Bytes)
    → All Plain base
    → All Plain quote
    → to_compact (ccxt base quote settle) product ≡ map to_upper base ++ map to_upper quote
unfolding to_compact to_upper
to_compact-ccxt base quote settle product hb hq =
    let left = base ++ b'/' ∷ quote in
    let up = map to_upper base ++ b'/' ∷ map to_upper quote in
    let colon = find_char-append b':' left settle (NoColon-pair base quote hb hq) in
    let cut : trim_settle_suffix (left ++ b':' ∷ settle) ≡ left =
      rw (colon, trim_settle_suffix) (take-append left (b':' ∷ settle)) in
    let plain : All (λ c. c ≢ b'-') up =
      All-append _ (map to_upper base) (b'/' ∷ map to_upper quote)
        (All-mono _ _ (map to_upper base) (λ c k. k.1) (upper-Plain base hb))
        (omega arith, All-mono _ _ (map to_upper quote) (λ c k. k.1) (upper-Plain quote hq)) in
    ap (λ x. compact_from_hyphen_or_slash (drop_perp (map to_upper x))) cut
    ∙ ap (λ x. compact_from_hyphen_or_slash (drop_perp x)) (upper_pair base quote b'/' refl)
    ∙ ap compact_from_hyphen_or_slash (drop_perp_plain up plain)
    ∙ compact_pair base quote b'/' hb hq (inr refl)

-- The compact symbol of a perpetual is the same from its ccxt form and from its hyphenated form:
-- base and quote in upper case, side by side.
pub to_compact-to_hyphen :
    (base quote settle product : Bytes)
    → All Plain base
    → All Plain quote
    → (to_compact (to_hyphen (ccxt base quote settle) true) product
        ≡ map to_upper base ++ map to_upper quote)
      × (to_compact (ccxt base quote settle) product ≡ map to_upper base ++ map to_upper quote)
to_compact-to_hyphen base quote settle product hb hq = (
  ap (λ x. to_compact x product) (to_hyphen-ccxt base quote settle true hb hq)
      ∙ to_compact-hyphenated base quote product hb hq,
  to_compact-ccxt base quote settle product hb hq,
)
