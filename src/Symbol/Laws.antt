-- ===== src/Symbol/Laws.antt =====
-- The compact form: its characters, and compact symbols as input.
use latentspeed.Prelude.{
  ℕ, ◌-◌, ◌≡◌, refl, ap, ap₂, subst, ◌∙◌, ◌≢◌, [], ◌∷◌, map, inl, inr, length, drop, arith, All,
  All-drop, All-take, All-mono, Bool-cases, Option-cases, if_ind, ltb, ◌&&◌,
}
use latentspeed.Prelude.Bytes.{
  Bytes, str_eq, str_eq_iff, find_char, to_upper, to_upper_idem, find_char-none, find_char-none-All,
  find_char-some,
}
use latentspeed.Symbol.{
  trim_settle_suffix, compact_from_hyphen_or_slash, drop_perp, perp_suffix, to_compact,
}

-- A character of a compact symbol: no separator, and no lower-case letter.
abbrev pub Compact : ℕ → Type 0
Compact c = (c ≢ b':') × (c ≢ b'-') × (c ≢ b'/') × (to_upper c ≡ c)

-- A character of the name of a currency: no separator.
abbrev pub Plain : ℕ → Type 0
Plain c = (c ≢ b':') × (c ≢ b'-') × (c ≢ b'/')

trim-NoColon : (s : Bytes) → All (λ c. c ≢ b':') (trim_settle_suffix s)
unfolding trim_settle_suffix
trim-NoColon s = elim (Option-cases (find_char b':' s)) [
  | inl e ↦ rw (e, trim_settle_suffix) (find_char-none-All b':' s e)
  | inr (i, e) ↦ rw (e, trim_settle_suffix) (find_char-some b':' i s e)
]

pub trim_plain : (s : Bytes) → All (λ c. c ≢ b':') s → trim_settle_suffix s ≡ s
unfolding trim_settle_suffix
trim_plain s h = rw (find_char-none b':' s h, trim_settle_suffix)

to_upper_colon : (c : ℕ) → c ≢ b':' → to_upper c ≢ b':'
unfolding to_upper
to_upper_colon c h = ground arith

compact_from_hyphen_or_slash-Compact :
    (s : Bytes)
    → All (λ c. (c ≢ b':') × (to_upper c ≡ c)) s
    → All Compact (compact_from_hyphen_or_slash s)
unfolding compact_from_hyphen_or_slash
compact_from_hyphen_or_slash-Compact [] h = tt
compact_from_hyphen_or_slash-Compact (c ∷ s) h =
    ground (arith, compact_from_hyphen_or_slash-Compact s h.1)

All-drop_perp : (P : ℕ → Type 0) (s : Bytes) → All P s → All P (drop_perp s)
unfolding drop_perp
All-drop_perp P s h =
    if_ind (All P) (ltb 5 (length s) && str_eq (drop (length s - 5) s) perp_suffix)
      (All-take P (length s - 5) s h) h

upper-shape :
    (s : Bytes) → All (λ c. c ≢ b':') s → All (λ c. (c ≢ b':') × (to_upper c ≡ c)) (map to_upper s)
upper-shape [] h = tt
upper-shape (c ∷ s) h = ((to_upper_colon c h.0, to_upper_idem c), upper-shape s h.1)

-- Whatever the source form, the compact symbol has no separator and no lower-case letter.
pub to_compact-Compact : (s product : Bytes) → All Compact (to_compact s product)
unfolding to_compact
to_compact-Compact s product =
    compact_from_hyphen_or_slash-Compact _ (All-drop_perp _ _ (upper-shape _ (trim-NoColon s)))

upper_fixed : (s : Bytes) → All Compact s → map to_upper s ≡ s
upper_fixed [] h = refl
upper_fixed (c ∷ s) h = ap₂ ◌∷◌ h.0.3 (upper_fixed s h.1)

pub compact-Plain : (s : Bytes) → All Plain s → compact_from_hyphen_or_slash s ≡ s
unfolding compact_from_hyphen_or_slash
compact-Plain [] h = refl
compact-Plain (c ∷ s) h = ground (arith, compact-Plain s h.1, h.0)

-- A symbol without a hyphen does not end in -PERP.
pub drop_perp_plain : (s : Bytes) → All (λ c. c ≢ b'-') s → drop_perp s ≡ s
unfolding drop_perp
drop_perp_plain s h = elim (Bool-cases (str_eq (drop (length s - 5) s) perp_suffix)) [
  | inl e ↦
      let tail = (str_eq_iff (drop (length s - 5) s) perp_suffix).0 e in
      let first = subst (All (λ c. c ≢ b'-')) tail (All-drop _ (length s - 5) s h) in
      absurd (first.0 refl)
  | inr e ↦ ground (arith, e)
]

fixed : (t product : Bytes) → All Compact t → to_compact t product ≡ t
unfolding to_compact
fixed t product h =
    ap (λ x. compact_from_hyphen_or_slash (drop_perp (map to_upper x)))
      (trim_plain t (All-mono _ _ t (λ c k. k.0) h))
    ∙ ap (λ x. compact_from_hyphen_or_slash (drop_perp x)) (upper_fixed t h)
    ∙ ap compact_from_hyphen_or_slash (drop_perp_plain t (All-mono _ _ t (λ c k. k.1) h))
    ∙ compact-Plain t (All-mono _ _ t (λ c k. (k.0, k.1, k.2)) h)

-- Compacting is idempotent: a compact symbol is its own compact form.
to_compact_idem :
    (s product other : Bytes) → to_compact (to_compact s product) other ≡ to_compact s product
to_compact_idem s product other = fixed (to_compact s product) other (to_compact-Compact s product)
