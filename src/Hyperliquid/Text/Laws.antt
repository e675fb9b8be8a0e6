-- ===== src/Hyperliquid/Text/Laws.antt =====
-- normalize_hex32 and ensure_hl_cloid of src/adapters/hyperliquid_adapter.cpp.
use latentspeed.Prelude.{
  ℕ, zero, suc, ◌-◌, ◌≡◌, ◌≤◌, sym, refl, ap, ap₂, ◌∙◌, [], ◌∷◌, ◌++◌, true, Bool-cases, inl, inr,
  length, drop, length-drop, length-append, arith, All, All-append, All-drop, if_ind, ltb,
}
use latentspeed.Prelude.Bytes.{Bytes, codes, starts_with, to_lower}
use latentspeed.Hyperliquid.Text.{
  is_hex_char, hex_digits, zeros, strip_0x, pad_hex32, normalize_hex32,
}

-- A hexadecimal digit that is no upper-case letter.
abbrev pub LowerHex : ℕ → Type 0
LowerHex c = (is_hex_char c ≡ true) × (to_lower c ≡ c)

lower-hex : (c : ℕ) → is_hex_char c ≡ true → LowerHex (to_lower c)
unfolding is_hex_char to_lower
lower-hex c h = ground arith

hex_digits-LowerHex : (s : Bytes) → All LowerHex (hex_digits s)
unfolding hex_digits
hex_digits-LowerHex [] = tt
hex_digits-LowerHex (c ∷ s) = elim (Bool-cases (is_hex_char c)) [
  | inl e ↦ rw (e, hex_digits) (lower-hex c e, hex_digits-LowerHex s)
  | inr e ↦ rw (e, hex_digits) (hex_digits-LowerHex s)
]

pub zeros-LowerHex : (n : ℕ) → All LowerHex (zeros n)
unfolding zeros is_hex_char to_lower
zeros-LowerHex zero = tt
zeros-LowerHex (suc n) = ((refl, refl), zeros-LowerHex n)

pub length-zeros : (n : ℕ) → length (zeros n) ≡ n
unfolding zeros
length-zeros zero = refl
length-zeros (suc n) = ap suc (length-zeros n)

pad_hex32-LowerHex : (s : Bytes) → All LowerHex s → All LowerHex (pad_hex32 s)
unfolding pad_hex32
pad_hex32-LowerHex s h =
    if_ind (All LowerHex) (ltb (length s) 64)
      (All-append LowerHex _ s (zeros-LowerHex (64 - length s)) h)
      (if_ind (All LowerHex) (ltb 64 (length s)) (All-drop LowerHex (length s - 64) s h) h)

length-pad_hex32 : (s : Bytes) → length (pad_hex32 s) ≡ 64
unfolding pad_hex32
length-pad_hex32 s = elim (Bool-cases (ltb (length s) 64)) [
  | inl e ↦
      rw (pad_hex32, e)
        (length-append (zeros (64 - length s)) s ∙ ground (arith, length-zeros (64 - length s)))
  | inr e ↦ elim (Bool-cases (ltb 64 (length s))) [
    | inl g ↦ rw (pad_hex32, e, g) (length-drop (length s - 64) s ∙ ground arith)
    | inr g ↦ rw (pad_hex32, e, g) (ground arith)
  ]
]

hex_digits-fixed : (s : Bytes) → All LowerHex s → hex_digits s ≡ s
unfolding hex_digits
hex_digits-fixed [] h = refl
hex_digits-fixed (c ∷ s) h = rw (hex_digits, h.0.0) (ap₂ ◌∷◌ h.0.1 (hex_digits-fixed s h.1))

pad_hex32-fixed : (s : Bytes) → length s ≡ 64 → pad_hex32 s ≡ s
unfolding pad_hex32
pad_hex32-fixed s h = rw (pad_hex32, h) refl

drop-zeros_le : (k n : ℕ) (s : Bytes) → k ≤ n → drop k (zeros n ++ s) ≡ zeros (n - k) ++ s
unfolding zeros
drop-zeros_le zero n s h = let e : n ≡ n - 0 = omega arith in ap (λ m. zeros m ++ s) e
drop-zeros_le (suc k) zero s h = absurd (omega arith)
drop-zeros_le (suc k) (suc n) s h =
    let e : n - k ≡ suc n - suc k = omega arith in
    drop-zeros_le k n s (omega arith) ∙ ap (λ m. zeros m ++ s) e

drop-zeros_ge : (k n : ℕ) (s : Bytes) → n ≤ k → drop k (zeros n ++ s) ≡ drop (k - n) s
unfolding zeros
drop-zeros_ge k zero s h = let e : k ≡ k - 0 = omega arith in ap (λ m. drop m s) e
drop-zeros_ge zero (suc n) s h = absurd (omega arith)
drop-zeros_ge (suc k) (suc n) s h =
    let e : k - n ≡ suc k - suc n = omega arith in
    drop-zeros_ge k n s (omega arith) ∙ ap (λ m. drop m s) e

-- The last `n` of the bytes.
abbrev pub last_of : ℕ → Bytes → Bytes
last_of n s = drop (length s - n) s

-- Both branches are one formula: 64 zeros in front, and the last 64 of all.
pad_hex32_lem : (s : Bytes) → pad_hex32 s ≡ last_of 64 (zeros 64 ++ s)
unfolding pad_hex32
pad_hex32_lem s =
    let size : length s ≡ length (zeros 64 ++ s) - 64 =
      omega (arith, length-append (zeros 64) s, length-zeros 64) in
    let by : drop (length s) (zeros 64 ++ s) ≡ last_of 64 (zeros 64 ++ s) =
      ap (λ k. drop k (zeros 64 ++ s)) size in
    elim (Bool-cases (ltb (length s) 64)) [
      | inl e ↦ rw (pad_hex32, e) (sym (drop-zeros_le (length s) 64 s (ground (arith, e))) ∙ by)
      | inr e ↦
          let moved = drop-zeros_ge (length s) 64 s (ground (arith, e)) in
          elim (Bool-cases (ltb 64 (length s))) [
            | inl g ↦ rw (pad_hex32, e, g) (sym moved ∙ by)
            | inr g ↦
                let none_out : 0 ≡ length s - 64 = ground (arith, g) in
                rw (pad_hex32, e, g) (ap (λ k. drop k s) none_out ∙ sym moved ∙ by)
          ]
    ]

-- Whatever the text `s`, the result is 0x and 64 hexadecimal digits in lower case: the last 64 of 64
-- zeros and the hexadecimal digits of `s` in their order, a prefix 0x or 0X left out. A text `t` of
-- 64 such digits stays as it is behind 0x.
pub normalize_hex32_lem :
    (s t : Bytes)
    → length t ≡ 64
    → All LowerHex t
    → (length (normalize_hex32 s) ≡ 66)
      × (starts_with (codes "0x") (normalize_hex32 s) ≡ true)
      × All LowerHex (drop 2 (normalize_hex32 s))
      × (normalize_hex32 s ≡ codes "0x" ++ last_of 64 (zeros 64 ++ hex_digits (strip_0x s)))
      × (normalize_hex32 (codes "0x" ++ t) ≡ codes "0x" ++ t)
unfolding normalize_hex32 starts_with strip_0x
normalize_hex32_lem s t size plain = (
  ap (λ n. suc (suc n)) (length-pad_hex32 (hex_digits (strip_0x s))),
  refl,
  pad_hex32-LowerHex _ (hex_digits-LowerHex (strip_0x s)),
  ap (λ u. codes "0x" ++ u) (pad_hex32_lem (hex_digits (strip_0x s))),
  ap (λ u. codes "0x" ++ u) (ap pad_hex32 (hex_digits-fixed t plain) ∙ pad_hex32-fixed t size),
)
