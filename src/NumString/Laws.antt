-- ===== src/NumString/Laws.antt =====
-- trim_trailing_zeros on the forms of a decimal text.
use latentspeed.Prelude.{
  ℕ, zero, suc, ◌+◌, ◌-◌, ◌≡◌, ◌≢◌, refl, sym, ap, ◌∙◌, [], ◌∷◌, ◌++◌, append_assoc, none, some,
  ◌==◌, if◌then◌else◌, length, take, take-append, length-append, All, arith, test_false,
}
use latentspeed.Prelude.Bytes.{Bytes, codes, is_empty, find_char-append, find_char-none}
use latentspeed.NumString.{
  find_last_not_of, back, ends_with_dot, trim_fraction, trim_trailing_zeros,
}

unfoldable pub zeros : ℕ → Bytes
zeros zero = []
zeros (suc k) = b'0' ∷ zeros k

last-zeros : (k : ℕ) → find_last_not_of b'0' (zeros k) ≡ none
unfolding find_last_not_of zeros
last-zeros zero = refl
last-zeros (suc k) = rw (last-zeros k) refl

last-not_zero :
    (s : Bytes) (d k : ℕ) → d ≢ b'0' → find_last_not_of b'0' (s ++ d ∷ zeros k) ≡ some (length s)
unfolding find_last_not_of
last-not_zero [] d k h = rw (find_last_not_of, last-zeros k, test_false d b'0' h) refl
last-not_zero (c ∷ s) d k h = rw (find_last_not_of, last-not_zero s d k h) refl

take-past : (s t : Bytes) (d n : ℕ) → n ≡ length s + 1 → take n (s ++ d ∷ t) ≡ s ++ d ∷ []
take-past [] t d n e = let one : n ≡ 1 = omega (arith, e) in ap (λ j. take j (d ∷ t)) one
take-past (c ∷ s) t d zero e = absurd (omega (arith, e))
take-past (c ∷ s) t d (suc n) e = ap (◌∷◌ c) (take-past s t d n (omega (arith, e)))

back-append : (s : Bytes) (d : ℕ) → back (s ++ d ∷ []) ≡ some d
unfolding back
back-append [] d = refl
back-append (c ∷ s) d = rw (back-append s d) refl

pop_back-append : (s : Bytes) (d : ℕ) → take (length (s ++ d ∷ []) - 1) (s ++ d ∷ []) ≡ s
pop_back-append s d =
    let n : length (s ++ d ∷ []) - 1 ≡ length s = omega (arith, length-append s (d ∷ [])) in
    ap (λ j. take j (s ++ d ∷ [])) n ∙ take-append s (d ∷ [])

trim_fraction_lem :
    (s : Bytes) (d k : ℕ)
    → d ≢ b'0'
    → trim_fraction (s ++ d ∷ zeros k) ≡ (if d == b'.' then s else s ++ d ∷ [])
unfolding trim_fraction
trim_fraction_lem s d k h =
    rw
      (
        trim_fraction,
        last-not_zero s d k h,
        take-past s (zeros k) d (length s + 1) refl,
        ends_with_dot,
        back-append s d,
        pop_back-append s d,
      )
      refl

has_dot :
    (ip t : Bytes)
    → All (λ c. c ≢ b'.') ip
    → trim_trailing_zeros (ip ++ b'.' ∷ t) ≡ (
        if is_empty (trim_fraction (ip ++ b'.' ∷ t))
        then codes "0"
        else trim_fraction (ip ++ b'.' ∷ t))
unfolding trim_trailing_zeros
has_dot ip t h = rw (trim_trailing_zeros, find_char-append b'.' ip t h) refl

no_dot :
    (s : Bytes)
    → All (λ x. x ≢ b'.') s
    → trim_trailing_zeros s ≡ (if is_empty s then codes "0" else s)
unfolding trim_trailing_zeros
no_dot s n = rw (trim_trailing_zeros, find_char-none b'.' s n) refl

-- A text without a dot stays, and so does a fraction up to its last digit that is not 0; of a
-- fraction of zeros only the part before the dot is left.
trim_trailing_zeros_lem :
    (c : ℕ) (ip g : Bytes) (d k : ℕ)
    → All (λ x. x ≢ b'.') (c ∷ ip)
    → d ≢ b'0'
    → d ≢ b'.'
    → (trim_trailing_zeros (c ∷ ip) ≡ c ∷ ip)
      × (trim_trailing_zeros ((c ∷ ip) ++ b'.' ∷ zeros k) ≡ c ∷ ip)
      × (trim_trailing_zeros ((c ∷ ip) ++ b'.' ∷ (g ++ d ∷ zeros k))
          ≡ (c ∷ ip) ++ b'.' ∷ (g ++ d ∷ []))
trim_trailing_zeros_lem c ip g d k h digit nodot =
    let text = c ∷ ip in
    let or_zero_ : Bytes → Bytes = λ v. if is_empty v then codes "0" else v in
    let whole = trim_fraction_lem text b'.' k (λ e. omega (arith, e)) in
    let part : trim_fraction (text ++ b'.' ∷ (g ++ d ∷ zeros k)) ≡ text ++ b'.' ∷ (g ++ d ∷ []) =
      ap trim_fraction (sym (append_assoc text (b'.' ∷ g) (d ∷ zeros k)))
      ∙ trim_fraction_lem (text ++ b'.' ∷ g) d k digit
      ∙ (ap (λ b. if b then text ++ b'.' ∷ g else (text ++ b'.' ∷ g) ++ d ∷ [])
            (test_false d b'.' nodot)
          ∙ append_assoc text (b'.' ∷ g) (d ∷ [])) in
    (
      no_dot text h,
      has_dot text (zeros k) h ∙ ap or_zero_ whole,
      has_dot text (g ++ d ∷ zeros k) h ∙ ap or_zero_ part,
    )
