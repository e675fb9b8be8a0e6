-- ===== src/Rolling/Laws.antt =====
-- The two windows and the order flow, whatever the arithmetic of double rounds to.
use latentspeed.Prelude.{
  ℕ, zero, suc, ◌+◌, ◌-◌, ◌≤◌, ◌<◌, ◌≡◌, refl, sym, ap, ap₂, ◌⊎◌, ◌∙◌, List, [], ◌∷◌, ◌++◌,
  append-nil, append_assoc, none, some, inl, inr, length, drop, length-append, length-drop, min,
  leb, Bool-cases, arith,
}
use latentspeed.Rolling.{
  Arith, RollingStats, rolling_stats, push_value, pop_value, update_mid, update_all, update_ofi,
  update_flows, ofi_rolling, total,
}

module _ {A : Type 0} where
  drop-append : (k : ℕ) (xs ys : List A) → k ≤ length xs → drop k (xs ++ ys) ≡ drop k xs ++ ys
  drop-append zero xs ys h = refl
  drop-append (suc k) [] ys h = absurd (omega arith)
  drop-append (suc k) (x ∷ xs) ys h = drop-append k xs ys (omega arith)

  drop-nil : (k : ℕ) → drop {A = A} k [] ≡ []
  drop-nil zero = refl
  drop-nil (suc k) = refl

  drop-drop : (j k : ℕ) (xs : List A) → drop j (drop k xs) ≡ drop (k + j) xs
  drop-drop j zero xs = let e : j ≡ 0 + j = omega arith in ap (λ n. drop n xs) e
  drop-drop j (suc k) [] = drop-nil j ∙ sym (drop-nil (suc k + j))
  drop-drop j (suc k) (x ∷ xs) =
      let e : suc (k + j) ≡ suc k + j = omega arith in
      drop-drop j k xs ∙ ap (λ n. drop n (x ∷ xs)) e

  -- A window of at most `m` after one more value, and after more of them.
  abbrev slid : ℕ → List A → A → List A
  slid m w v = drop (suc (length w) - m) (w ++ v ∷ [])

  slide_again :
      (m : ℕ) (v : A) (vs w : List A)
      → 0 < m
      → length w ≤ m
      → drop (length (slid m w v) + length vs - m) (slid m w v ++ vs)
        ≡ drop (length w + length (v ∷ vs) - m) (w ++ v ∷ vs)
  slide_again m v vs w pos fit =
      let k = suc (length w) - m in
      let j = length (slid m w v) + length vs - m in
      let long = length-append w (v ∷ []) in
      let short : length (slid m w v) ≡ length (w ++ v ∷ []) - k = length-drop k (w ++ v ∷ []) in
      let sum : k + j ≡ length w + length (v ∷ vs) - m = omega arith in
      ap (drop j) (sym (drop-append k (w ++ v ∷ []) vs (omega arith)))
      ∙ drop-drop j k ((w ++ v ∷ []) ++ vs)
      ∙ ap (λ n. drop n ((w ++ v ∷ []) ++ vs)) sum
      ∙ ap (drop _) (append_assoc w (v ∷ []) vs)

  slid_full :
      (m : ℕ) (old v : A) (rest : List A)
      → suc (length rest) ≡ m
      → slid m (old ∷ rest) v ≡ rest ++ v ∷ []
  slid_full m old v rest h =
      let one : suc (suc (length rest)) - m ≡ 1 = omega arith in
      ap (λ k. drop k (old ∷ rest ++ v ∷ [])) one

  slid_room : (m : ℕ) (v : A) (w : List A) → length w < m → slid m w v ≡ w ++ v ∷ []
  slid_room m v w h =
      let none_out : suc (length w) - m ≡ 0 = omega arith in ap (λ k. drop k (w ++ v ∷ [])) none_out

  length-slid : (m : ℕ) (v : A) (w : List A) → 0 < m → length w ≤ m → length (slid m w v) ≤ m
  length-slid m v w pos fit =
      omega (arith, length-drop (suc (length w) - m) (w ++ v ∷ []), length-append w (v ∷ []))

  List-cases : (w : List A) → (w ≡ []) ⊎ ((x : A) × (rest : List A) × (w ≡ x ∷ rest))
  List-cases [] = inl refl
  List-cases (x ∷ rest) = inr (x, rest, refl)

  -- One update with a value: it is defined, slides the window and counts it.
  update_mid_lem :
      (num : Arith A) (v : A) (s : RollingStats A)
      → 0 < s.max_size
      → length s.window ≤ s.max_size
      → s.count ≡ length s.window
      → (r : RollingStats A) × (update_mid num v s ≡ some r)
        × (r.max_size ≡ s.max_size)
        × (r.window ≡ slid s.max_size s.window v)
        × (r.count ≡ length r.window)
  unfolding update_mid push_value pop_value
  update_mid_lem num v s pos fit counted = elim (Bool-cases (leb s.max_size (length s.window))) [
    | inr room ↦ (
      push_value num v s,
      rw room refl,
      refl,
      sym (slid_room s.max_size v s.window (ground (arith, room))),
      omega (arith, length-append s.window (v ∷ [])),
    )
    | inl full ↦ elim (List-cases s.window) [
      | inl e ↦ let empty : length s.window ≡ 0 = ap length e in absurd (ground (arith, full))
      | inr (old, rest, e) ↦
          let size : length s.window ≡ suc (length rest) = ap length e in
          (
            push_value num v (record s {
              window = rest;
              sum = num.sub s.sum old;
              sum_sq = num.sub s.sum_sq (num.mul old old);
              count = s.count - 1;
            }),
            rw full (
                ap
                  (λ w. elim (pop_value num w s) [
                    | none ↦ none
                    | some popped ↦ some (push_value num v popped)
                  ])
                  e),
            refl,
            sym (slid_full s.max_size old v rest (ground (arith, full)))
                ∙ ap (λ w. slid s.max_size w v) (sym e),
            omega (arith, length-append rest (v ∷ [])),
          )
    ]
  ]

  update_all_lem :
      (num : Arith A) (vs : List A) (s : RollingStats A)
      → 0 < s.max_size
      → length s.window ≤ s.max_size
      → s.count ≡ length s.window
      → (r : RollingStats A) × (update_all num vs s ≡ some r)
        × (r.window ≡ drop (length s.window + length vs - s.max_size) (s.window ++ vs))
        × (r.count ≡ length r.window)
  unfolding update_all
  update_all_lem num [] s pos fit counted =
      let none_out : length s.window + 0 - s.max_size ≡ 0 = omega arith in
      (s, refl, rw none_out (sym (append-nil s.window)), counted)
  update_all_lem num (v ∷ vs) s pos fit counted =
      let (p, done, size, slides, counted') = update_mid_lem num v s pos fit counted in
      let short = length-slid s.max_size v s.window pos fit in
      let fit' : length p.window ≤ p.max_size = omega (arith, ap length slides, short) in
      let (r, rest, window, counts) = update_all_lem num vs p (omega arith) fit' counted' in
      (
        r,
        rw (update_all, done) rest,
        window
            ∙ ap₂ (λ (w : List A) (m : ℕ). drop (length w + length vs - m) (w ++ vs)) slides size
            ∙ slide_again s.max_size v vs s.window pos fit,
        counts,
      )

  -- The differences of the flows, from the sizes before the first on.
  abbrev pub flows : Arith A → A → A → List (A × A) → List A
  flows num bid ask [] = []
  flows num bid ask ((b, a) ∷ xs) = num.sub (num.sub b bid) (num.sub a ask) ∷ flows num b a xs

  -- One update with two sizes: it is defined, and slides the window of the flows.
  update_ofi_lem :
      (num : Arith A) (bid ask : A) (s : RollingStats A)
      → 0 < s.max_size
      → length s.ofi_window ≤ s.max_size
      → (r : RollingStats A) × (update_ofi num bid ask s ≡ some r)
        × (r.max_size ≡ s.max_size)
        × (r.ofi_window
            ≡ slid s.max_size s.ofi_window
                (num.sub (num.sub bid s.last_bid_size) (num.sub ask s.last_ask_size)))
        × (r.last_bid_size ≡ bid)
        × (r.last_ask_size ≡ ask)
  unfolding update_ofi
  update_ofi_lem num bid ask s pos fit =
      let flow = num.sub (num.sub bid s.last_bid_size) (num.sub ask s.last_ask_size) in
      let pushed : List A → RollingStats A = λ kept. record s {
        ofi_window = kept ++ flow ∷ [];
        last_bid_size = bid;
        last_ask_size = ask;
      } in
      elim (Bool-cases (leb s.max_size (length s.ofi_window))) [
        | inr room ↦ (
          pushed s.ofi_window,
          rw room refl,
          refl,
          sym (slid_room s.max_size flow s.ofi_window (ground (arith, room))),
          refl,
          refl,
        )
        | inl full ↦ elim (List-cases s.ofi_window) [
          | inl e ↦
              let empty : length s.ofi_window ≡ 0 = ap length e in absurd (ground (arith, full))
          | inr (old, rest, e) ↦
              let size : length s.ofi_window ≡ suc (length rest) = ap length e in
              (
                pushed rest,
                rw full
                    (ap (λ (w : List A). elim w [ [] ↦ none | x ∷ kept ↦ some (pushed kept) ]) e),
                refl,
                sym (slid_full s.max_size old flow rest (ground (arith, full)))
                    ∙ ap (λ w. slid s.max_size w flow) (sym e),
                refl,
                refl,
              )
        ]
      ]

  update_flows_lem :
      (num : Arith A) (xs : List (A × A)) (s : RollingStats A)
      → 0 < s.max_size
      → length s.ofi_window ≤ s.max_size
      → (r : RollingStats A) × (update_flows num xs s ≡ some r)
        × (r.ofi_window
            ≡ drop
                (length s.ofi_window
                  + length (flows num s.last_bid_size s.last_ask_size xs)
                  - s.max_size)
                (s.ofi_window ++ flows num s.last_bid_size s.last_ask_size xs))
  unfolding update_flows
  update_flows_lem num [] s pos fit =
      let none_out : length s.ofi_window + 0 - s.max_size ≡ 0 = omega arith in
      (s, refl, rw none_out (sym (append-nil s.ofi_window)))
  update_flows_lem num ((bid, ask) ∷ xs) s pos fit =
      let flow = num.sub (num.sub bid s.last_bid_size) (num.sub ask s.last_ask_size) in
      let (p, done, size, slides, b, a) = update_ofi_lem num bid ask s pos fit in
      let short = length-slid s.max_size flow s.ofi_window pos fit in
      let fit' : length p.ofi_window ≤ p.max_size = omega (arith, ap length slides, short) in
      let (r, rest, window) = update_flows_lem num xs p (omega arith) fit' in
      let same : flows num p.last_bid_size p.last_ask_size xs ≡ flows num bid ask xs =
        ap₂ (λ x y. flows num x y xs) b a in
      (
        r,
        rw (update_flows, done) rest,
        window
            ∙ ap
                (λ (fs : List A).
                  drop (length p.ofi_window + length fs - p.max_size) (p.ofi_window ++ fs))
                same
            ∙ ap₂
                (λ (w : List A) (m : ℕ).
                  drop (length w + length (flows num bid ask xs) - m) (w ++ flows num bid ask xs))
                slides size
            ∙ slide_again s.max_size flow (flows num bid ask xs) s.ofi_window pos fit,
      )

-- The average of a list, computed from nothing else.
unfoldable pub average : {A : Type 0} → Arith A → List A → A
average num [] = num.zero
average num (x ∷ xs) = num.div (total num num.zero (x ∷ xs)) (length (x ∷ xs))

by_average :
    {A : Type 0} (num : Arith A) (w : List A) (s : RollingStats A)
    → s.ofi_window ≡ w
    → ofi_rolling num s ≡ average num w
unfolding ofi_rolling average
by_average num [] s e = rw (ofi_rolling, e) refl
by_average num (x ∷ xs) s e =
    rw (ofi_rolling, e) (ap (λ l. num.div (total num num.zero l) (length l)) e)

-- From the constructor on, with a window of at least one value and whatever the arithmetic rounds
-- to: updates with any values are defined, the window holds the last of them up to its size, and the
-- count is their number. Updates with any sizes of the book are defined, and ofi_rolling is the
-- average, computed anew, of the last differences of the flows up to that size.
pub rolling_windows :
    {A : Type 0} (num : Arith A) (m : ℕ) (vs : List A) (xs : List (A × A))
    → 0 < m
    → ((r : RollingStats A) × (update_all num vs (rolling_stats num m) ≡ some r)
        × (r.window ≡ drop (length vs - m) vs)
        × (r.count ≡ min m (length vs)))
      × ((r : RollingStats A) × (update_flows num xs (rolling_stats num m) ≡ some r)
          × (ofi_rolling num r
              ≡ average num (
                  drop
                    (length (flows num num.zero num.zero xs) - m)
                    (flows num num.zero num.zero xs))))
unfolding rolling_stats
rolling_windows num m vs xs pos =
    let fs = flows num num.zero num.zero xs in
    let (r, done, window, counts) =
      update_all_lem num vs (rolling_stats num m) pos (omega arith) refl in
    let (q, flowed, ofi) = update_flows_lem num xs (rolling_stats num m) pos (omega arith) in
    let all : 0 + length vs - m ≡ length vs - m = omega arith in
    let all_flows : 0 + length fs - m ≡ length fs - m = omega arith in
    let same : r.window ≡ drop (length vs - m) vs = window ∙ ap (λ n. drop n vs) all in
    let sizes = ap length same ∙ length-drop (length vs - m) vs in
    (
      (r, done, same, omega (arith, counts, sizes)),
      (
        q,
        flowed,
        by_average num q.ofi_window q refl ∙ ap (average num) (ofi ∙ ap (λ n. drop n fs) all_flows),
      ),
    )
