-- ===== src/Hft/FixedString/Laws.antt =====
-- assign, clear and the comparisons of FixedString, for the text and for the buffer.
use latentspeed.Prelude.{
  ℕ, zero, suc, ◌-◌, ◌≤◌, ◌<◌, ◌≡◌, refl, sym, ap, ◌∙◌, ◌↔◌, [], ◌∷◌, ◌++◌, true, min, length, set,
  take, drop, get_elem?, some, none, arith, length-append, length-set, length-take, length-drop,
  take_of_le, take-min, get_elem?-set_self,
}
use latentspeed.Prelude.Bytes.{Bytes, c_str, str_eq_iff}
use latentspeed.Hft.FixedString.{FixedString, clear, assign, assign_ptr, view, equals}

-- The buffer has N bytes, and the byte behind the text is a NUL inside it.
pub record IsValid (n : ℕ) (s : FixedString) : Type 0 where
  pub room : length s.data_ ≡ n
  pub fits : s.size_ < n
  pub ended : get_elem? s.data_ s.size_ ≡ some 0

take-set : (k : ℕ) (xs : Bytes) (v : ℕ) → take k (set xs k v) ≡ take k xs
take-set zero xs v = refl
take-set (suc k) [] v = refl
take-set (suc k) (x ∷ xs) v = ap (◌∷◌ x) (take-set k xs v)

take-take-append : (k : ℕ) (xs ys : Bytes) → k ≤ length xs → take k (take k xs ++ ys) ≡ take k xs
take-take-append zero xs ys h = refl
take-take-append (suc k) [] ys h = absurd (omega arith)
take-take-append (suc k) (x ∷ xs) ys h = ap (◌∷◌ x) (take-take-append k xs ys (omega arith))

-- The buffer after the copy has the length that it had.
length-copy :
    (k : ℕ) (sv buf : Bytes)
    → k ≤ length sv
    → k ≤ length buf
    → length (take k sv ++ drop k buf) ≡ length buf
length-copy k sv buf h j =
    omega (arith, length-append (take k sv) (drop k buf), length-take k sv, length-drop k buf)

-- After `assign` the text is the first N - 1 bytes of the argument.
view-assign : (n : ℕ) (s : FixedString) (sv : Bytes) → view (assign n s sv) ≡ take (n - 1) sv
unfolding view assign
view-assign n s sv =
    let k = min (length sv) (n - 1) in
    take-set k (take k sv ++ drop k s.data_) 0
    ∙ take-take-append k sv (drop k s.data_) (omega arith)
    ∙ take-min (n - 1) sv

assign-IsValid :
    (n : ℕ) (s : FixedString) (sv : Bytes) → 0 < n → IsValid n s → IsValid n (assign n s sv)
unfolding assign
assign-IsValid n s sv pos v =
    let k = min (length sv) (n - 1) in
    let copied = length-copy k sv s.data_ (omega arith) (omega (arith, v.room)) in
    record {
      room = length-set (take k sv ++ drop k s.data_) k 0 ∙ copied ∙ v.room;
      fits = omega arith;
      ended = get_elem?-set_self (take k sv ++ drop k s.data_) k 0 (omega (arith, copied, v.room));
    }

clear-IsValid : (n : ℕ) (s : FixedString) → 0 < n → IsValid n s → IsValid n (clear s)
unfolding clear
clear-IsValid n s pos v = record {
  room = length-set s.data_ 0 0 ∙ v.room;
  fits = pos;
  ended = get_elem?-set_self s.data_ 0 0 (omega (arith, v.room));
}

-- Either form of `assign` keeps the buffer terminated and in bounds; a null pointer clears the
-- text, and any other text is kept up to N - 1 bytes.
assign_ptr_lem :
    (n : ℕ) (s : FixedString)
    → 0 < n
    → IsValid n s
    → (IsValid n (assign_ptr n s none) × (view (assign_ptr n s none) ≡ []))
      × ((str : Bytes)
          → IsValid n (assign_ptr n s (some str))
            × (view (assign_ptr n s (some str)) ≡ take (n - 1) str))
unfolding assign_ptr view clear
assign_ptr_lem n s pos v =
    ((clear-IsValid n s pos v, refl), λ str. (assign-IsValid n s str pos v, view-assign n s str))

-- Whatever fits comes back whole.
view-assign_of_le :
    (n : ℕ) (s : FixedString) (sv : Bytes) → length sv ≤ n - 1 → view (assign n s sv) ≡ sv
view-assign_of_le n s sv h = view-assign n s sv ∙ take_of_le (n - 1) sv h

-- Two texts are taken for the same exactly when their first N - 1 bytes agree, so identifiers
-- that differ only behind them collide.
equals-assign :
    (n : ℕ) (s t : FixedString) (a b : Bytes)
    → (equals (assign n s a) (assign n t b) ≡ true) ↔ (take (n - 1) a ≡ take (n - 1) b)
unfolding equals
equals-assign n s t a b =
    let seen = str_eq_iff (view (assign n s a)) (view (assign n t b)) in
    (
      λ e. sym (view-assign n s a) ∙ seen.0 e ∙ view-assign n t b,
      λ e. seen.1 (view-assign n s a ∙ e ∙ sym (view-assign n t b)),
    )

c_str-set : (k : ℕ) (xs : Bytes) → k < length xs → c_str (set xs k 0) ≡ c_str (take k xs)
unfolding c_str
c_str-set k [] h = absurd (omega arith)
c_str-set zero (x ∷ xs) h = refl
c_str-set (suc k) (x ∷ xs) h = ground (arith, c_str-set k xs (omega arith))

-- A callee that reads the buffer up to the first NUL sees the text up to its first NUL: the
-- terminator stands where the text ends.
c_str-assign :
    (n : ℕ) (s : FixedString) (sv : Bytes)
    → 0 < n
    → IsValid n s
    → c_str (assign n s sv).data_ ≡ c_str (take (n - 1) sv)
unfolding assign
c_str-assign n s sv pos v =
    let k = min (length sv) (n - 1) in
    let copied = length-copy k sv s.data_ (omega arith) (omega (arith, v.room)) in
    c_str-set k (take k sv ++ drop k s.data_) (omega (arith, copied, v.room))
    ∙ ap c_str (take-take-append k sv (drop k s.data_) (omega arith) ∙ take-min (n - 1) sv)
