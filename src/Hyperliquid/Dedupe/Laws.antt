-- ===== src/Hyperliquid/Dedupe/Laws.antt =====
-- The window of seen fills: what it keeps, and for how long.
use latentspeed.Prelude.{
  ℕ, suc, ◌+◌, ◌≤◌, ◌<◌, ◌≡◌, refl, sym, ap, ◌∙◌, subst, List, [], ◌∷◌, ◌++◌, Bool, true, false,
  ◌||◌, if◌then◌else◌, ltb, drop, length, length-append, arith, Bool-cases, inl, inr, append_assoc,
}
use latentspeed.Prelude.Bytes.{Bytes, str_eq, str_eq_iff, str_eq_comm, str_eq_refl}
use latentspeed.Hyperliquid.Dedupe.{Window, member, erase_key, drop_front, evict, see, see_all}

unfoldable pub NoDup : List Bytes → Type 0
NoDup [] = Unit
NoDup (x ∷ xs) = (member x xs ≡ false) × NoDup xs

-- The set holds the keys of the queue, none of which is there twice, and at most `max`.
unfoldable pub IsWindow : ℕ → Window → Type 0
unfolding NoDup
IsWindow max w =
    ((k : Bytes) → member k w.keys ≡ member k w.queue) × NoDup w.queue × (length w.queue ≤ max)

true_ne_false : true ≡ false → ⊥
true_ne_false h = cc

member-append : (k : Bytes) (xs ys : List Bytes) → member k (xs ++ ys) ≡ member k xs || member k ys
unfolding member
member-append k [] ys = refl
member-append k (x ∷ xs) ys = ground (arith, member-append k xs ys)

member-erase_key :
    (k old : Bytes) (xs : List Bytes)
    → member k (erase_key old xs) ≡ (if str_eq old k then false else member k xs)
unfolding member erase_key
member-erase_key k old [] = ground arith
member-erase_key k old (x ∷ xs) =
    let ih = member-erase_key k old xs in
    elim (Bool-cases (str_eq x old)) [
      | inl e ↦ let same : x ≡ old = (str_eq_iff x old).0 e in rw (e, same) (ground (arith, ih))
      | inr e ↦ elim (Bool-cases (str_eq x k)) [
        | inr g ↦ rw (e, g) ih
        | inl g ↦ elim (Bool-cases (str_eq old k)) [
          | inr h ↦ rw (e, g, h) refl
          | inl h ↦
              let same : x ≡ old = (str_eq_iff x k).0 g ∙ sym ((str_eq_iff old k).0 h) in
              absurd (true_ne_false (sym ((str_eq_iff x old).1 same) ∙ e))
        ]
      ]
    ]

NoDup-append : (xs : List Bytes) (k : Bytes) → NoDup xs → member k xs ≡ false → NoDup (xs ++ k ∷ [])
unfolding NoDup member
NoDup-append [] k h g = (refl, tt)
NoDup-append (x ∷ xs) k h g = (
  member-append x xs (k ∷ []) ∙ ground (arith, str_eq_comm x k),
  NoDup-append xs k h.1 (ground arith),
)

drop_front-IsWindow :
    (max : ℕ) (q keys : List Bytes)
    → ((k : Bytes) → member k keys ≡ member k q)
    → NoDup q
    → length q ≤ suc max
    → IsWindow max (drop_front q keys)
unfolding IsWindow NoDup drop_front member
drop_front-IsWindow max [] keys agree nodup fit = (agree, tt, omega arith)
drop_front-IsWindow max (old ∷ q) keys agree nodup fit = (agree', nodup.1, omega arith)
  where
    agree' : (k : Bytes) → member k (erase_key old keys) ≡ member k q
    agree' k = member-erase_key k old keys ∙ elim (Bool-cases (str_eq old k)) [
      | inl e ↦ rw e (sym (subst (λ j. member j q ≡ false) ((str_eq_iff old k).0 e) nodup.0))
      | inr e ↦ rw e (agree k ∙ rw e refl)
    ]

-- What the handler does with a key keeps the window well-formed, and whether a key was seen is
-- whether the queue holds it.
pub see-IsWindow :
    (max : ℕ) (key : Bytes) (w : Window) → IsWindow max w → IsWindow max (see max key w).1
unfolding IsWindow see evict member
see-IsWindow max key w h = elim (Bool-cases (member key w.keys)) [
  | inl e ↦ rw (e, see) h
  | inr e ↦
      let q = w.queue ++ key ∷ [] in
      let agree : (k : Bytes) → member k (key ∷ w.keys) ≡ member k q =
        λ k. rw (member-append k w.queue (key ∷ [])) (ground (arith, h.0 k)) in
      let nodup = NoDup-append w.queue key h.1 (sym (h.0 key) ∙ e) in
      let size : length q ≡ suc (length w.queue) = length-append w.queue (key ∷ []) ∙ omega arith in
      elim (Bool-cases (ltb max (length q))) [
        | inl g ↦
            rw (e, g, see) (drop_front-IsWindow max q _ agree nodup (omega (arith, size, h.2)))
        | inr g ↦ rw (e, g, see) (agree, nodup, ground arith)
      ]
]

-- The key stands in the queue with at most `n` later ones behind it.
abbrev Behind : Bytes → ℕ → List Bytes → Type 0
Behind key n q =
    (front : List Bytes) × (back : List Bytes) × (q ≡ front ++ key ∷ back) × (length back ≤ n)

Behind-member : (key : Bytes) (n : ℕ) (q : List Bytes) → Behind key n q → member key q ≡ true
unfolding member
Behind-member key n q (front, back, e, h) =
    ap (member key) e ∙ member-append key front (key ∷ back) ∙ rw (str_eq_refl key) (ground arith)

Behind-push :
    (key k : Bytes) (n : ℕ) (q : List Bytes) → Behind key n q → Behind key (suc n) (q ++ k ∷ [])
Behind-push key k n q (front, back, e, h) = (
  front,
  back ++ k ∷ [],
  ap (λ l. l ++ k ∷ []) e ∙ append_assoc front (key ∷ back) (k ∷ []),
  omega (arith, length-append back (k ∷ [])),
)

Behind-drop_front :
    (key : Bytes) (n : ℕ) (q keys : List Bytes)
    → Behind key n q
    → suc n < length q
    → Behind key n (drop_front q keys).queue
unfolding drop_front
Behind-drop_front key n q keys ([], back, e, h) lt =
    let size : length q ≡ suc (length back) = ap length e in absurd (omega arith)
Behind-drop_front key n [] keys (x ∷ front, back, e, h) lt = absurd (omega arith)
Behind-drop_front key n (y ∷ q) keys (x ∷ front, back, e, h) lt = (front, back, ap (drop 1) e, h)

evict-Behind :
    (max : ℕ) (key : Bytes) (n : ℕ) (w : Window)
    → Behind key n w.queue
    → n < max
    → Behind key n (evict max w).queue
unfolding evict
evict-Behind max key n w b lt = elim (Bool-cases (ltb max (length w.queue))) [
  | inl e ↦ rw (e, evict) (Behind-drop_front key n w.queue w.keys b (ground arith))
  | inr e ↦ rw (e, evict) b
]

see_old : (max : ℕ) (k : Bytes) (w : Window) → member k w.keys ≡ true → see max k w ≡ (true, w)
unfolding see
see_old max k w e = rw (e, see) refl

see_new :
    (max : ℕ) (k : Bytes) (w : Window)
    → member k w.keys ≡ false
    → see max k w ≡ (false, evict max (record { queue = w.queue ++ k ∷ []; keys = k ∷ w.keys }))
unfolding see
see_new max k w e = rw (e, see) refl

-- What `see_all-Behind` says of a stream, by what becomes of its first key.
abbrev Keeps : ℕ → Bytes → Bytes → List Bytes → ℕ → Bool × Window → Type 0
Keeps max key k ks n (seen, w) =
    let (emitted, last) = see_all max ks w in
    let count = n + length (if seen then emitted else k ∷ emitted) in
    IsWindow max w → count < max → IsWindow max last × Behind key count last.queue

-- A stream in which fewer than `max` keys are emitted behind it leaves the key in the queue.
see_all-Behind :
    (max : ℕ) (key : Bytes) (ks : List Bytes) (n : ℕ) (w : Window)
    → IsWindow max w
    → Behind key n w.queue
    → n + length (see_all max ks w).0 < max
    → IsWindow max (see_all max ks w).1
      × Behind key (n + length (see_all max ks w).0) (see_all max ks w).1.queue
unfolding see_all
see_all-Behind max key [] n w h b lt = (h, subst (λ m. Behind key m w.queue) (omega arith) b)
see_all-Behind max key (k ∷ ks) n w h b lt = elim (Bool-cases (member k w.keys)) [
  | inl e ↦
      subst (Keeps max key k ks n) (sym (see_old max k w e))
        (λ h' lt'. see_all-Behind max key ks n w h' b lt') (see-IsWindow max k w h) lt
  | inr e ↦
      let pushed : Window = record { queue = w.queue ++ k ∷ []; keys = k ∷ w.keys } in
      let w' = evict max pushed in
      let emitted = (see_all max ks w').0 in
      let shift : n + suc (length emitted) ≡ suc n + length emitted = omega arith in
      subst (Keeps max key k ks n) (sym (see_new max k w e))
        (λ h' lt'.
          let behind =
            evict-Behind max key (suc n) pushed (Behind-push key k n w.queue b) (omega arith) in
          let (last, kept) = see_all-Behind max key ks (suc n) w' h' behind (omega arith) in
          (last, subst (λ m. Behind key m (see_all max ks w').1.queue) (sym shift) kept))
        (see-IsWindow max k w h) lt
]

-- A fill that is emitted is taken for a duplicate as long as fewer than `max` other fills are
-- emitted after it, however many are reported.
pub see_once :
    (max : ℕ) (key : Bytes) (ks : List Bytes) (w : Window)
    → IsWindow max w
    → (see max key w).0 ≡ false
    → length (see_all max ks (see max key w).1).0 < max
    → (see max key (see_all max ks (see max key w).1).1).0 ≡ true
unfolding IsWindow
see_once max key ks w h new lt = elim (Bool-cases (member key w.keys)) [
  | inl e ↦ absurd (true_ne_false (sym (ap (λ r. r.0) (see_old max key w e)) ∙ new))
  | inr e ↦
      let pushed : Window = record { queue = w.queue ++ key ∷ []; keys = key ∷ w.keys } in
      let last : Behind key 0 (evict max pushed).queue =
        evict-Behind max key 0 pushed (w.queue, [], refl, omega arith) (omega arith) in
      let first = subst (λ r. Behind key 0 r.1.queue) (sym (see_new max key w e)) last in
      let (window, behind) =
        see_all-Behind max key ks 0 (see max key w).1 (see-IsWindow max key w h) first
          (omega arith) in
      ap (λ r. r.0) (see_old max key _ (window.0 key ∙ Behind-member key _ _ behind))
]
