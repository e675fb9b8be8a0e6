-- ===== src/Hft/FlatMap/Laws.antt =====
-- FlatMap against the search of Spec: order, capacity and entries.
use latentspeed.Prelude.Bytes.{is_some}
use latentspeed.Prelude.{
  ℕ, ◌<◌, ap, ◌∙◌, ◌+◌, ◌≤◌, ◌≡◌, refl, sym, List, [], ◌∷◌, true, false, none, some, inl, inr,
  length, if◌then◌else◌, arith, Bool-cases, subst, leb, leb→le, ◌⊎◌,
}
use latentspeed.Hft.FlatMap.{KeyOrd, find, put, insert, erase}
use latentspeed.Hft.FlatMap.Spec.{lookup, Above, IsSorted}

module _ {ℓ} {K : Type ℓ} ⦃o : KeyOrd K⦄ where
  ne_of_lt : (a b : K) → o.lt a b ≡ true → o.eq a b ≡ false
  ne_of_lt a b h = elim (Bool-cases (o.eq a b)) [
    | inl e ↦
        let back : o.lt b b ≡ true = subst (λ c. o.lt c b ≡ true) ((o.eq_iff a b).0 e) h in
        ground (arith, back, o.lt_irrefl b)
    | inr e ↦ e
  ]

  eq_comm : (a b : K) → o.eq a b ≡ o.eq b a
  eq_comm a b = ground (arith, o.eq_iff a b, o.eq_iff b a)

  lt_of_not : (a b : K) → o.lt a b ≡ false → o.eq a b ≡ false → o.lt b a ≡ true
  lt_of_not a b h e = ground (arith, o.lt_total a b h, o.eq_iff a b)

module _ {ℓ κ} {K : Type ℓ} {V : Type κ} ⦃o : KeyOrd K⦄ where
  Above-trans : (a b : K) (m : List (K × V)) → o.lt a b ≡ true → Above b m → Above a m
  Above-trans a b [] h s = tt
  Above-trans a b ((j, v) ∷ m) h s = (o.lt_trans a b j h s.0, Above-trans a b m h s.1)

  -- A key below the whole map is not in it.
  lookup-Above : (k : K) (m : List (K × V)) → Above k m → lookup k m ≡ none
  unfolding lookup
  lookup-Above k [] s = refl
  lookup-Above k ((j, v) ∷ m) s = rw (eq_comm j k, ne_of_lt k j s.0) (lookup-Above k m s.1)

  -- On a sorted map the search by lower bound finds what a plain search finds.
  find-eq-lookup : (k : K) (m : List (K × V)) → IsSorted m → find k m ≡ lookup k m
  unfolding find lookup
  find-eq-lookup k [] s = refl
  find-eq-lookup k ((j, v) ∷ m) s = elim (Bool-cases (o.lt j k)) [
    | inl below ↦ rw (below, ne_of_lt j k below) (find-eq-lookup k m s.1)
    | inr not_below ↦ rw not_below (elim (Bool-cases (o.eq j k)) [
      | inl e ↦ rw e
      | inr e ↦ rw e (sym (lookup-Above k m (Above-trans k j m (lt_of_not j k not_below e) s.0)))
    ])
  ]

  pub put_below :
      (k j : K) (v w : V) (m : List (K × V))
      → o.lt j k ≡ true
      → put k v ((j, w) ∷ m) ≡ (j, w) ∷ put k v m
  unfolding put
  put_below k j v w m h = rw (h, put) (ground arith)

  put_above :
      (k j : K) (v w : V) (m : List (K × V))
      → o.lt j k ≡ false
      → put k v ((j, w) ∷ m) ≡ (if o.eq j k then (k, v) ∷ m else (k, v) ∷ (j, w) ∷ m)
  unfolding put
  put_above k j v w m h = rw (h, put) (ground arith)

  Above-put :
      (a k : K) (v : V) (m : List (K × V)) → o.lt a k ≡ true → Above a m → Above a (put k v m)
  unfolding put
  Above-put a k v [] h s = (h, tt)
  Above-put a k v ((j, w) ∷ m) h s = elim (Bool-cases (o.lt j k)) [
    | inl below ↦ rw (put_below k j v w m below) (s.0, Above-put a k v m h s.1)
    | inr not_below ↦
        rw (put_above k j v w m not_below)
          (elim (Bool-cases (o.eq j k)) [ inl e ↦ rw e (h, s.1) | inr e ↦ rw e (h, s) ])
  ]

  pub put-IsSorted : (k : K) (v : V) (m : List (K × V)) → IsSorted m → IsSorted (put k v m)
  unfolding put
  put-IsSorted k v [] s = (tt, tt)
  put-IsSorted k v ((j, w) ∷ m) s = elim (Bool-cases (o.lt j k)) [
    | inl below ↦
        rw (put_below k j v w m below) (Above-put j k v m below s.0, put-IsSorted k v m s.1)
    | inr not_below ↦ rw (put_above k j v w m not_below) (elim (Bool-cases (o.eq j k)) [
      | inl e ↦ rw e (subst (λ c. Above c m) ((o.eq_iff j k).0 e) s.0, s.1)
      | inr e ↦ let lt = lt_of_not j k not_below e in rw e ((lt, Above-trans k j m lt s.0), s)
    ])
  ]

  lookup-put :
      (k i : K) (v : V) (m : List (K × V))
      → lookup i (put k v m) ≡ (if o.eq k i then some v else lookup i m)
  unfolding put lookup
  lookup-put k i v [] = refl
  lookup-put k i v ((j, w) ∷ m) = elim (Bool-cases (o.lt j k)) [
    | inl below ↦ rw (put_below k j v w m below) (
        ground
          (arith, lookup-put k i v m, ne_of_lt j k below, o.eq_iff k i, o.eq_iff j i, o.eq_iff j k))
    | inr not_below ↦
        rw (put_above k j v w m not_below)
          (ground (arith, o.eq_iff k i, o.eq_iff j i, o.eq_iff j k))
  ]

  pub find-put :
      (k i : K) (v : V) (m : List (K × V))
      → IsSorted m
      → find i (put k v m) ≡ (if o.eq k i then some v else find i m)
  find-put k i v m s =
      find-eq-lookup i (put k v m) (put-IsSorted k v m s)
      ∙ lookup-put k i v m
      ∙ ap (λ r. if o.eq k i then some v else r) (sym (find-eq-lookup i m s))

  length-put : (k : K) (v : V) (m : List (K × V)) → length (put k v m) ≤ length m + 1
  unfolding put
  length-put k v [] = omega arith
  length-put k v ((j, w) ∷ m) = elim (Bool-cases (o.lt j k)) [
    | inl below ↦ rw (put_below k j v w m below) (omega (arith, length-put k v m))
    | inr not_below ↦ rw (put_above k j v w m not_below) (ground arith)
  ]

  erase_below :
      (k j : K) (w : V) (m : List (K × V))
      → o.lt j k ≡ true
      → erase k ((j, w) ∷ m) ≡ ((j, w) ∷ (erase k m).0, (erase k m).1)
  unfolding erase
  erase_below k j w m h = rw (h, erase) (ground arith)

  erase_above :
      (k j : K) (w : V) (m : List (K × V))
      → o.lt j k ≡ false
      → erase k ((j, w) ∷ m) ≡ (if o.eq j k then (m, true) else ((j, w) ∷ m, false))
  unfolding erase
  erase_above k j w m h = rw (h, erase) (ground arith)

  Above-erase : (a k : K) (m : List (K × V)) → Above a m → Above a (erase k m).0
  unfolding erase
  Above-erase a k [] s = tt
  Above-erase a k ((j, w) ∷ m) s = elim (Bool-cases (o.lt j k)) [
    | inl below ↦ rw (erase_below k j w m below) (s.0, Above-erase a k m s.1)
    | inr not_below ↦
        rw (erase_above k j w m not_below)
          (elim (Bool-cases (o.eq j k)) [ inl e ↦ rw e s.1 | inr e ↦ rw e s ])
  ]

  erase-IsSorted : (k : K) (m : List (K × V)) → IsSorted m → IsSorted (erase k m).0
  unfolding erase
  erase-IsSorted k [] s = tt
  erase-IsSorted k ((j, w) ∷ m) s = elim (Bool-cases (o.lt j k)) [
    | inl below ↦ rw (erase_below k j w m below) (Above-erase j k m s.0, erase-IsSorted k m s.1)
    | inr not_below ↦
        rw (erase_above k j w m not_below)
          (elim (Bool-cases (o.eq j k)) [ inl e ↦ rw e s.1 | inr e ↦ rw e s ])
  ]

  lookup-erase :
      (k i : K) (m : List (K × V))
      → IsSorted m
      → lookup i (erase k m).0 ≡ (if o.eq k i then none else lookup i m)
  unfolding erase lookup
  lookup-erase k i [] s = ground arith
  lookup-erase k i ((j, w) ∷ m) s = elim (Bool-cases (o.lt j k)) [
    | inl below ↦ rw (erase_below k j w m below) (
        ground (
          arith,
          lookup-erase k i m s.1,
          ne_of_lt j k below,
          o.eq_iff k i,
          o.eq_iff j i,
          o.eq_iff j k,
        ))
    | inr not_below ↦ rw (erase_above k j w m not_below) (elim (Bool-cases (o.eq j k)) [
      | inl e ↦
          let same : j ≡ k = (o.eq_iff j k).0 e in
          rw e (elim (Bool-cases (o.eq k i)) [
            | inl here ↦
                rw here
                  (lookup-Above i m (subst (λ c. Above c m) (same ∙ (o.eq_iff k i).0 here) s.0))
            | inr there ↦ rw (same, there)
          ])
      | inr e ↦
          let gone = lookup-Above k m (Above-trans k j m (lt_of_not j k not_below e) s.0) in
          rw e (elim (Bool-cases (o.eq k i)) [
            | inl here ↦
                rw here
                  (subst (λ c. lookup c ((j, w) ∷ m) ≡ none) ((o.eq_iff k i).0 here) (rw e gone))
            | inr there ↦ rw there
          ])
    ])
  ]

  flag-erase : (k : K) (m : List (K × V)) → IsSorted m → (erase k m).1 ≡ is_some (find k m)
  unfolding erase find
  flag-erase k m s = ground arith

  length-erase :
      (k : K) (m : List (K × V))
      → length m ≡ length (erase k m).0 + (if (erase k m).1 then 1 else 0)
  unfolding erase
  length-erase k [] = omega arith
  length-erase k ((j, w) ∷ m) = elim (Bool-cases (o.lt j k)) [
    | inl below ↦ rw (erase_below k j w m below) (omega (arith, length-erase k m))
    | inr not_below ↦ rw (erase_above k j w m not_below) (ground arith)
  ]

  -- At its capacity the map refuses every insertion, an update of a key that it holds included.
  -- Below it, an insertion succeeds, keeps the entries sorted and within the capacity, and changes
  -- the map at the key alone.
  pub insert_lem :
      (max : ℕ) (k : K) (v : V) (m : List (K × V))
      → IsSorted m
      → ((max ≤ length m) × (insert max k v m ≡ (m, false)))
        ⊎ ((length m < max)
            × ((insert max k v m).1 ≡ true)
            × IsSorted (insert max k v m).0
            × (length (insert max k v m).0 ≤ max)
            × ((i : K) → find i (insert max k v m).0 ≡ (if o.eq k i then some v else find i m)))
  unfolding insert
  insert_lem max k v m s = elim (Bool-cases (leb max (length m))) [
    | inl e ↦ inl (leb→le max (length m) e, rw e refl)
    | inr e ↦
        let h : length m < max = ground (arith, e) in
        rw e (
          inr (
            h,
            refl,
            put-IsSorted k v m s,
            omega (arith, h, length-put k v m),
            λ i. find-put k i v m s,
          ))
  ]

  -- Erasing keeps the entries sorted, makes room for exactly the entry that it removes, reports
  -- whether there was one, and changes the map at the key alone.
  pub erase_lem :
      (k : K) (m : List (K × V))
      → IsSorted m
      → IsSorted (erase k m).0
        × (length m ≡ length (erase k m).0 + (if (erase k m).1 then 1 else 0))
        × ((erase k m).1 ≡ is_some (find k m))
        × ((i : K) → find i (erase k m).0 ≡ (if o.eq k i then none else find i m))
  erase_lem k m s = (
    erase-IsSorted k m s,
    length-erase k m,
    flag-erase k m s,
    λ i.
        find-eq-lookup i (erase k m).0 (erase-IsSorted k m s)
        ∙ lookup-erase k i m s
        ∙ ap (λ r. if o.eq k i then none else r) (sym (find-eq-lookup i m s)),
  )
