-- ===== src/Hft/MemoryPool/Laws.antt =====
-- allocate and deallocate of a MemoryPool, for the free list, the marks and the count.
use latentspeed.Prelude.{
  ℕ, ◌+◌, ◌-◌, ◌%◌, ◌<◌, ◌^◌, ◌≡◌, refl, sym, ap, ◌∙◌, ◌≢◌, List, [], ◌∷◌, none, some, get_or, set,
  arith, get_or-set_ne, get_or-set_self, length-set, subst, ◌⊎◌, inl, inr, ℕ_discrete,
}
use latentspeed.Hft.MemoryPool.{Pool, allocate, release, deallocate, available, init}
use latentspeed.Hft.MemoryPool.Inv.{
  Inv, Chain, ones, Chain-set, Free-set, not_listed, ones-set, ones-le, init-Inv, range,
}

-- An empty pool hands out the null pointer and stays as it is.
allocate_empty : (n : ℕ) (p : Pool) → Inv n p [] → allocate p ≡ (p, none)
unfolding allocate
allocate_empty n p v = ground (arith, v.chain)

pub allocate_first :
    (n : ℕ) (p : Pool) (x : ℕ) (fs : List ℕ)
    → Inv n p (x ∷ fs)
    → allocate p ≡ (
      record p {
        free_head = get_or p.links x none;
        state = set p.state x 0;
        free_count = (p.free_count + 2 ^ 64 - 1) % 2 ^ 64;
      },
      some x,
    )
unfolding allocate
allocate_first n p x fs v = ground (arith, v.chain)

pub allocate-Inv :
    (n : ℕ) (p : Pool) (x : ℕ) (fs : List ℕ) → Inv n p (x ∷ fs) → Inv n (allocate p).0 fs
allocate-Inv n p x fs v =
    let out = ones-set p.state x 0 (omega (arith, v.states, v.marked.0.0)) in
    let drop : ones (set p.state x 0) + 1 ≡ ones p.state = ground (arith, out, v.marked.0.1) in
    rw (allocate_first n p x fs v) (record {
      small = v.small;
      cells = v.cells;
      states = length-set p.state x 0 ∙ v.states;
      chain = v.chain.1;
      distinct = v.distinct.1;
      marked = Free-set n p.state x 0 fs v.distinct.0 v.marked.1;
      counted = omega (arith, v.counted, v.complete, ones-le p.state, v.states, v.small);
      complete = omega (arith, drop, v.complete);
    })

release_allocated :
    (p : Pool) (i : ℕ)
    → get_or p.state i 1 ≡ 0
    → release p i ≡ record p {
      state = set p.state i 1;
      links = set p.links i p.free_head;
      free_head = some i;
      free_count = (p.free_count + 1) % 2 ^ 64;
    }
unfolding release
release_allocated p i e = ground arith

release_free : (p : Pool) (i : ℕ) → get_or p.state i 1 ≢ 0 → release p i ≡ p
unfolding release
release_free p i ne = ground (arith, ne)

pub release-Inv :
    (n : ℕ) (p : Pool) (i : ℕ) (fs : List ℕ)
    → Inv n p fs
    → i < n
    → get_or p.state i 1 ≡ 0
    → Inv n (release p i) (i ∷ fs)
release-Inv n p i fs v h e =
    let back = ones-set p.state i 1 (omega (arith, v.states)) in
    let more : ones (set p.state i 1) ≡ ones p.state + 1 = ground (arith, back, e) in
    let away = not_listed n p.state i fs e v.marked in
    let bound = ones-le (set p.state i 1) in
    let first = sym (get_or-set_self p.links i p.free_head none (omega (arith, v.cells))) in
    rw (release_allocated p i e) (record {
      small = v.small;
      cells = length-set p.links i p.free_head ∙ v.cells;
      states = length-set p.state i 1 ∙ v.states;
      chain = (
        refl,
        subst (λ k. Chain (set p.links i p.free_head) k fs) first
            (Chain-set p.links i p.free_head p.free_head fs away v.chain),
      );
      distinct = (away, v.distinct);
      marked = (
        (h, get_or-set_self p.state i 1 1 (omega (arith, v.states))),
        Free-set n p.state i 1 fs away v.marked,
      );
      counted =
          omega
            (arith, v.counted, v.complete, bound, length-set p.state i 1, v.states, v.small, more);
      complete = omega (arith, more, v.complete);
    })

-- allocate hands out the first free cell: one that was marked free and is now marked allocated,
-- while no other cell changes its mark. It fails exactly when no cell is left, that is when
-- available() is 0.
pub allocate_lem :
    (n : ℕ) (p : Pool) (fs : List ℕ)
    → Inv n p fs
    → ((available p ≡ 0) × (allocate p ≡ (p, none)))
      ⊎ ((x : ℕ) × (rest : List ℕ) × (fs ≡ x ∷ rest)
          × ((allocate p).1 ≡ some x)
          × (get_or p.state x 1 ≡ 1)
          × (get_or (allocate p).0.state x 1 ≡ 0)
          × ((i : ℕ) → x ≢ i → get_or (allocate p).0.state i 1 ≡ get_or p.state i 1)
          × (available (allocate p).0 + 1 ≡ available p)
          × Inv n (allocate p).0 rest)
allocate_lem n p [] v = inl (v.counted, allocate_empty n p v)
allocate_lem n p (x ∷ rest) v =
    let e = allocate_first n p x rest v in
    let kept = allocate-Inv n p x rest v in
    inr (
      x,
      rest,
      refl,
      rw e,
      v.marked.0.1,
      rw e (get_or-set_self p.state x 0 1 (omega (arith, v.states, v.marked.0.0))),
      λ i ne. rw e (get_or-set_ne p.state x i 0 1 ne),
      omega (arith, kept.counted, v.counted),
      kept,
    )

-- deallocate of an allocated cell puts it first in line; of a free one, or of the null pointer, it
-- does nothing, so that freeing a cell twice does no harm.
pub deallocate_lem :
    (n : ℕ) (p : Pool) (i : ℕ) (fs : List ℕ)
    → Inv n p fs
    → i < n
    → (((get_or p.state i 1 ≡ 0) × Inv n (deallocate p (some i)) (i ∷ fs))
        ⊎ ((get_or p.state i 1 ≢ 0) × (deallocate p (some i) ≡ p)))
      × (deallocate p none ≡ p)
      × (deallocate (deallocate p (some i)) (some i) ≡ deallocate p (some i))
unfolding deallocate
deallocate_lem n p i fs v h = elim (ℕ_discrete (get_or p.state i 1) 0) [
  | yes e ↦
      let back = release-Inv n p i fs v h e in
      (inl (e, back), refl, release_free (release p i) i (λ z. omega (arith, z, back.marked.0.1)))
  | no ne ↦ let same = release_free p i ne in (inr (ne, same), refl, ap (λ q. release q i) same)
]

-- A new pool has all its cells to give.
pub init_lem : (n : ℕ) → 0 < n → n < 2 ^ 64 → Inv n (init n) (range 0 n) × (available (init n) ≡ n)
unfolding init
init_lem n pos small = (init-Inv n pos small, refl)

-- A cell that was just taken and is given back is again the next one to be handed out.
pub give_back :
    (n : ℕ) (p : Pool) (x : ℕ) (fs : List ℕ)
    → Inv n p (x ∷ fs)
    → Inv n (deallocate (allocate p).0 (some x)) (x ∷ fs)
unfolding deallocate
give_back n p x fs v = release-Inv n (allocate p).0 x fs (allocate-Inv n p x fs v) v.marked.0.0 (
    rw (allocate_first n p x fs v)
      (get_or-set_self p.state x 0 1 (omega (arith, v.states, v.marked.0.0))))
