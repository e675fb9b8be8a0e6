-- ===== src/Hft/MemoryPool/Inv.antt =====
-- The free list of a MemoryPool, as a list of cells, and what ties it to the states and the count.
use latentspeed.Prelude.{
  ℕ, zero, suc, ◌+◌, ◌≤◌, ◌<◌, ◌^◌, ◌≡◌, refl, sym, ap, ◌∙◌, ◌≢◌, List, [], ◌∷◌, Option, none, some,
  length, get_or, set, ◌==◌, if◌then◌else◌, arith, get_or-set_ne, subst, All,
}
use latentspeed.Hft.MemoryPool.{Pool, links_from, all_free, init}

-- From `h` the links run through the cells of the list and end.
abbrev pub Chain : List (Option ℕ) → Option ℕ → List ℕ → Type 0
Chain links h [] = h ≡ none
Chain links h (x ∷ xs) = (h ≡ some x) × Chain links (get_or links x none) xs

abbrev pub Distinct : List ℕ → Type 0
Distinct [] = Unit {0}
Distinct (x ∷ xs) = All (λ y. y ≢ x) xs × Distinct xs

-- How many cells are marked free.
unfoldable pub ones : List ℕ → ℕ
ones [] = 0
ones (s ∷ ss) = (if s == 1 then 1 else 0) + ones ss

abbrev pub Free : ℕ → List ℕ → ℕ → Type 0
Free n state i = (i < n) × (get_or state i 1 ≡ 1)

-- `fs` are the free cells, in the order in which they will be handed out.
pub record Inv (n : ℕ) (p : Pool) (fs : List ℕ) : Type 0 where
  pub small : n < 2 ^ 64
  pub cells : length p.links ≡ n
  pub states : length p.state ≡ n
  pub chain : Chain p.links p.free_head fs
  pub distinct : Distinct fs
  pub marked : All (Free n p.state) fs
  pub counted : p.free_count ≡ length fs
  pub complete : ones p.state ≡ length fs

-- A write to a cell outside the list leaves the list alone.
pub Chain-set :
    (links : List (Option ℕ)) (i : ℕ) (v h : Option ℕ) (xs : List ℕ)
    → All (λ y. y ≢ i) xs
    → Chain links h xs
    → Chain (set links i v) h xs
Chain-set links i v h [] d c = c
Chain-set links i v h (x ∷ xs) d c = (
  c.0,
  subst (λ k. Chain (set links i v) k xs) (sym (get_or-set_ne links i x v none (λ e. d.0 (sym e))))
      (Chain-set links i v (get_or links x none) xs d.1 c.1),
)

pub Free-set :
    (n : ℕ) (state : List ℕ) (i v : ℕ) (xs : List ℕ)
    → All (λ y. y ≢ i) xs
    → All (Free n state) xs
    → All (Free n (set state i v)) xs
Free-set n state i v [] d m = tt
Free-set n state i v (x ∷ xs) d m = (
  (m.0.0, get_or-set_ne state i x v 1 (λ e. d.0 (sym e)) ∙ m.0.1),
  Free-set n state i v xs d.1 m.1,
)

-- A cell that is not marked free is not in the list.
pub not_listed :
    (n : ℕ) (state : List ℕ) (i : ℕ) (xs : List ℕ)
    → get_or state i 1 ≡ 0
    → All (Free n state) xs
    → All (λ y. y ≢ i) xs
not_listed n state i [] z m = tt
not_listed n state i (x ∷ xs) z m =
    (λ e. omega (arith, z, m.0.1, ap (λ k. get_or state k 1) e), not_listed n state i xs z m.1)

pub ones-set :
    (state : List ℕ) (i v : ℕ)
    → i < length state
    → ones (set state i v) + (if get_or state i 1 == 1 then 1 else 0)
      ≡ ones state + (if v == 1 then 1 else 0)
unfolding ones
ones-set [] i v h = absurd (omega arith)
ones-set (s ∷ ss) zero v h = omega arith
ones-set (s ∷ ss) (suc i) v h = omega (arith, ones-set ss i v (omega arith))

pub ones-le : (state : List ℕ) → ones state ≤ length state
unfolding ones
ones-le [] = omega arith
ones-le (s ∷ ss) = ground (arith, ones-le ss)

-- The cells `i`, `i + 1`, …, in the order of a new pool.
abbrev pub range : ℕ → ℕ → List ℕ
range i zero = []
range i (suc k) = i ∷ range (suc i) k

range_above : (a i k : ℕ) → a < i → All (λ y. y ≢ a) (range i k)
range_above a i zero h = tt
range_above a i (suc k) h = (λ e. omega arith, range_above a (suc i) k (omega arith))

Distinct-range : (i k : ℕ) → Distinct (range i k)
Distinct-range i zero = tt
Distinct-range i (suc k) = (range_above i (suc i) k (omega arith), Distinct-range (suc i) k)

length-range : (i k : ℕ) → length (range i k) ≡ k
length-range i zero = refl
length-range i (suc k) = ap suc (length-range (suc i) k)

length-links_from : (i k : ℕ) → length (links_from i k) ≡ k
unfolding links_from
length-links_from i zero = refl
length-links_from i (suc k) = ap suc (length-links_from (suc i) k)

length-all_free : (n : ℕ) → length (all_free n) ≡ n
unfolding all_free
length-all_free zero = refl
length-all_free (suc n) = ap suc (length-all_free n)

ones-all_free : (n : ℕ) → ones (all_free n) ≡ n
unfolding all_free ones
ones-all_free zero = refl
ones-all_free (suc n) = omega (arith, ones-all_free n)

get-all_free : (n i : ℕ) → get_or (all_free n) i 1 ≡ 1
unfolding all_free
get-all_free zero i = refl
get-all_free (suc n) zero = refl
get-all_free (suc n) (suc i) = get-all_free n i

range-Free : (n i k : ℕ) → i + k ≤ n → All (Free n (all_free n)) (range i k)
range-Free n i zero h = tt
range-Free n i (suc k) h = ((omega arith, get-all_free n i), range-Free n (suc i) k (omega arith))

-- The link that `links_from i k` holds for the `j`-th of its cells.
get-links_from :
    (i k j : ℕ)
    → j < k
    → get_or (links_from i k) j none ≡ (if suc j == k then none else some (suc (i + j)))
unfolding links_from
get-links_from i zero j h = absurd (omega arith)
get-links_from i (suc k) zero h = ground arith
get-links_from i (suc k) (suc j) h = ground (arith, get-links_from (suc i) k j)

abbrev link_to : ℕ → ℕ → Option ℕ
link_to k i = if k == 0 then none else some i

Chain-range : (n i k : ℕ) → i + k ≡ n → Chain (links_from 0 n) (link_to k i) (range i k)
Chain-range n i zero h = refl
Chain-range n i (suc k) h = (
  ground arith,
  subst (λ l. Chain (links_from 0 n) l (range (suc i) k)) link
      (Chain-range n (suc i) k (omega arith)),
)
  where
    link : link_to k (suc i) ≡ get_or (links_from 0 n) i none
    link = ground (arith, get-links_from 0 n i)

-- The constructor links all the cells, marks them free and counts them.
pub init-Inv : (n : ℕ) → 0 < n → n < 2 ^ 64 → Inv n (init n) (range 0 n)
unfolding init
init-Inv n pos small = record {
  small = small;
  cells = length-links_from 0 n;
  states = length-all_free n;
  chain = subst (λ h. Chain (links_from 0 n) h (range 0 n)) first (Chain-range n 0 n (omega arith));
  distinct = Distinct-range 0 n;
  marked = range-Free n 0 n (omega arith);
  counted = sym (length-range 0 n);
  complete = ones-all_free n ∙ sym (length-range 0 n);
}
  where
    first : link_to n 0 ≡ some 0
    first = ground arith
