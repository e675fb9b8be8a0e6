-- ===== src/Hft/SpscQueue/Window.antt =====
-- The part of the ring between head and tail, as the list of the items that it holds.
use native.Mathlib.Nat.{mod-add-mod, mod-eq_of_lt, mod-eq-sub-mod}
use latentspeed.Prelude.{
  ℕ, suc, ◌+◌, ◌-◌, ◌%◌, ◌≤◌, ◌<◌, ◌≡◌, ap, ◌∙◌, ◌≢◌, ◌⊎◌, inl, inr, List, [], ◌∷◌, ◌++◌, some,
  length, get_elem?, set, arith, dec_lt, get_elem?-set_ne, length-set, length-append, ◌↔◌,
}

-- From `h` on, going round at `cap`, the buffer holds `xs`, and `t` comes next.
abbrev pub Holds : {T : Type 0} → List T → ℕ → ℕ → List T → ℕ → Type 0
Holds buf cap h [] t = h ≡ t
Holds buf cap h (x ∷ xs) t = (get_elem? buf h ≡ some x) × Holds buf cap ((h + 1) % cap) xs t

-- A number below twice the capacity goes round at most once.
pub mod_cases :
    (cap a : ℕ) → a < cap + cap → ((a < cap) × (a % cap ≡ a)) ⊎ ((cap ≤ a) × (a % cap + cap ≡ a))
mod_cases cap a h = elim (dec_lt a cap) [
  | yes p ↦ inl (p, mod-eq_of_lt p)
  | no p ↦
      let once = mod-eq-sub-mod {n = a} {m = cap} (omega arith) in
      let small = mod-eq_of_lt {n = a - cap} {m = cap} (omega arith) in
      inr (omega arith, omega (arith, once, small))
]

step_lt : (cap h : ℕ) → h < cap → (h + 1) % cap < cap
step_lt cap h p = omega (arith, mod_cases cap (h + 1) (omega arith))

shift : (cap h n : ℕ) → ((h + 1) % cap + n) % cap ≡ (h + suc n) % cap
shift cap h n =
    let e : h + 1 + n ≡ h + suc n = omega arith in mod-add-mod (h + 1) cap n ∙ ap (λ k. k % cap) e

module _ {T : Type 0} where
  -- The tail is as many slots from the head as there are items.
  Holds-tail :
      (buf : List T) (cap h : ℕ) (xs : List T) (t : ℕ)
      → h < cap
      → Holds buf cap h xs t
      → t ≡ (h + length xs) % cap
  Holds-tail buf cap h [] t p e = omega (arith, mod_cases cap (h + 0) (omega arith))
  Holds-tail buf cap h (x ∷ xs) t p e =
      Holds-tail buf cap ((h + 1) % cap) xs t (step_lt cap h p) e.1 ∙ shift cap h (length xs)

  -- A write at the tail of a ring that is not full touches no item.
  Holds-set :
      (buf : List T) (cap h : ℕ) (xs : List T) (t : ℕ) (v : T)
      → h < cap
      → length xs < cap
      → Holds buf cap h xs t
      → Holds (set buf t v) cap h xs t
  Holds-set buf cap h [] t v p q e = e
  Holds-set buf cap h (x ∷ xs) t v p q e =
      let at = Holds-tail buf cap h (x ∷ xs) t p e in
      let apart : t ≢ h = omega (arith, at, mod_cases cap (h + suc (length xs)) (omega arith)) in
      (
        get_elem?-set_ne buf t h v apart ∙ e.0,
        Holds-set buf cap ((h + 1) % cap) xs t v (step_lt cap h p) (omega arith) e.1,
      )

  -- An item at the tail is the newest once the tail moves on.
  Holds-snoc :
      (buf : List T) (cap h : ℕ) (xs : List T) (t : ℕ) (v : T)
      → get_elem? buf t ≡ some v
      → Holds buf cap h xs t
      → Holds buf cap h (xs ++ v ∷ []) ((t + 1) % cap)
  Holds-snoc buf cap h [] t v g e = (ap (get_elem? buf) e ∙ g, ap (λ k. (k + 1) % cap) e)
  Holds-snoc buf cap h (x ∷ xs) t v g e = (e.0, Holds-snoc buf cap ((h + 1) % cap) xs t v g e.1)

-- The ring of a queue holds `xs`, in a buffer of `cap` slots of which one stays free.
pub record Contents {T : Type 0} (cap : ℕ) (buf : List T) (h t : ℕ) (xs : List T) : Type 0 where
  pub slots : length buf ≡ cap
  pub head_in : h < cap
  pub tail_in : t < cap
  pub free : length xs < cap
  pub held : Holds buf cap h xs t

module _ {T : Type 0} (cap : ℕ) (buf : List T) (h t : ℕ) (xs : List T) where
  pub Contents-tail : Contents cap buf h t xs → t ≡ (h + length xs) % cap
  Contents-tail c = Holds-tail buf cap h xs t c.head_in c.held

  -- The test of try_push: the next slot is the head exactly when one slot is free.
  pub full_iff : Contents cap buf h t xs → ((t + 1) % cap ≡ h) ↔ (suc (length xs) ≡ cap)
  full_iff c =
      let at = Contents-tail c in
      let once = mod_cases cap (h + length xs) (omega (arith, c.free, c.head_in)) in
      let next = mod_cases cap (t + 1) (omega (arith, c.tail_in)) in
      (λ e. omega (arith, c.free, c.head_in), λ e. omega (arith, c.free, c.head_in))

  -- The test of try_pop: head and tail agree exactly when there is no item.
  pub empty_iff : Contents cap buf h t xs → (h ≡ t) ↔ (length xs ≡ 0)
  empty_iff c =
      let at = Contents-tail c in
      let once = mod_cases cap (h + length xs) (omega (arith, c.free, c.head_in)) in
      (λ e. omega (arith, c.free, c.head_in), λ e. omega (arith, c.free, c.head_in))

  -- The item is written, then the tail moves on.
  pub Contents-write :
      (v : T) → suc (length xs) < cap → Contents cap buf h t xs → Contents cap (set buf t v) h t xs
  Contents-write v room c = record {
    slots = length-set buf t v ∙ c.slots;
    head_in = c.head_in;
    tail_in = c.tail_in;
    free = c.free;
    held = Holds-set buf cap h xs t v c.head_in c.free c.held;
  }

  pub Contents-snoc :
      (v : T)
      → suc (length xs) < cap
      → get_elem? buf t ≡ some v
      → Contents cap buf h t xs
      → Contents cap buf h ((t + 1) % cap) (xs ++ v ∷ [])
  Contents-snoc v room g c = record {
    slots = c.slots;
    head_in = c.head_in;
    tail_in = step_lt cap t c.tail_in;
    free = omega (arith, length-append xs (v ∷ []));
    held = Holds-snoc buf cap h xs t v g c.held;
  }

pub Contents-pop :
    {T : Type 0} (cap : ℕ) (buf : List T) (h t : ℕ) (x : T) (xs : List T)
    → Contents cap buf h t (x ∷ xs)
    → (get_elem? buf h ≡ some x) × Contents cap buf ((h + 1) % cap) t xs
Contents-pop cap buf h t x xs c = (
  c.held.0,
  record {
    slots = c.slots;
    head_in = step_lt cap h c.head_in;
    tail_in = c.tail_in;
    free = omega (arith, c.free);
    held = c.held.1;
  },
)
