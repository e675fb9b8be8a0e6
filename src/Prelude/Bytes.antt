-- ===== src/Prelude/Bytes.antt =====
-- std::string and std::string_view as lists of bytes, with the members that the source calls.
use Prim.Native.Char.{code}
use Prim.Native.String.{String}
use Prim.Native.Nat.{ℕ, zero, suc, ◌+◌, ◌-◌}
use mathlib.Core.Path.{◌≡◌, refl, sym, subst, ◌∙◌}
use mathlib.Core.Logic.{◌↔◌, ◌≢◌, inl, inr}
use mathlib.Core.Bool.{Bool, true, false, ◌&&◌, ◌||◌}
use mathlib.Core.List.{List, [], ◌∷◌, ◌++◌, map}
use mathlib.Core.Option.{Option, none, some}
use native.Mathlib.Omega.{arith}
use latentspeed.Prelude.Lists.{All, take, length}
use latentspeed.Prelude.Tests.{ltb, leb, ◌==◌, if◌then◌else◌, Bool-cases}

abbrev pub Bytes : Type 0
Bytes = List ℕ

-- The bytes of an ASCII literal.
abbrev pub codes : String → Bytes
codes String.[] = []
codes (String.◌∷◌ c s) = code c ∷ codes s

unfoldable pub str_eq : Bytes → Bytes → Bool
str_eq [] [] = true
str_eq [] (b ∷ t) = false
str_eq (a ∷ s) [] = false
str_eq (a ∷ s) (b ∷ t) = (a == b) && str_eq s t

-- The order of std::string_view, that of the unsigned bytes.
unfoldable pub str_lt : Bytes → Bytes → Bool
str_lt s [] = false
str_lt [] (b ∷ t) = true
str_lt (a ∷ s) (b ∷ t) = ltb a b || ((a == b) && str_lt s t)

abbrev pub is_empty : Bytes → Bool
is_empty [] = true
is_empty (c ∷ s) = false

-- What c_str() shows to a callee that stops at the first NUL.
unfoldable pub c_str : Bytes → Bytes
c_str [] = []
c_str (c ∷ s) = if c == 0 then [] else c ∷ c_str s

unfoldable pub starts_with : Bytes → Bytes → Bool
starts_with [] s = true
starts_with (p ∷ ps) [] = false
starts_with (p ∷ ps) (c ∷ s) = (p == c) && starts_with ps s

-- find and rfind, `none` for npos.
unfoldable pub find : Bytes → Bytes → Option ℕ
unfolding starts_with
find p [] = if is_empty p then some 0 else none
find p (c ∷ s) =
    let rest = find p s in
    if starts_with p (c ∷ s) then some 0 else elim rest [ none ↦ none | some i ↦ some (suc i) ]

unfoldable pub rfind : Bytes → Bytes → Option ℕ
unfolding starts_with
rfind p [] = if is_empty p then some 0 else none
rfind p (c ∷ s) = elim (rfind p s) [
  | some i ↦ some (suc i)
  | none ↦ if starts_with p (c ∷ s) then some 0 else none
]

abbrev pub is_some {ℓ} : {A : Type ℓ} → Option A → Bool
is_some none = false
is_some (some a) = true

-- find of one character
unfoldable pub find_char : ℕ → Bytes → Option ℕ
find_char k [] = none
find_char k (c ∷ s) =
    if c == k then some 0 else elim (find_char k s) [ none ↦ none | some i ↦ some (suc i) ]

-- find(p) != npos
unfoldable pub contains : Bytes → Bytes → Bool
unfolding find
contains p s = is_some (find p s)

-- The value of size_t that find and rfind return.
abbrev pub npos : ℕ
npos = 0xffffffffffffffff

abbrev pub or_npos : Option ℕ → ℕ
or_npos none = npos
or_npos (some i) = i

-- std::tolower and std::toupper in the C locale.
unfoldable pub to_lower : ℕ → ℕ
to_lower c = if leb b'A' c && leb c b'Z' then c + 32 else c

unfoldable pub to_upper : ℕ → ℕ
to_upper c = if leb b'a' c && leb c b'z' then c - 32 else c

-- Membership in a chain of comparisons `s == "a" || s == "b" || …`.
unfoldable pub one_of : Bytes → List String → Bool
unfolding str_eq
one_of s [] = false
one_of s (w ∷ ws) = str_eq s (codes w) || one_of s ws

pub str_eq_iff : (s t : Bytes) → (str_eq s t ≡ true) ↔ (s ≡ t)
unfolding str_eq
str_eq_iff [] [] = ground arith
str_eq_iff [] (b ∷ t) = ground arith
str_eq_iff (a ∷ s) [] = ground arith
str_eq_iff (a ∷ s) (b ∷ t) = ground (arith, str_eq_iff s t)

pub str_eq_refl : (s : Bytes) → str_eq s s ≡ true
str_eq_refl s = (str_eq_iff s s).1 refl

pub str_lt_irrefl : (s : Bytes) → str_lt s s ≡ false
unfolding str_lt
str_lt_irrefl [] = refl
str_lt_irrefl (a ∷ s) = ground (arith, str_lt_irrefl s)

pub str_lt_trans : (s t u : Bytes) → str_lt s t ≡ true → str_lt t u ≡ true → str_lt s u ≡ true
unfolding str_lt
str_lt_trans s [] u h k = cc
str_lt_trans s (b ∷ t) [] h k = cc
str_lt_trans [] (b ∷ t) (c ∷ u) h k = refl
str_lt_trans (a ∷ s) (b ∷ t) (c ∷ u) h k = ground (arith, str_lt_trans s t u)

pub str_lt_total : (s t : Bytes) → str_lt s t ≡ false → str_lt t s ≡ false → s ≡ t
unfolding str_lt
str_lt_total [] [] h k = refl
str_lt_total [] (b ∷ t) h k = cc
str_lt_total (a ∷ s) [] h k = cc
str_lt_total (a ∷ s) (b ∷ t) h k = ground (arith, str_lt_total s t)

-- Lower-casing is idempotent, byte by byte and on whole strings.
pub to_lower_idem : (c : ℕ) → to_lower (to_lower c) ≡ to_lower c
unfolding to_lower
to_lower_idem c = ground arith

pub map-to_lower_idem : (s : Bytes) → map to_lower (map to_lower s) ≡ map to_lower s
map-to_lower_idem [] = refl
map-to_lower_idem (c ∷ s) = cc (to_lower_idem c, map-to_lower_idem s)

pub to_upper_idem : (c : ℕ) → to_upper (to_upper c) ≡ to_upper c
unfolding to_upper
to_upper_idem c = ground arith

pub map-to_upper_idem : (s : Bytes) → map to_upper (map to_upper s) ≡ map to_upper s
map-to_upper_idem [] = refl
map-to_upper_idem (c ∷ s) = cc (to_upper_idem c, map-to_upper_idem s)

-- find(c) is npos exactly when the character does not occur, and otherwise its first place.
pub find_char-none : (k : ℕ) (s : Bytes) → All (λ c. c ≢ k) s → find_char k s ≡ none
unfolding find_char
find_char-none k [] h = refl
find_char-none k (c ∷ s) h = ground (arith, h.0, find_char-none k s h.1)

pub find_char-none-All : (k : ℕ) (s : Bytes) → find_char k s ≡ none → All (λ c. c ≢ k) s
unfolding find_char
find_char-none-All k [] h = tt
find_char-none-All k (c ∷ s) h = ground (arith, find_char-none-All k s)

pub find_char-some : (k i : ℕ) (s : Bytes) → find_char k s ≡ some i → All (λ c. c ≢ k) (take i s)
unfolding find_char
find_char-some k i [] h = cc
find_char-some k zero (c ∷ s) h = tt
find_char-some k (suc i) (c ∷ s) h = ground (arith, find_char-some k i s)

-- The first occurrence, behind a part without the character.
pub find_char-append :
    (k : ℕ) (s t : Bytes) → All (λ c. c ≢ k) s → find_char k (s ++ k ∷ t) ≡ some (length s)
unfolding find_char
find_char-append k [] t h = ground arith
find_char-append k (c ∷ s) t h = ground (arith, h.0, find_char-append k s t h.1)

pub str_eq_comm : (s t : Bytes) → str_eq s t ≡ str_eq t s
unfolding str_eq
str_eq_comm [] [] = refl
str_eq_comm [] (b ∷ t) = refl
str_eq_comm (a ∷ s) [] = refl
str_eq_comm (a ∷ s) (b ∷ t) = ground (arith, str_eq_comm s t)

-- A property of each word of a chain of comparisons is one of a text that the chain accepts.
abbrev pub AllWords {ℓ} : (Bytes → Type ℓ) → List String → Type ℓ
AllWords P [] = Unit
AllWords P (w ∷ ws) = P (codes w) × AllWords P ws

pub one_of_ind {ℓ} :
    (P : Bytes → Type ℓ) (s : Bytes) (ws : List String) → AllWords P ws → one_of s ws ≡ true → P s
unfolding one_of
one_of_ind P s [] h e = absurd (false_ne_true e)
  where
    false_ne_true : false ≡ true → ⊥
    false_ne_true k = cc
one_of_ind P s (w ∷ ws) h e = elim (Bool-cases (str_eq s (codes w))) [
  | inl k ↦ subst P (sym ((str_eq_iff s (codes w)).0 k)) h.0
  | inr k ↦ one_of_ind P s ws h.1 (sym (rw k refl) ∙ e)
]
