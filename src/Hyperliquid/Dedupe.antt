-- ===== src/Hyperliquid/Dedupe.antt =====
-- The window of fills that the handler has seen: fill_dedupe_q_, a std::deque with its front first,
-- and fill_dedupe_set_, a std::unordered_set, which the source fills and empties together.
pub mod Laws
use latentspeed.Prelude.{
  ℕ, List, [], ◌∷◌, ◌++◌, Bool, true, false, ◌||◌, if◌then◌else◌, ltb, length,
}
use latentspeed.Prelude.Bytes.{Bytes, str_eq}

pub record Window : Type 0 where
  pub queue : List Bytes
  pub keys : List Bytes

abbrev pub no_fills : Window
no_fills = record { queue = []; keys = [] }

-- kFillDedupMax_
abbrev pub dedup_max : ℕ
dedup_max = 10000

unfoldable pub member : Bytes → List Bytes → Bool
member k [] = false
member k (x ∷ xs) = str_eq x k || member k xs

-- unordered_set::erase(key)
unfoldable pub erase_key : Bytes → List Bytes → List Bytes
erase_key k [] = []
erase_key k (x ∷ xs) = let rest = erase_key k xs in if str_eq x k then rest else x ∷ rest

unfoldable pub drop_front : List Bytes → List Bytes → Window
unfolding erase_key
drop_front [] keys = record { queue = []; keys = keys }
drop_front (old ∷ queue) keys = record { queue = queue; keys = erase_key old keys }

-- Past the maximum the oldest key is forgotten.
unfoldable pub evict : ℕ → Window → Window
unfolding drop_front
evict max w = if ltb max (length w.queue) then drop_front w.queue w.keys else w

-- What the handler does with a key: whether it was seen, and the window afterwards.
unfoldable pub see : ℕ → Bytes → Window → Bool × Window
unfolding member evict
see max key w =
    if member key w.keys
    then (true, w)
    else (false, evict max (record { queue = w.queue ++ key ∷ []; keys = key ∷ w.keys }))

-- The keys of a stream of fills that are emitted, in their order, and the window afterwards.
unfoldable pub see_all : ℕ → List Bytes → Window → List Bytes × Window
unfolding see
see_all max [] w = ([], w)
see_all max (k ∷ ks) w =
    let (seen, w') = see max k w in
    let (emitted, last) = see_all max ks w' in (if seen then emitted else k ∷ emitted, last)
