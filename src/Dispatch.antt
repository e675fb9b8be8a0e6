-- ===== src/Dispatch.antt =====
-- include/action_dispatch.h: the 32-bit FNV-1a hash and the decoding of an action by it.
pub mod Laws
mod Tests
use Prim.Native.Nat.{bit_xor}
use latentspeed.Prelude.{ℕ, ◌*◌, ◌%◌, ◌^◌, [], ◌∷◌, ◌==◌, if◌then◌else◌}
use latentspeed.Prelude.Bytes.{Bytes, codes}

-- `hash ^= ch; hash *= 0x01000193` on uint32_t.
unfoldable pub fnv1a_step : ℕ → ℕ → ℕ
fnv1a_step hash ch = (bit_xor hash ch * 0x01000193) % 2 ^ 32

unfoldable pub fnv1a_from : ℕ → Bytes → ℕ
unfolding fnv1a_step
fnv1a_from hash [] = hash
fnv1a_from hash (ch ∷ text) = fnv1a_from (fnv1a_step hash ch) text

unfoldable pub fnv1a_32 : Bytes → ℕ
unfolding fnv1a_from
fnv1a_32 text = fnv1a_from 0x811c9dc5 text

pub data ActionKind : Type 0 where
  place cancel replace unknown : ActionKind

abbrev pub place_hash : ℕ
place_hash = fnv1a_32 (codes "place")

abbrev pub cancel_hash : ℕ
cancel_hash = fnv1a_32 (codes "cancel")

abbrev pub replace_hash : ℕ
replace_hash = fnv1a_32 (codes "replace")

unfoldable pub decode_action : Bytes → ActionKind
decode_action action =
    let hash = fnv1a_32 action in
    if hash == place_hash
    then place
    else if hash == cancel_hash
    then cancel
    else if hash == replace_hash
    then replace
    else unknown
