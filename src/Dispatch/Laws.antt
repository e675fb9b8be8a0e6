-- ===== src/Dispatch/Laws.antt =====
-- decode_action and the hashes of the three words.
use native.Mathlib.Nat.{mod-lt}
use latentspeed.Prelude.{ℕ, ◌^◌, ◌<◌, ◌≡◌, refl, ◌↔◌, [], ◌∷◌, arith}
use latentspeed.Prelude.Bytes.{Bytes, codes}
use latentspeed.Dispatch.{
  place, cancel, replace, fnv1a_step, fnv1a_from, fnv1a_32, place_hash, cancel_hash, replace_hash,
  decode_action,
}

-- The static assertions of the header.
hashes : (place_hash ≡ 0xc8d632fc) × (cancel_hash ≡ 0x066e9c1b) × (replace_hash ≡ 0xa13884c3)
unfolding fnv1a_32
hashes = (refl, refl, refl)

fnv1a_from_bounds : (h : ℕ) (text : Bytes) → h < 2 ^ 32 → fnv1a_from h text < 2 ^ 32
unfolding fnv1a_from
fnv1a_from_bounds h [] p = p
fnv1a_from_bounds h (c ∷ text) p = fnv1a_from_bounds (fnv1a_step h c) text (mod-lt _ (omega arith))

fnv1a_32_bounds : (w : Bytes) → fnv1a_32 w < 2 ^ 32
unfolding fnv1a_32
fnv1a_32_bounds w = fnv1a_from_bounds 0x811c9dc5 w (omega arith)

-- An action is decoded by its hash alone: to one of the three kinds exactly when it has the hash of
-- that kind's word, which are three different numbers of 32 bits, and to `unknown` otherwise. So
-- the three words themselves are decoded as intended.
pub decode_action_lem :
    (w : Bytes)
    → ((decode_action w ≡ place) ↔ (fnv1a_32 w ≡ fnv1a_32 (codes "place")))
      × ((decode_action w ≡ cancel) ↔ (fnv1a_32 w ≡ fnv1a_32 (codes "cancel")))
      × ((decode_action w ≡ replace) ↔ (fnv1a_32 w ≡ fnv1a_32 (codes "replace")))
      × (fnv1a_32 w < 2 ^ 32)
unfolding decode_action
decode_action_lem w =
    (ground (arith, hashes), ground (arith, hashes), ground (arith, hashes), fnv1a_32_bounds w)
