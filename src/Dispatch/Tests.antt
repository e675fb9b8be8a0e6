-- ===== src/Dispatch/Tests.antt =====
-- The words of the protocol, and one that is none of them.
use latentspeed.Prelude.{◌^◌, ◌<◌, ◌≡◌, refl, ◌↔◌}
use latentspeed.Prelude.Bytes.{codes}
use latentspeed.Dispatch.{place, cancel, replace, unknown, fnv1a_32, decode_action}
use latentspeed.Dispatch.Laws.{decode_action_lem}

words :
    (decode_action (codes "place") ≡ place)
    × (decode_action (codes "cancel") ≡ cancel)
    × (decode_action (codes "replace") ≡ replace)
    × (decode_action (codes "modify") ≡ unknown)
unfolding decode_action fnv1a_32
words = (refl, refl, refl, refl)

-- A word of eight letters with the hash of "place" is taken for it.
collision : decode_action (codes "lqqmacvf") ≡ place
unfolding decode_action fnv1a_32
collision = refl

decode_action_lem_example :
    ((decode_action (codes "lqqmacvf") ≡ place)
      ↔ (fnv1a_32 (codes "lqqmacvf") ≡ fnv1a_32 (codes "place")))
    × ((decode_action (codes "lqqmacvf") ≡ cancel)
        ↔ (fnv1a_32 (codes "lqqmacvf") ≡ fnv1a_32 (codes "cancel")))
    × ((decode_action (codes "lqqmacvf") ≡ replace)
        ↔ (fnv1a_32 (codes "lqqmacvf") ≡ fnv1a_32 (codes "replace")))
    × (fnv1a_32 (codes "lqqmacvf") < 2 ^ 32)
decode_action_lem_example = decode_action_lem (codes "lqqmacvf")
