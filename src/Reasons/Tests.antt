-- ===== src/Reasons/Tests.antt =====
-- Codes of Hyperliquid and of the engine.
use latentspeed.Prelude.{◌≡◌, refl, ◌≢◌, ◌↔◌}
use latentspeed.Prelude.Bytes.{codes, one_of, contains, to_lower}
use latentspeed.Reasons.{canonical_code, canonical_reason_code, map_reason}
use latentspeed.Reasons.Laws.{Canonical, map_reason_lem}

mapped :
    (canonical_code (codes "Timeout") ≡ codes "network_error")
    × (canonical_code (codes "TickRejected") ≡ codes "price_out_of_bounds")
    × (canonical_reason_code (codes "TickRejected") ≡ codes "venue_reject")
    × ((map_reason (codes "rejected") (codes "perpMarginRejected")).reason_code
        ≡ codes "insufficient_balance")
unfolding canonical_code canonical_reason_code map_reason one_of contains to_lower
mapped = (refl, refl, refl, refl)

map_reason_lem_example :
    ((map_reason (codes "rejected") (codes "No balance")).status ≡ codes "rejected")
    × Canonical (map_reason (codes "rejected") (codes "No balance")).reason_code
    × (((map_reason (codes "rejected") (codes "No balance")).reason_code ≡ codes "ok")
        ↔ (codes "rejected" ≢ codes "rejected"))
map_reason_lem_example = map_reason_lem (codes "rejected") (codes "No balance")
