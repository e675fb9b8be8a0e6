-- ===== src/Hyperliquid/Query/Laws.antt =====
-- The query of an order that the adapter placed.
use latentspeed.Prelude.{◌≡◌, refl, map, true, false, some}
use latentspeed.Prelude.Bytes.{Bytes, is_empty, to_lower}
use latentspeed.Json.{Value, Fields, field}
use latentspeed.Hyperliquid.Text.{is_valid_cloid}
use latentspeed.Hyperliquid.Ids.{Ids, remember_cloid_mapping}
use latentspeed.Hyperliquid.Ids.Laws.{clientid_to_cloid-remember}
use latentspeed.Hyperliquid.Query.{QueryLink, query_cloid, status_query, found_order, query_order}

-- After a client id was mapped to a cloid, a query under that client id asks the venue for the cloid
-- in lower case, and any answer with a member at all counts as an order that was found.
query_order_lem :
    (link : QueryLink) (cloid id k : Bytes) (v : Value) (rest : Fields) (ids : Ids)
    → is_valid_cloid id ≡ false
    → is_empty id ≡ false
    → is_empty cloid ≡ false
    → is_valid_cloid (map to_lower cloid) ≡ true
    → link.info_answer (status_query link (map to_lower cloid)) ≡ some (some (field k v rest))
    → (query_order link (remember_cloid_mapping cloid id ids) id
        ≡ found_order link id (field k v rest))
      × ((found_order link id (field k v rest)).success ≡ true)
unfolding query_order query_cloid found_order
query_order_lem link cloid id k v rest ids foreign hi hc valid answer =
    let found = clientid_to_cloid-remember cloid id ids hi hc in
    let by : query_cloid id (remember_cloid_mapping cloid id ids) ≡ some (map to_lower cloid) =
      rw (foreign, found, valid) refl in
    (rw (query_order, by, answer) refl, refl)
