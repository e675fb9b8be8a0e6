-- ===== src/Hyperliquid/Handler.antt =====
-- The handler of install_ws_subscribe_handler as a whole: its channels, and the channel user, which
-- only seeds the map from order ids to client ids.
pub mod Laws
use latentspeed.Prelude.{
  [], ◌∷◌, map, Bool, true, false, not, ◌&&◌, ◌||◌, Option, none, some, if◌then◌else◌, ◌^◌, ◌-◌,
}
use latentspeed.Prelude.Bytes.{Bytes, one_of, is_empty, is_some, to_lower}
use latentspeed.Prelude.Assoc.{lookup}
use latentspeed.Json.{
  Value, Items, Fields, nil, item, find_field, member, as_text, as_int64, as_bool, as_array,
  as_object, or_keep,
}
use latentspeed.Hyperliquid.Ids.{Ids, remember_oid_clientid}
use latentspeed.Hyperliquid.Stream.{Env, Adapter}
use latentspeed.Hyperliquid.Updates.{read_text, order_updates}
use latentspeed.Hyperliquid.UserFills.{
  Channel, user_events, user_fills, Run, returns, deadlock, stream_fills,
}

-- A fill of the channel user: a cloid that is mapped gives its client id to the order id.
unfoldable pub seed_fill : Env → Fields → Ids → Ids
unfolding member as_text lookup remember_oid_clientid
seed_fill env f ids =
    let cloid = read_text (as_text (member "cloid" f)) in
    let oid : Bytes = elim (as_int64 (member "oid" f)) [ none ↦ [] | some n ↦ env.to_string n ] in
    if not (is_empty cloid) && not (is_empty oid)
    then elim (lookup (map to_lower cloid) ids.cloid_to_clientid) [
      | none ↦ ids
      | some client_id ↦ remember_oid_clientid oid client_id ids
    ]
    else ids

unfoldable pub seed_fills : Env → Items → Ids → Ids
unfolding seed_fill
seed_fills env nil ids = ids
seed_fills env (item v items) ids =
    let next : Ids = elim (as_object v) [ none ↦ ids | some f ↦ seed_fill env f ids ] in
    seed_fills env items next

unfoldable pub user_channel : Env → Fields → Adapter → Adapter
unfolding member seed_fills
user_channel env doc a =
    let payload = or_keep (as_object (member "data" doc)) doc in
    record a { ids = seed_fills env (or_keep (as_array (member "fills" payload)) nil) a.ids }

-- The fills of an object that has them.
unfoldable pub fills_of : Fields → Option Items
unfolding member
fills_of doc = elim (as_object (member "data" doc)) [
  | none ↦ none
  | some fields ↦ as_array (member "fills" fields)
]

unfoldable pub stream_channel : Env → Channel → Fields → Adapter → Run Adapter
unfolding fills_of stream_fills
stream_channel env channel doc a = elim (fills_of doc) [
  | none ↦ returns a
  | some items ↦ stream_fills env channel items a
]

-- ws_message_handler_
unfoldable pub handle_message : Env → Bytes → Fields → Adapter → Run Adapter
unfolding member user_channel stream_channel order_updates
handle_message env channel doc a =
    let is_snapshot = or_keep (as_bool (member "isSnapshot" doc)) false in
    let alive : Adapter = record a { last_private_event_ms = env.event_ms } in
    if one_of channel ("user" ∷ [])
    then returns (user_channel env doc a)
    else if one_of channel ("userFills" ∷ [])
    then stream_channel env user_fills doc alive
    else if one_of channel ("userEvents" ∷ [])
    then if is_snapshot then returns alive else stream_channel env user_events doc alive
    else if one_of channel ("orderUpdates" ∷ [])
    then if is_snapshot then returns alive else elim (as_array (member "data" doc)) [
      | none ↦ returns alive
      | some items ↦ returns (order_updates env items alive)
    ]
    else returns a
