-- ===== src/Hyperliquid/Updates.antt =====
-- The branch of the handler for the channel orderUpdates.
pub mod Laws
use latentspeed.Prelude.{
  ℕ, ◌-◌, ◌+◌, List, ◌++◌, [], ◌∷◌, map, Bool, true, false, not, ◌&&◌, ◌||◌, Option, none, some,
  if◌then◌else◌, ◌==◌, leb, length,
}
use latentspeed.Prelude.Bytes.{Bytes, codes, one_of, is_empty, rfind, or_npos, to_lower, to_upper}
use latentspeed.Prelude.Assoc.{lookup}
use latentspeed.Json.{
  Value, Items, Fields, nil, item, end, member, as_text, as_uint64, as_object, or_keep,
}
use latentspeed.Hft.FlatMap.{put}
use latentspeed.Hft.FlatMap.Keys.{bytes_ord}
use latentspeed.Engine.Types.{Tags}
use latentspeed.Engine.Update.{OrderUpdate}
use latentspeed.Hyperliquid.Text.{normalize_epoch_ms}
use latentspeed.Hyperliquid.Ids.{Ids, map_back_client_id, remember_oid_role, remember_oid_clientid}
use latentspeed.Hyperliquid.Stream.{Env, Adapter, is_stale, maybe_trigger_event_driven_reconnect}

-- extra_data[k] = v of a std::map, a sorted list of its entries.
unfoldable pub set_extra : Bytes → Bytes → Tags → Tags
set_extra k v m = put k v m

-- A status of the venue as the status and the reason of the update.
unfoldable pub map_status : Bytes → Bytes × Bytes
map_status st =
    if one_of st ("open" ∷ [])
    then (codes "new", [])
    else if one_of st ("filled" ∷ [])
    then (codes "filled", [])
    else if one_of st ("partially_filled" ∷ [])
    then (codes "partially_filled", [])
    else if one_of st ("canceled" ∷ "cancelled" ∷ "marginCanceled" ∷ "scheduledCancel" ∷ [])
    then (codes "canceled", [])
    else if one_of st ("triggered" ∷ [])
    then (codes "accepted", [])
    else if one_of st ("rejected" ∷ [])
    then (codes "rejected", [])
    else if leb 8 (length st) && (or_npos (rfind (codes "Rejected") st) == length st - 8)
    then (codes "rejected", st)
    else (st, [])

-- The texts of the member `order`.
abbrev pub read_text : Option Bytes → Bytes
read_text o = or_keep o []

unfoldable pub order_oid : Env → Fields → Bytes
unfolding member
order_oid env o = elim (as_uint64 (member "oid" o)) [ none ↦ [] | some n ↦ env.to_string n ]

-- The role of the cloid goes to the order id.
unfoldable pub carry_role : Bytes → Bytes → Ids → Ids
unfolding lookup remember_oid_role
carry_role hlc oid ids =
    if not (is_empty hlc) && not (is_empty oid)
    then elim (lookup (map to_lower hlc) ids.cloid_to_role) [
      | none ↦ ids
      | some role ↦ remember_oid_role oid role ids
    ]
    else ids

-- What the handler learns from an item, and the update as it stands before its status.
unfoldable pub learn : Bytes → Bytes → Ids → Ids
unfolding carry_role remember_oid_clientid map_back_client_id
learn oid hlc ids = remember_oid_clientid oid (map_back_client_id hlc ids) (carry_role hlc oid ids)

unfoldable pub update_extra : Bytes → Tags
unfolding set_extra
update_extra coin =
    if is_empty coin
    then []
    else set_extra (codes "exchange") (codes "hyperliquid") (
        set_extra (codes "category") (codes "linear")
          (set_extra (codes "symbol") (map to_upper coin ++ codes "-USDC-PERP") []))

-- Both filters: one on the time that the item states, one on any time but 0.
unfoldable pub is_replayed : Env → Option ℕ → Bool
unfolding is_stale normalize_epoch_ms
is_replayed env none = false
is_replayed env (some raw) =
    let ts = normalize_epoch_ms raw in
    is_stale env 1000 ts || (not (ts == 0) && is_stale env 5000 ts)

unfoldable pub status_of : Value → Bytes × Bytes
unfolding map_status
status_of v = elim (as_text v) [ none ↦ ([], []) | some st ↦ map_status st ]

unfoldable pub time_of : Option ℕ → ℕ
unfolding normalize_epoch_ms
time_of none = 0
time_of (some raw) = normalize_epoch_ms raw

-- The body of the loop for an item that is an object.
unfoldable pub handle_order : Env → Fields → Adapter → Adapter
unfolding member as_text order_oid learn status_of is_replayed time_of update_extra
    map_back_client_id
handle_order env it a =
    let o = or_keep (as_object (member "order" it)) end in
    let oid = order_oid env o in
    let hlc = read_text (as_text (member "cloid" o)) in
    let raw = as_uint64 (member "statusTimestamp" it) in
    let (status, reason) = status_of (member "status" it) in
    let upd : OrderUpdate = record {
      client_order_id = map_back_client_id hlc a.ids;
      exchange_order_id = oid;
      status = status;
      reason = reason;
      timestamp_ms = time_of raw;
      extra_data = update_extra (read_text (as_text (member "coin" o)));
    } in
    let learned : Adapter = record a { ids = learn oid hlc a.ids } in
    if is_replayed env raw then learned else record learned { updates = upd ∷ a.updates }

unfoldable pub handle_orders : Env → Items → Adapter → Adapter
unfolding handle_order
handle_orders env nil a = a
handle_orders env (item v items) a =
    let next : Adapter = elim (as_object v) [ none ↦ a | some it ↦ handle_order env it a ] in
    handle_orders env items next

-- The whole branch: the items, the latch and the reconnection.
unfoldable pub order_updates : Env → Items → Adapter → Adapter
unfolding handle_orders maybe_trigger_event_driven_reconnect
order_updates env items a =
    let done = handle_orders env items a in
    maybe_trigger_event_driven_reconnect env
      (record done { recon_last_seen_update_ms = env.latch_ms })
