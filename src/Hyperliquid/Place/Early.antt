-- ===== src/Hyperliquid/Place/Early.antt =====
-- A fill on userFills that overtakes the answer to its placement.
use latentspeed.Prelude.{
  ℕ, ◌+◌, ◌-◌, ◌≤◌, ◌≡◌, refl, sym, ap, ap₂, ◌∙◌, List, map, Bool, true, false, ◌&&◌, ◌||◌, none,
  some, if◌then◌else◌, if_ind, Option-cases, inl, inr, arith, ltb,
}
use latentspeed.Prelude.Bytes.{Bytes, codes, str_eq, str_eq_iff, is_empty, to_lower}
use latentspeed.Prelude.Assoc.{lookup}
use latentspeed.Json.{Items, Fields, item, nil, object, member, as_text}
use latentspeed.NumString.{trim_trailing_zeros}
use latentspeed.Engine.Types.{OrderRequest}
use latentspeed.Engine.Fills.{FillData}
use latentspeed.Hyperliquid.Ids.{
  Ids, ensure_hl_cloid, remember_cloid_mapping, remember_cloid_role, remember_child_parent,
}
use latentspeed.Hyperliquid.Stream.{Env, Adapter, RecentEntry, is_stale}
use latentspeed.Hyperliquid.Updates.{read_text}
use latentspeed.Hyperliquid.UserFills.{
  user_fills, deadlock, read_fill, recent_entry, entry_matches, unattributed, with_ids,
  stream_fills,
}
use latentspeed.Hyperliquid.UserFills.Blocking.{stream_fills-deadlock}
use latentspeed.Hyperliquid.Placement.{Market, HlResolution, Kind, is_spot_request, extra}
use latentspeed.Hyperliquid.Place.{
  Link, child_id, leg_ids, leg_key, add_leg, is_bundle, record_recent, place_action,
}

-- A placement teaches the adapter no order id of the venue.
abbrev SameOids : Ids → Ids → Type 0
SameOids ids r = r.oid_to_clientid ≡ ids.oid_to_clientid

leg-SameOids :
    (link : Link) (id which : Bytes) (ids : Ids) → SameOids ids (leg_ids link id which ids)
unfolding leg_ids remember_cloid_role remember_cloid_mapping remember_child_parent
leg-SameOids link id which ids =
    let child = child_id id which in
    let cloid = ensure_hl_cloid (link.random_id child) child in
    let told : SameOids ids (remember_child_parent child id ids) =
      if_ind (SameOids ids) (is_empty child || is_empty id) refl refl in
    let mapped : SameOids ids
        (remember_cloid_mapping cloid child (remember_child_parent child id ids)) =
      if_ind (SameOids ids) (is_empty cloid || is_empty child) told told in
    if_ind (SameOids ids) (is_empty id) refl
      (if_ind (SameOids ids) (is_empty cloid || is_empty which) mapped mapped)

add_leg-SameOids :
    (m : Market) (link : Link) (r : OrderRequest) (is_spot is_buy : Bool) (res : HlResolution)
    (sz which : Bytes) (rest : Items) (ids : Ids)
    → SameOids ids (add_leg m link r is_spot is_buy res sz which (rest, ids)).1
unfolding add_leg
add_leg-SameOids m link r is_spot is_buy res sz which rest ids =
    elim (Option-cases (extra r (leg_key which (codes "px")))) [
      | inl e ↦ rw (add_leg, e) refl
      | inr (px, e) ↦ rw (add_leg, e) (leg-SameOids link r.client_order_id which ids)
    ]

place_action-SameOids :
    (env : Env) (m : Market) (link : Link) (r : OrderRequest) (base : Bytes) (res : HlResolution)
    (kind : Bytes × Kind) (a : Adapter)
    → SameOids a.ids (place_action env m link r base res kind a).1.ids
unfolding place_action remember_cloid_mapping
place_action-SameOids env m link r base res kind a =
    let id = r.client_order_id in
    let hlc = ensure_hl_cloid (link.random_id id) id in
    let sz = trim_trailing_zeros r.quantity in
    let is_spot = is_spot_request r in
    let is_buy = str_eq (map to_lower r.side) (codes "buy") in
    let ids = if is_empty id then a.ids else remember_cloid_mapping hlc id a.ids in
    let first : SameOids a.ids ids =
      if_ind (SameOids a.ids) (is_empty id) refl
        (if_ind (SameOids a.ids) (is_empty hlc || is_empty id) refl refl) in
    let tp_ids = (add_leg m link r is_spot is_buy res sz (codes "tp") (nil, ids)).1 in
    let legs =
      add_leg-SameOids m link r is_spot is_buy res sz (codes "sl") nil tp_ids
      ∙ add_leg-SameOids m link r is_spot is_buy res sz (codes "tp") nil ids
      ∙ first in
    if_ind (SameOids a.ids) (is_bundle r) legs first

with_ids-quantity : (ids : Ids) (fill : FillData) → (with_ids ids fill).quantity ≡ fill.quantity
unfolding with_ids
with_ids-quantity ids fill = elim (Option-cases (lookup fill.exchange_order_id ids.oid_to_role)) [
  | inl e ↦ elim (Option-cases (lookup fill.exchange_order_id ids.oid_to_clientid)) [
    | inl g ↦ rw (with_ids, e, g) refl
    | inr (id, g) ↦ rw (with_ids, e, g) refl
  ]
  | inr (role, e) ↦ elim (Option-cases (lookup fill.exchange_order_id ids.oid_to_clientid)) [
    | inl g ↦ rw (with_ids, e, g) refl
    | inr (id, g) ↦ rw (with_ids, e, g) refl
  ]
]

-- The entry of the order is found while it is the newest and not older than ten seconds.
newest :
    (now : ℕ) (matches : RecentEntry → Bool) (r : RecentEntry) (rs : List RecentEntry)
    → now ≤ r.ts_ms + 10000
    → matches r ≡ true
    → recent_entry now matches (record_recent r rs) ≡ some r
unfolding recent_entry record_recent
newest now matches r rs h e =
    let young : ltb r.ts_ms now && ltb 10000 (now - r.ts_ms) ≡ false = ground arith in
    rw (recent_entry, young, e) refl

-- After a perpetual order with a client id was put on its way, a fill of its coin and its quantity
-- under an order id that is not known yet, within ten seconds, blocks the handler of userFills.
pub early_fill-deadlock :
    (env : Env) (m : Market) (link : Link) (r : OrderRequest) (base : Bytes) (res : HlResolution)
    (kind : Bytes × Kind) (a : Adapter) (f : Fields) (items : Items)
    → is_spot_request r ≡ false
    → is_empty r.client_order_id ≡ false
    → is_stale env 5000 (read_fill env f).timestamp_ms ≡ false
    → is_empty (read_fill env f).exchange_order_id ≡ false
    → lookup (read_fill env f).exchange_order_id a.ids.oid_to_clientid ≡ none
    → read_text (as_text (member "coin" f)) ≡ base
    → (read_fill env f).quantity ≡ trim_trailing_zeros r.quantity
    → env.fill_ms 0 ≤ m.now_ms + 10000
    → stream_fills env user_fills
        (item (object f) items)
        (place_action env m link r base res kind a).1
      ≡ deadlock
unfolding place_action unattributed entry_matches
early_fill-deadlock env m link r base res kind a f items perp id fresh oid unknown coin qty time =
    let placed = (place_action env m link r base res kind a).1 in
    let fill = read_fill env f in
    let entry : RecentEntry = record {
      coin = base;
      is_buy = str_eq (map to_lower r.side) (codes "buy");
      qty = trim_trailing_zeros r.quantity;
      client_id = r.client_order_id;
      ts_ms = m.now_ms;
    } in
    let absent : lookup fill.exchange_order_id placed.ids.oid_to_clientid ≡ none =
      ap (lookup fill.exchange_order_id) (place_action-SameOids env m link r base res kind a)
      ∙ unknown in
    let search : unattributed user_fills fill.exchange_order_id placed.ids ≡ true =
      rw (unattributed, absent) refl in
    let c = read_text (as_text (member "coin" f)) in
    let same : entry_matches env user_fills c (with_ids placed.ids fill) entry ≡ true =
      ap₂ ◌&&◌ ((str_eq_iff base c).1 (sym coin)) (
        (str_eq_iff (trim_trailing_zeros r.quantity) (with_ids placed.ids fill).quantity).1
          (sym (with_ids-quantity placed.ids fill ∙ qty))) in
    let recent : placed.recent_entries ≡ record_recent entry a.recent_entries =
      ap (λ b. if b then a.recent_entries else record_recent entry a.recent_entries) perp in
    let matches : RecentEntry → Bool = entry_matches env user_fills c (with_ids placed.ids fill) in
    let found =
      ap (recent_entry (env.fill_ms 0) matches) recent
      ∙ newest (env.fill_ms 0) matches entry a.recent_entries time same in
    stream_fills-deadlock env user_fills f items placed entry fresh oid search found id
