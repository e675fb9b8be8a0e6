-- ===== src/Hyperliquid/Place.antt =====
-- place_order as a whole: the gate, the action with its bracket, the id maps and the recent entry,
-- the posting and the answer. An order that is batched is queued; what the batch thread answers is
-- an argument here, and so are the signer, the connection and the random ids.
pub mod Laws
pub mod Early
use latentspeed.Prelude.{
  ℕ, List, [], ◌∷◌, ◌++◌, map, Bool, true, false, not, ◌&&◌, Option, none, some, if◌then◌else◌,
  take,
}
use latentspeed.Prelude.Bytes.{Bytes, codes, one_of, is_empty, to_lower, str_eq}
use latentspeed.Json.{
  Value, Items, Fields, nil, item, end, unsigned, boolean, text, object, array, or_keep,
}
use latentspeed.NumString.{trim_trailing_zeros}
use latentspeed.Symbol.{to_hyphen}
use latentspeed.Engine.Types.{OrderRequest, OrderResponse}
use latentspeed.Engine.Serialize.{named}
use latentspeed.Hyperliquid.Text.{parse_base_quote_from_hyphen}
use latentspeed.Hyperliquid.Ids.{
  Ids, ensure_hl_cloid, remember_cloid_mapping, remember_cloid_role, remember_child_parent,
}
use latentspeed.Hyperliquid.Stream.{Env, Adapter, RecentEntry}
use latentspeed.Hyperliquid.Reply.{refused_as, place_reply}
use latentspeed.Hyperliquid.Batch.{PendingOrderItem, batch_order}
use latentspeed.Hyperliquid.Placement.{
  Market, HlResolution, Kind, trigger, limit, Built, built, refused, extra, use_batch,
  private_ws_stale, is_spot_request, resolve, perp_px, build_kind,
}

-- The signer and the connection, with what they do with an action: `none` for a failed sending, and
-- inside for an answer that cannot be parsed.
pub record Link : Type 0 where
  pub has_signer : Bool
  pub sign_l1_action : Fields → Bool
  pub build_action_payload : Fields → Bool
  pub send_signed_action_json : Fields → Option (Option Fields)
  pub random_id : Bytes → Bytes
  pub batched : PendingOrderItem → Option OrderResponse

-- The member "t" of an order.
unfoldable pub kind_value : Kind → Value
kind_value (trigger is_market trigger_px tpsl) = object (
    named "trigger"
      (object (
        named "isMarket" (boolean is_market)
          (named "triggerPx" (text trigger_px) (named "tpsl" (text tpsl) end))))
      end)
kind_value (limit tif) = object (named "limit" (object (named "tif" (text tif) end)) end)

-- An order in the order of its keys, the cloid where there is a client id.
unfoldable pub wire_order :
    HlResolution → Bool → Bytes → Bytes → Bool → Kind → Option Bytes → Fields
unfolding kind_value
wire_order res is_buy px sz reduce_only kind cloid =
    let last = elim cloid as (λ o. Fields) [ none ↦ end | some c ↦ named "c" (text c) end ] in
    named "a" (unsigned res.asset) (
      named "b" (boolean is_buy) (
        named "p" (text px) (
          named "s" (text sz)
            (named "r" (boolean reduce_only) (named "t" (kind_value kind) last)))))

-- A flag of the bracket's parameters.
unfoldable pub is_yes : Bytes → Bool
unfolding one_of
is_yes v = one_of (map to_lower v) ("1" ∷ "true" ∷ "yes" ∷ [])

-- The key of a leg's parameter.
abbrev pub leg_key : Bytes → Bytes → Bytes
leg_key which name = codes "bracket." ++ which ++ b'.' ∷ name

unfoldable pub child_id : Bytes → Bytes → Bytes
child_id id which = id ++ codes "::" ++ which

-- What the id maps learn of a leg.
unfoldable pub leg_ids : Link → Bytes → Bytes → Ids → Ids
unfolding child_id ensure_hl_cloid remember_child_parent remember_cloid_mapping remember_cloid_role
leg_ids link id which ids =
    let child = child_id id which in
    let cloid = ensure_hl_cloid (link.random_id child) child in
    if is_empty id
    then ids
    else remember_cloid_role cloid which
        (remember_cloid_mapping cloid child (remember_child_parent child id ids))

-- The price and the type of a leg at the price `px`.
unfoldable pub leg_kind :
    Market → OrderRequest → Bool → Bool → HlResolution → Bytes → Bytes → Bytes × Kind
unfolding trim_trailing_zeros perp_px str_eq
leg_kind m r is_spot exit_is_buy res which px =
    let typ = map to_lower (or_keep (extra r (leg_key which (codes "type"))) (codes "stop")) in
    let px_str = trim_trailing_zeros px in
    let given = or_keep (extra r (leg_key which (codes "limit_px"))) [] in
    let limit_px = if is_empty given then px_str else trim_trailing_zeros given in
    let tpsl = if str_eq which (codes "tp") then codes "tp" else codes "sl" in
    if str_eq typ (codes "limit")
    then (perp_px m is_spot exit_is_buy res px_str, limit (codes "Gtc"))
    else (
      perp_px m is_spot exit_is_buy res limit_px,
      trigger (not (str_eq typ (codes "stop_limit"))) (perp_px m is_spot exit_is_buy res px_str)
          tpsl,
    )

-- add_trigger: a leg without a price is left out.
unfoldable pub add_leg :
    Market
    → Link
    → OrderRequest
    → Bool
    → Bool
    → HlResolution
    → Bytes
    → Bytes
    → Items × Ids
    → Items × Ids
unfolding leg_kind wire_order leg_ids is_yes trim_trailing_zeros child_id ensure_hl_cloid
add_leg m link r is_spot is_buy res sz which (rest, ids) =
    let exit_is_buy = not is_buy in
    let exit_sz = elim (extra r (codes "bracket.size")) as (λ o. Bytes) [
      | none ↦ sz
      | some s ↦ trim_trailing_zeros s
    ] in
    let exit_ro = elim (extra r (codes "bracket.reduce_only")) as (λ o. Bool) [
      | none ↦ true
      | some v ↦ is_yes v
    ] in
    let child = child_id r.client_order_id which in
    let cloid =
      if is_empty r.client_order_id
      then none
      else some (ensure_hl_cloid (link.random_id child) child) in
    elim (extra r (leg_key which (codes "px"))) [
      | none ↦ (rest, ids)
      | some px ↦
          let (p, kind) = leg_kind m r is_spot exit_is_buy res which px in
          (
            item (object (wire_order res exit_is_buy p exit_sz exit_ro kind cloid)) rest,
            leg_ids link r.client_order_id which ids,
          )
    ]

unfoldable pub is_bundle : OrderRequest → Bool
unfolding str_eq
is_bundle r = elim (extra r (codes "bracket.mode")) [
  | none ↦ false
  | some mode ↦ str_eq (map to_lower mode) (codes "bundle")
]

unfoldable pub grouping : OrderRequest → Bytes
unfolding is_bundle is_yes
grouping r = elim (extra r (codes "bracket.oco")) [
  | none ↦ codes "na"
  | some v ↦ if is_bundle r && is_yes v then codes "normalTpsl" else codes "na"
]

-- kRecentMax_
abbrev pub recent_max : ℕ
recent_max = 1024

unfoldable pub record_recent : RecentEntry → List RecentEntry → List RecentEntry
record_recent r rs = take recent_max (r ∷ rs)

-- The action of an order whose price and type are known, and the adapter that remembers it. The ids
-- of a stop-loss leg are learnt after those of a take-profit leg.
unfoldable pub place_action :
    Env
    → Market
    → Link
    → OrderRequest
    → Bytes
    → HlResolution
    → Bytes × Kind
    → Adapter
    → Fields × Adapter
unfolding add_leg wire_order remember_cloid_mapping ensure_hl_cloid record_recent is_bundle grouping
    trim_trailing_zeros is_spot_request str_eq
place_action env m link r base res (px, kind) a =
    let is_spot = is_spot_request r in
    let is_buy = str_eq (map to_lower r.side) (codes "buy") in
    let sz = trim_trailing_zeros r.quantity in
    let id = r.client_order_id in
    let hlc = ensure_hl_cloid (link.random_id id) id in
    let ids = if is_empty id then a.ids else remember_cloid_mapping hlc id a.ids in
    let entry : RecentEntry = record {
      coin = base;
      is_buy = is_buy;
      qty = sz;
      client_id = id;
      ts_ms = m.now_ms;
    } in
    let recent = if is_spot then a.recent_entries else record_recent entry a.recent_entries in
    let tp_ids = (add_leg m link r is_spot is_buy res sz (codes "tp") (nil, ids)).1 in
    let (sl, sl_ids) = add_leg m link r is_spot is_buy res sz (codes "sl") (nil, tp_ids) in
    let legs = (add_leg m link r is_spot is_buy res sz (codes "tp") (sl, ids)).0 in
    let order =
      wire_order res is_buy px sz r.reduce_only kind (if is_empty id then none else some hlc) in
    (
      named "type" (text (codes "order")) (
          named "orders" (array (item (object order) (if is_bundle r then legs else nil)))
            (named "grouping" (text (grouping r)) end)),
      record a { ids = if is_bundle r then sl_ids else ids; recent_entries = recent },
    )

-- Signing, posting and the answer. The nonce of the signature, which Nonce models, and the threads
-- that confirm a resting order later are left out.
unfoldable pub post_action :
    Env → Market → Link → Bytes → Fields → Adapter → OrderResponse × Adapter
unfolding place_reply
post_action env m link id action a =
    let stamped : Adapter =
      if env.enable_proactive_reconnect
      then record a { last_order_placement_ms = m.now_ms }
      else a in
    if not link.has_signer
    then (refused_as id (codes "hyperliquid: signer not configured"), a)
    else if not (link.sign_l1_action action)
    then (refused_as id (codes "hyperliquid: signature unavailable (signer error)"), a)
    else if not (link.build_action_payload action)
    then (refused_as id (codes "hyperliquid: signer build_payload unavailable"), a)
    else elim (link.send_signed_action_json action) [
      | none ↦ (refused_as id (codes "hyperliquid: action send failed"), a)
      | some answer ↦
          let (response, ids) = place_reply env id answer stamped.ids in
          (response, record stamped { ids = ids })
    ]

unfoldable pub place_order : Env → Market → Link → OrderRequest → Adapter → OrderResponse × Adapter
unfolding private_ws_stale use_batch batch_order resolve build_kind place_action post_action
    to_hyphen parse_base_quote_from_hyphen is_spot_request str_eq
place_order env m link r a =
    let is_spot = is_spot_request r in
    let is_buy = str_eq (map to_lower r.side) (codes "buy") in
    let (base, quote) = parse_base_quote_from_hyphen (to_hyphen r.symbol (not is_spot)) in
    let id = r.client_order_id in
    if private_ws_stale m a.last_private_event_ms r
    then (refused_as id (codes "private_ws_stale"), a)
    else if use_batch m r
    then (batch_order link.batched m r is_spot is_buy base quote, a)
    else elim (resolve m is_spot base quote) [
      | refused message ↦ (refused_as id message, a)
      | built res ↦ elim (build_kind m r is_spot is_buy base res) [
        | refused message ↦ (refused_as id message, a)
        | built kind ↦
            let (action, prepared) = place_action env m link r base res kind a in
            post_action env m link id action prepared
      ]
    ]
