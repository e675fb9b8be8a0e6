-- ===== src/Hyperliquid/UserFills.antt =====
-- The branches of the handler for the channels userEvents and userFills.
pub mod Laws
pub mod Sound
pub mod Blocking
use latentspeed.Prelude.{
  ℕ, zero, suc, ◌-◌, ◌+◌, List, [], ◌∷◌, ◌++◌, map, Bool, true, false, not, ◌&&◌, ◌||◌, Option,
  none, some, if◌then◌else◌, ltb, ◌==◌, drop,
}
use latentspeed.Prelude.Bytes.{Bytes, codes, str_eq, one_of, is_empty, is_some, to_lower}
use latentspeed.Prelude.Assoc.{lookup}
use latentspeed.Json.{
  Value, Items, Fields, nil, item, member, as_text, as_uint64, as_int64, as_bool, as_object,
  or_keep,
}
use latentspeed.Hft.FlatMap.{find}
use latentspeed.Hft.FlatMap.Keys.{bytes_ord}
use latentspeed.Engine.Types.{Tags}
use latentspeed.Engine.Fills.{FillData}
use latentspeed.Hyperliquid.Text.{normalize_epoch_ms}
use latentspeed.Hyperliquid.Ids.{Ids, parent_for_client_id}
use latentspeed.Hyperliquid.Dedupe.{see}
use latentspeed.Hyperliquid.Stream.{
  Env, Adapter, RecentEntry, is_stale, maybe_advance_exec_cursor,
  maybe_trigger_event_driven_reconnect,
}
use latentspeed.Hyperliquid.Updates.{set_extra, read_text, order_oid}

pub data Channel : Type 0 where
  user_events : Channel
  user_fills : Channel

-- A pair of the spot market by its index behind the @, or else the perpetual against USDC.
unfoldable pub fill_symbol : Env → Bytes → Bytes
fill_symbol env [] = []
fill_symbol env (c ∷ rest) =
    if c == b'@'
    then elim (env.resolve_spot_pair_by_index (env.atoi rest)) [
      | none ↦ c ∷ rest
      | some (base, quote) ↦ base ++ b'-' ∷ quote
    ]
    else (c ∷ rest) ++ codes "-USDC-PERP"

-- What a reading member of the fill's object says, or nothing.
abbrev pub text_or : Value → Bytes → (Bytes → Bytes) → Bytes
text_or v d f = elim (as_text v) [ none ↦ d | some s ↦ f s ]

unfoldable pub read_fill : Env → Fields → FillData
unfolding member as_text order_oid fill_symbol normalize_epoch_ms str_eq
read_fill env f = record {
  client_order_id = [];
  exchange_order_id = order_oid env f;
  exec_id = elim (as_int64 (member "tid" f)) [ none ↦ [] | some n ↦ env.to_string n ];
  symbol = text_or (member "coin" f) [] (fill_symbol env);
  side =
      text_or (member "side" f) []
        (λ s. if str_eq s (codes "B") then codes "buy" else codes "sell");
  price = read_text (as_text (member "px" f));
  quantity = read_text (as_text (member "sz" f));
  fee = read_text (as_text (member "fee" f));
  fee_currency = read_text (as_text (member "feeToken" f));
  liquidity = elim (as_bool (member "crossed" f)) [
    | none ↦ []
    | some b ↦ if b then codes "taker" else codes "maker"
  ];
  timestamp_ms = elim (as_uint64 (member "time" f)) [ none ↦ 0 | some n ↦ normalize_epoch_ms n ];
  extra_data = [];
}

-- The comparison of the two sizes: as numbers, or as texts where one of them is none.
unfoldable pub same_size : Env → Bytes → Bytes → Bool
unfolding str_eq
same_size env q q' = elim (env.stod q) [
  | none ↦ str_eq q q'
  | some x ↦ elim (env.stod q') [ none ↦ str_eq q q' | some y ↦ env.near x y ]
]

-- The entry of the recent orders that the fill is taken for.
unfoldable pub entry_matches : Env → Channel → Bytes → FillData → RecentEntry → Bool
unfolding same_size str_eq
entry_matches env user_events coin fill r =
    let side = if r.is_buy then codes "buy" else codes "sell" in
    str_eq r.coin coin && str_eq fill.side side && same_size env r.qty fill.quantity
entry_matches env user_fills coin fill r = str_eq r.coin coin && str_eq r.qty fill.quantity

-- The search from the newest entry, which ends at one of more than ten seconds ago.
unfoldable pub recent_entry : ℕ → (RecentEntry → Bool) → List RecentEntry → Option RecentEntry
recent_entry now matches [] = none
recent_entry now matches (r ∷ rs) =
    let rest = recent_entry now matches rs in
    if ltb r.ts_ms now && ltb 10000 (now - r.ts_ms)
    then none
    else if matches r
    then some r
    else rest

-- The condition under which the recent orders are searched.
unfoldable pub unattributed : Channel → Bytes → Ids → Bool
unfolding lookup
unattributed user_events oid ids =
    not (is_some (lookup oid ids.oid_to_clientid)) || not (is_some (lookup oid ids.oid_to_role))
unattributed user_fills oid ids = not (is_some (lookup oid ids.oid_to_clientid))

-- The client id and the role of the order id.
unfoldable pub with_ids : Ids → FillData → FillData
unfolding lookup set_extra
with_ids ids fill =
    let named : FillData = elim (lookup fill.exchange_order_id ids.oid_to_clientid) [
      | none ↦ fill
      | some id ↦ record fill { client_order_id = id }
    ] in
    elim (lookup fill.exchange_order_id ids.oid_to_role) [
      | none ↦ named
      | some role ↦ record named { extra_data = set_extra (codes "role") role named.extra_data }
    ]

-- A call of the handler returns, or it waits for a mutex that its own thread holds.
pub data Run (A : Type 0) : Type 0 where
  returns : A → Run A
  deadlock : Run A

-- The attribution, under the lock of cloid_map_mutex_. A recent order that matches is remembered
-- by remember_oid_clientid, which takes that lock again unless one of its arguments is empty.
unfoldable pub attribute : Env → Channel → ℕ → Bytes → FillData → Adapter → Run FillData
unfolding unattributed with_ids entry_matches recent_entry
attribute env channel now coin fill a =
    let oid = fill.exchange_order_id in
    let known = with_ids a.ids fill in
    if is_empty oid
    then returns fill
    else if unattributed channel oid a.ids
    then elim (recent_entry now (entry_matches env channel coin known) a.recent_entries) [
      | none ↦ returns known
      | some r ↦
          if is_empty r.client_id
          then returns (record known { client_order_id = r.client_id })
          else deadlock
    ]
    else returns known

-- The child's id and its parent's intent.
unfoldable pub with_parent : Ids → FillData → FillData
unfolding parent_for_client_id set_extra
with_parent ids fill =
    let child = fill.client_order_id in
    let intent = parent_for_client_id child ids in
    let named =
      if is_empty child
      then fill.extra_data
      else set_extra (codes "child_id") child fill.extra_data in
    record fill {
      extra_data = if is_empty intent then named else set_extra (codes "intent") intent named;
    }

-- maker or taker from the role, and otherwise taker.
unfoldable pub liquidity_of : FillData → Bytes
unfolding find
liquidity_of fill =
    let role = map to_lower (or_keep (find (codes "role") fill.extra_data) []) in
    if is_empty fill.liquidity
    then if one_of role ("maker" ∷ "taker" ∷ []) then role else codes "taker"
    else fill.liquidity

unfoldable pub complete_fill : FillData → FillData
unfolding set_extra liquidity_of
complete_fill fill =
    let sided : FillData =
      if is_empty fill.side
      then fill
      else record fill { extra_data = set_extra (codes "side") fill.side fill.extra_data } in
    record sided { liquidity = liquidity_of sided }

unfoldable pub dedup_key : Env → FillData → Bytes
dedup_key env fill =
    if is_empty fill.exec_id
    then fill.exchange_order_id ++ b'|' ∷ fill.price ++ b'|' ∷ fill.quantity ++ b'|' ∷ fill.side
    else fill.exec_id ++ b'|' ∷ env.to_string fill.timestamp_ms ++ b'|' ∷ fill.symbol

-- Whether the fill was emitted, and the adapter afterwards.
unfoldable pub emit : Env → FillData → Adapter → Bool × Adapter
unfolding see dedup_key maybe_advance_exec_cursor
emit env fill a =
    let (seen, window) = see env.dedup_limit (dedup_key env fill) a.window in
    let looked : Adapter = record a { window = window } in
    if seen then (false, looked) else (
      true,
      maybe_advance_exec_cursor fill.timestamp_ms (record looked { fills = fill ∷ looked.fills }),
    )

-- The body of the loop for an item that is an object, from its attribution on.
unfoldable pub settle : Env → FillData → Adapter → Bool × Adapter
unfolding with_parent complete_fill emit find
settle env fill a =
    let owned = with_parent a.ids fill in
    if is_some (find (codes "intent") owned.extra_data)
    then emit env (complete_fill owned) a
    else (false, a)

unfoldable pub handle_fill : Env → Channel → ℕ → Fields → Adapter → Run (Bool × Adapter)
unfolding member as_text read_fill is_stale attribute settle
handle_fill env channel now f a =
    let fill = read_fill env f in
    let coin = read_text (as_text (member "coin" f)) in
    if not (fill.timestamp_ms == 0) && is_stale env 5000 fill.timestamp_ms
    then returns (false, a)
    else elim (attribute env channel now coin fill a) [
      | deadlock ↦ deadlock
      | returns known ↦ returns (settle env known a)
    ]

-- The loop: `i` items are behind it, and `any` says whether one of them was emitted.
unfoldable pub handle_fills : Env → Channel → ℕ → Items → Bool → Adapter → Run (Bool × Adapter)
unfolding handle_fill
handle_fills env channel i nil any a = returns (any, a)
handle_fills env channel i (item v items) any a =
    let step : Run (Bool × Adapter) = elim (as_object v) [
      | none ↦ returns (false, a)
      | some f ↦ handle_fill env channel (env.fill_ms i) f a
    ] in
    elim step [
      | deadlock ↦ deadlock
      | returns (emitted, a') ↦ handle_fills env channel (suc i) items (any || emitted) a'
    ]

-- The whole branch: the loop, and after a fill the latch and the reconnection.
unfoldable pub stream_fills : Env → Channel → Items → Adapter → Run Adapter
unfolding handle_fills maybe_trigger_event_driven_reconnect
stream_fills env channel items a = elim (handle_fills env channel 0 items false a) [
  | deadlock ↦ deadlock
  | returns (any, done) ↦
      if any
      then returns (
          maybe_trigger_event_driven_reconnect env
            (record done { recon_last_seen_fill_ms = env.latch_ms }))
      else returns done
]
