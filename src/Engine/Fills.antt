-- ===== src/Engine/Fills.antt =====
-- on_fill_hft: a fill that the venue reports.
pub mod Laws
use latentspeed.Prelude.{
  ℕ, ◌+◌, List, [], ◌∷◌, map, Bool, true, false, not, ◌&&◌, Option, none, some, if◌then◌else◌, take,
  drop,
}
use latentspeed.Prelude.Bytes.{
  Bytes, codes, str_eq, one_of, is_empty, is_some, to_lower, find_char, find as find_text,
}
use latentspeed.Symbol.{to_hyphen}
use latentspeed.Hft.FlatMap.{find, insert}
use latentspeed.Hft.FlatMap.Keys.{bytes_ord}
use latentspeed.Hft.MemoryPool.{allocate, deallocate}
use latentspeed.Hft.Stats.{inc}
use latentspeed.Engine.Types.{fixed, Tags, Order, Fill, Library, Env, Engine}
use latentspeed.Engine.Publish.{publish_fill}

-- FillData
pub record FillData : Type 0 where
  pub client_order_id : Bytes
  pub exchange_order_id : Bytes
  pub exec_id : Bytes
  pub symbol : Bytes
  pub side : Bytes
  pub price : Bytes
  pub quantity : Bytes
  pub fee : Bytes
  pub fee_currency : Bytes
  pub liquidity : Bytes
  pub timestamp_ms : ℕ
  pub extra_data : Tags

abbrev pub primary_id : FillData → Bytes
primary_id f = if is_empty f.client_order_id then f.exchange_order_id else f.client_order_id

-- "base::sl" and "base::tp" are the base and the role; all else is an entry under its whole id.
unfoldable pub parse_cl_id : Bytes → Bytes × Bytes
parse_cl_id cl_id = elim (find_text (codes "::") cl_id) [
  | none ↦ (cl_id, codes "entry")
  | some pos ↦
      let suffix = drop (pos + 2) cl_id in
      if one_of suffix ("sl" ∷ "tp" ∷ []) then (take pos cl_id, suffix) else (cl_id, codes "entry")
]

-- tags.insert of texts that are cut to the map's key and value types
unfoldable pub tag : Env → Bytes → Bytes → Tags → Tags
tag env k v tags = (insert env.bounds.tags_max (fixed 32 k) (fixed 64 v) tags).0

-- Inserted only for a value that is not empty and a key that is not there.
unfoldable pub tag_absent : Env → Bytes → Bytes → Tags → Tags
tag_absent env k v tags =
    if not (is_empty v) && not (is_some (find k tags)) then tag env k v tags else tags

-- The venue of the order, or else the configured one.
abbrev pub venue_of : Env → Order → Bytes
venue_of env order = if is_empty order.venue then env.exchange else order.venue

-- The tags of a fill: those of the order it belongs to, or of an external action.
unfoldable pub origin_tags : Env → Option Order → Tags
origin_tags env none =
    let external = tag env (codes "execution_type") (codes "external") [] in
    if is_empty env.exchange then external else tag env (codes "venue") env.exchange external
origin_tags env (some order) =
    tag_absent env (codes "venue") (venue_of env order)
      (tag env (codes "execution_type") (codes "live") order.tags)

-- What the adapter says of an intent or a role, kept beside a different own value.
unfoldable pub tag_adapter : Env → Bytes → Bytes → Bytes → FillData → Tags → Tags
tag_adapter env name key own f tags = elim (find name f.extra_data) [
  | none ↦ tags
  | some v ↦ if not (is_empty v) && not (str_eq v own) then tag env key v tags else tags
]

unfoldable pub fill_tags : Env → FillData → Option Order → Tags
fill_tags env f order =
    let (intent, role) = parse_cl_id (primary_id f) in
    tag_adapter env (codes "role") (codes "adapter_role") role f (
      tag_adapter env (codes "intent") (codes "adapter_intent_id") intent f (
        tag_absent env (codes "role") role
          (tag_absent env (codes "intent_id") intent (origin_tags env order))))

-- Symbol of the order, or else of the fill; hyphenated.
unfoldable pub fill_symbol : FillData → Option Order → Bytes
fill_symbol f none =
    let s = fixed 32 f.symbol in fixed 32 (to_hyphen s (is_some (find_char b':' s)))
fill_symbol f (some order) =
    let s = if is_empty order.symbol then fixed 32 f.symbol else order.symbol in
    fixed 32 (to_hyphen s (one_of (map to_lower order.product_type) ("perpetual" ∷ [])))

-- price, quantity and fee; `none` if one of the three calls of std::stod throws.
unfoldable pub amounts : Library → FillData → Option (ℕ × ℕ × ℕ)
amounts lib f = elim (lib.stod f.price) [
  | none ↦ none
  | some price ↦ elim (lib.stod f.quantity) [
    | none ↦ none
    | some size ↦ elim (lib.stod f.fee) [ none ↦ none | some fee ↦ some (price, size, fee) ]
  ]
]

unfoldable pub make_fill : Env → FillData → Option Order → ℕ × ℕ × ℕ → Fill
make_fill env f order (price, size, fee) = record {
  version = 1;
  cl_id = fixed 64 (primary_id f);
  exchange_order_id = fixed 64 f.exchange_order_id;
  exec_id = fixed 64 f.exec_id;
  symbol_or_pair = fill_symbol f order;
  side = fixed 8 f.side;
  price = price;
  size = size;
  fee_amount = fee;
  fee_currency = fixed 8 f.fee_currency;
  liquidity = fixed 8 f.liquidity;
  ts_ns = env.clock.current;
  tags = fill_tags env f order;
}

abbrev pub has_intent : FillData → Bool
has_intent f = elim (find (codes "intent") f.extra_data) [
  | none ↦ false
  | some v ↦ not (is_empty v)
]

-- The pending order that the fill belongs to.
abbrev pub filled_order : FillData → Engine → Option Order
filled_order f e = elim (find (fixed 64 (primary_id f)) e.pending) [
  | none ↦ none
  | some idx ↦ some (e.orders idx)
]

-- A fill without an intent is dropped. Where a number cannot be read, the handler of the exception
-- ends the call and the cell stays taken.
unfoldable pub on_fill : Env → FillData → Engine → Engine
on_fill env f e =
    if not (has_intent f)
    then e
    else let (p, cell) = allocate e.fill_pool in
      elim cell [
        | none ↦ e
        | some slot ↦
            let taken = record e { fill_pool = p } in
            elim (amounts env.library f) [
              | none ↦ taken
              | some ns ↦
                  let sent = publish_fill env (make_fill env f (filled_order f e) ns) taken in
                  record sent {
                    stats = record sent.stats { fills_received = inc sent.stats.fills_received };
                    fill_pool = deallocate sent.fill_pool (some slot);
                  }
            ]
      ]
