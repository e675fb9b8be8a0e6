-- ===== src/Engine/Parse.antt =====
-- parse_execution_order_hft, from what parse_exec_order_json makes of a message to the order. A
-- std::map is the list of its entries in the order of their keys.
pub mod Laws
use latentspeed.Prelude.{ℕ, [], ◌∷◌, ◌++◌, Bool, false, Option, none, some, if◌then◌else◌}
use latentspeed.Prelude.Bytes.{Bytes, codes, c_str}
use latentspeed.Hft.FlatMap.{insert, full}
use latentspeed.Hft.FlatMap.Keys.{bytes_ord}
use latentspeed.Engine.Types.{fixed, Tags, Order, Env}

-- ExecParsedDetails, with `cancel_fields` and `replace_fields` for its maps cancel and replace
pub record ExecParsedDetails : Type 0 where
  pub symbol : Bytes
  pub side : Bytes
  pub order_type : Bytes
  pub time_in_force : Bytes
  pub price : Option ℕ
  pub size : Option ℕ
  pub stop_price : Option ℕ
  pub reduce_only : Option Bool
  pub params : Tags
  pub cancel_fields : Tags
  pub replace_fields : Tags

pub record ExecParsed : Type 0 where
  pub version : ℕ
  pub cl_id : Bytes
  pub action : Bytes
  pub venue_type : Bytes
  pub venue : Bytes
  pub product_type : Bytes
  pub ts_ns : ℕ
  pub details : ExecParsedDetails
  pub tags : Tags

-- assign(s.c_str()): the text up to its first NUL, cut to the buffer.
abbrev pub from_c_str : ℕ → Bytes → Bytes
from_c_str n s = fixed n (c_str s)

-- The loops over params, cancel, replace and tags: they end when the map is full.
unfoldable pub insert_all : ℕ → Bytes → Tags → Tags → Tags
insert_all max prefix [] m = m
insert_all max prefix ((k, v) ∷ entries) m =
    let rest =
      insert_all max prefix entries
        (insert max (from_c_str 32 (prefix ++ k)) (from_c_str 64 v) m).0 in
    if full max m then m else rest

abbrev or_default {ℓ} : {A : Type ℓ} → Option A → A → A
or_default none d = d
or_default (some a) d = a

-- The order that fills the fresh cell.
unfoldable pub fill_order : Env → ExecParsed → Order
fill_order env p =
    let d = p.details in
    let params = insert_all env.bounds.params_max [] d.params [] in
    let params = insert_all env.bounds.params_max (codes "cancel_") d.cancel_fields params in
    record {
      version = p.version;
      cl_id = from_c_str 64 p.cl_id;
      action = from_c_str 16 p.action;
      venue_type = from_c_str 16 p.venue_type;
      venue = from_c_str 16 p.venue;
      product_type = from_c_str 16 p.product_type;
      ts_ns = p.ts_ns;
      symbol = from_c_str 32 d.symbol;
      side = from_c_str 8 d.side;
      order_type = from_c_str 16 d.order_type;
      time_in_force = from_c_str 8 d.time_in_force;
      price = or_default d.price 0;
      size = or_default d.size 0;
      stop_price = or_default d.stop_price 0;
      reduce_only = or_default d.reduce_only false;
      tags = insert_all env.bounds.tags_max [] p.tags [];
      params = insert_all env.bounds.params_max (codes "replace_") d.replace_fields params;
    }
