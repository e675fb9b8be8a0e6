-- ===== src/Engine/Types.antt =====
-- The data of include/hft_data_structures.h and include/exchange/exchange_client.h that the engine
-- works with, and the engine's state. A FixedString<N> is its view, cut to N - 1 bytes by `fixed`.
-- A double is its bit pattern.
use latentspeed.Prelude.{ℕ, ◌-◌, ◌%◌, List, [], Bool, Option, ◌==◌, ltb, leb, ◌&&◌, ◌||◌, take}
use latentspeed.Prelude.Bytes.{Bytes}
use latentspeed.Json.{Fields}
use latentspeed.Hft.SpscQueue.{Queue}
use latentspeed.Hft.MemoryPool.{Pool}
use latentspeed.Hft.Stats.{Stats}

-- FixedString<n>::assign
abbrev pub fixed : ℕ → Bytes → Bytes
fixed n s = take (n - 1) s

-- `== 0.0`, `> 0.0`, `<= 0.0` and isfinite on the bits of a double; a NaN fails each of them.
abbrev pub is_zero : ℕ → Bool
is_zero d = d % 0x8000000000000000 == 0

abbrev pub is_positive : ℕ → Bool
is_positive d = ltb 0 d && leb d 0x7ff0000000000000

abbrev pub is_nonpositive : ℕ → Bool
is_nonpositive d = is_zero d || (ltb 0x8000000000000000 d && leb d 0xfff0000000000000)

abbrev pub is_finite : ℕ → Bool
is_finite d = ltb (d % 0x8000000000000000) 0x7ff0000000000000

-- FlatMap<FixedString<32>, FixedString<64>, …>
abbrev pub Tags : Type 0
Tags = List (Bytes × Bytes)

-- HFTExecutionOrder
pub record Order : Type 0 where
  pub version : ℕ
  pub cl_id : Bytes
  pub action : Bytes
  pub venue_type : Bytes
  pub venue : Bytes
  pub product_type : Bytes
  pub ts_ns : ℕ
  pub symbol : Bytes
  pub side : Bytes
  pub order_type : Bytes
  pub time_in_force : Bytes
  pub price : ℕ
  pub size : ℕ
  pub stop_price : ℕ
  pub reduce_only : Bool
  pub tags : Tags
  pub params : Tags

abbrev pub new_order : Order
new_order = record {
  version = 1;
  cl_id = [];
  action = [];
  venue_type = [];
  venue = [];
  product_type = [];
  ts_ns = 0;
  symbol = [];
  side = [];
  order_type = [];
  time_in_force = [];
  price = 0;
  size = 0;
  stop_price = 0;
  reduce_only = Bool.false;
  tags = [];
  params = [];
}

-- HFTExecutionReport
pub record Report : Type 0 where
  pub version : ℕ
  pub cl_id : Bytes
  pub exchange_order_id : Bytes
  pub status : Bytes
  pub reason_code : Bytes
  pub reason_text : Bytes
  pub ts_ns : ℕ
  pub tags : Tags

-- HFTFill
pub record Fill : Type 0 where
  pub version : ℕ
  pub cl_id : Bytes
  pub exchange_order_id : Bytes
  pub exec_id : Bytes
  pub symbol_or_pair : Bytes
  pub side : Bytes
  pub price : ℕ
  pub size : ℕ
  pub fee_amount : ℕ
  pub fee_currency : Bytes
  pub liquidity : Bytes
  pub ts_ns : ℕ
  pub tags : Tags

-- PublishMessage without its type, which nothing reads: the topic is a FixedString<16>, the payload
-- one of MAX_MESSAGE_LEN.
pub record Message : Type 0 where
  pub topic : Bytes
  pub payload : Bytes
  pub timestamp_ns : ℕ

pub record OrderRequest : Type 0 where
  pub client_order_id : Bytes
  pub symbol : Bytes
  pub side : Bytes
  pub order_type : Bytes
  pub quantity : Bytes
  pub price : Option Bytes
  pub time_in_force : Option Bytes
  pub category : Option Bytes
  pub reduce_only : Bool
  pub extra_params : Tags

pub record OrderResponse : Type 0 where
  pub success : Bool
  pub message : Bytes
  pub exchange_order_id : Option Bytes
  pub client_order_id : Option Bytes
  pub status : Option Bytes
  pub extra_data : Tags

-- A call of an adapter returns or throws; the text is that of the exception.
pub data Outcome (A : Type 0) : Type 0 where
  returned : A → Outcome A
  thrown : Bytes → Outcome A

-- IExchangeAdapter, as far as the engine calls it: what each call answers.
pub record Adapter : Type 0 where
  pub exchange_name : Bytes
  pub is_hyperliquid : Bool
  pub place_order : OrderRequest → Outcome OrderResponse
  pub cancel_order : Bytes → Option Bytes → Option Bytes → Outcome OrderResponse
  pub modify_order : Bytes → Option Bytes → Option Bytes → Outcome OrderResponse
  pub query_order : Bytes → Outcome OrderResponse

-- VenueRouter::adapters_
abbrev pub Router : Type 0
Router = List (Bytes × Adapter)

-- Text of a double with `precision` decimals (std::ostringstream), std::stod (`none`: it throws) and
-- the text that rapidjson's writer prints of an object.
pub record Library : Type 0 where
  pub print_fixed : ℕ → ℕ → Bytes
  pub stod : Bytes → Option ℕ
  pub write_json : Fields → Bytes

-- The readings of get_current_time_ns_hft in the order in which a call makes them.
pub record Clock : Type 0 where
  pub process_start : ℕ
  pub current : ℕ
  pub report : ℕ
  pub message : ℕ
  pub process_end : ℕ

-- The template arguments of the members; `limits` has the source's.
pub record Limits : Type 0 where
  pub pending_max : ℕ
  pub processed_max : ℕ
  pub queue_slots : ℕ
  pub tags_max : ℕ
  pub params_max : ℕ

abbrev pub limits : Limits
limits = record {
  pending_max = 1024;
  processed_max = 2048;
  queue_slots = 8192;
  tags_max = 8;
  params_max = 12;
}

pub record Env : Type 0 where
  pub exchange : Bytes
  pub router : Router
  pub library : Library
  pub clock : Clock
  pub bounds : Limits

pub record Engine : Type 0 where
  -- the cells of order_pool_, of which `orders` holds the contents
  pub order_pool : Pool
  pub orders : ℕ → Order
  pub report_pool : Pool
  pub fill_pool : Pool
  -- pending_orders_: pointers into order_pool_
  pub pending : List (Bytes × ℕ)
  -- processed_orders_: the time of the first processing
  pub processed : List (Bytes × ℕ)
  pub publish_queue : Queue Message
  pub stats : Stats
  -- what register_parent_intent was told, newest first
  pub intents : List (Bytes × Bytes)

abbrev pub store : (ℕ → Order) → ℕ → Order → ℕ → Order
store f i o j = elim (i == j) [ Bool.true ↦ o | Bool.false ↦ f j ]
