-- ===== src/Engine/Tests.antt =====
-- An engine with small bounds and one venue that accepts every order.
mod Orders
pub mod Callbacks
mod Wire
use latentspeed.Prelude.{
  ℕ, ◌≡◌, ◌⊎◌, refl, [], ◌∷◌, ◌++◌, map, true, false, not, ◌||◌, none, some, if◌then◌else◌, length,
  arith,
}
use latentspeed.Prelude.Bytes.{
  Bytes, codes, str_eq, str_lt, c_str, one_of, is_empty, is_some, to_lower,
}
use latentspeed.Dispatch.{place, decode_action, fnv1a_32, fnv1a_from, fnv1a_step}
use latentspeed.Hft.FlatMap.{find, insert, put, lower_bound, hit}
use latentspeed.Hft.FlatMap.Keys.{bytes_ord}
use latentspeed.Hft.FlatMap.Spec.{IsSorted}
use latentspeed.Hft.MemoryPool.{Pool, init, links_from, allocate, deallocate}
use latentspeed.Hft.MemoryPool.Inv.{Inv, ones}
use latentspeed.Hft.MemoryPool.Laws.{init_lem}
use latentspeed.Hft.SpscQueue.{Queue, try_push}
use latentspeed.Hft.SpscQueue.Refine.{Models}
use latentspeed.Hft.SpscQueue.Spec.{fifo_push}
use latentspeed.Hft.Stats.{Stats, inc}
use latentspeed.Hft.Stats as S
use latentspeed.Engine.Types.{
  Order, new_order, Report, Message, OrderResponse, returned, Adapter, Library, Env, Engine,
}
use latentspeed.Engine.Text.{normalize_venue_key, get_adapter, is_alpha}
use latentspeed.Engine.Publish.{send_report, send_acceptance, publish_execution_report, publish}
use latentspeed.Engine.Publish.Laws.{Kept, report_message, send_report_lem}
use latentspeed.Engine.Place.{
  place_request, place_order, note_intent, place_answer, keeps_pending, keep_pending,
}
use latentspeed.Engine.Place.Checks.{Sound}
use latentspeed.Engine.Parse.{ExecParsed, fill_order}
use latentspeed.Engine.Replace.{replace_order}
use latentspeed.Engine.Answers.{Answered, answers_lem}
use latentspeed.Engine.Process.{process, receive, dispatch, is_duplicate, handle}
use latentspeed.Engine.Process.Laws.{process_twice, receive_lem}
use latentspeed.Engine.Update.{OrderUpdate, on_order_update}
use latentspeed.Engine.Text.{is_terminal_status}
use latentspeed.Engine.Update.Tracked.{update_filled, update_canceled}
use latentspeed.Engine.Fills.{FillData, has_intent, amounts, on_fill, parse_cl_id}
use latentspeed.Engine.Fills.Laws.{fill_message, on_fill_lem, parse_cl_id_lem}

abbrev accepted : OrderResponse
accepted = record {
  success = true;
  message = codes "ok";
  exchange_order_id = some (codes "77");
  client_order_id = none;
  status = none;
  extra_data = [];
}

abbrev venue : Adapter
venue = record {
  exchange_name = codes "bybit";
  is_hyperliquid = false;
  place_order = λ req. returned accepted;
  cancel_order = λ id symbol oid. returned accepted;
  modify_order = λ id qty price. returned accepted;
  query_order = λ id. returned accepted;
}

-- A number is printed as its first digit, and a text is the number of its bytes unless it is empty.
abbrev library : Library
library = record {
  print_fixed = λ precision d. codes "1.500000000000";
  stod = λ s. if is_empty s then none else some (length s);
  write_json = λ doc. codes "{}";
}

abbrev env : Env
env = record {
  exchange = codes "bybit";
  router = (codes "bybit", venue) ∷ [];
  library = library;
  clock = record { process_start = 10; current = 20; report = 30; message = 40; process_end = 50 };
  bounds = record {
    pending_max = 4;
    processed_max = 4;
    queue_slots = 4;
    tags_max = 8;
    params_max = 12;
  };
}

-- 4607182418800017408 is 1.0.
abbrev order : Order
order = record new_order {
  cl_id = codes "a";
  action = codes "place";
  venue = codes "bybit";
  product_type = codes "perpetual";
  symbol = codes "ETH-USDT-PERP";
  side = codes "buy";
  order_type = codes "limit";
  price = 4607182418800017408;
  size = 4607182418800017408;
}

abbrev odd_message : ExecParsed
odd_message = record {
  version = 1;
  cl_id = codes "a";
  action = codes "pl4ce";
  venue_type = codes "cex";
  venue = codes "bybit";
  product_type = codes "spot";
  ts_ns = 0;
  details = record {
    symbol = codes "ETH-USDT";
    side = codes "buy";
    order_type = codes "market";
    time_in_force = [];
    price = none;
    size = some 4607182418800017408;
    stop_price = none;
    reduce_only = none;
    params = [];
    cancel_fields = [];
    replace_fields = [];
  };
  tags = [];
}

abbrev report : Report
report = record {
  version = 1;
  cl_id = codes "a";
  exchange_order_id = [];
  status = codes "accepted";
  reason_code = codes "ok";
  reason_text = [];
  ts_ns = 30;
  tags = [];
}

abbrev old : Message
old = report_message env report

abbrev ring : Queue Message
ring = record { head = 0; tail = 0; buffer = old ∷ old ∷ old ∷ old ∷ [] }

ring-Models : Models 4 ring []
ring-Models = record {
  slots = refl;
  head_in = omega arith;
  tail_in = omega arith;
  free = omega arith;
  held = refl;
}

abbrev engine : Engine
engine = record {
  order_pool = init 3;
  orders = λ i. order;
  report_pool = init 3;
  fill_pool = init 3;
  pending = [];
  processed = [];
  publish_queue = ring;
  stats = S.init;
  intents = [];
}

pool-Inv : Inv 3 (init 3) (0 ∷ 1 ∷ 2 ∷ [])
pool-Inv = (init_lem 3 (omega arith) (omega arith)).0

-- Cells 0 and 1 are allocated.
abbrev one_left : Pool
one_left = record {
  links = some 1 ∷ some 2 ∷ none ∷ [];
  free_head = some 2;
  free_count = 1;
  state = 0 ∷ 0 ∷ 1 ∷ [];
}

one_left-Inv : Inv 3 one_left (2 ∷ [])
unfolding ones
one_left-Inv = record {
  small = omega arith;
  cells = refl;
  states = refl;
  chain = (refl, refl);
  distinct = (tt, tt);
  marked = ((omega arith, refl), tt);
  counted = refl;
  complete = refl;
}

abbrev two_pending : Engine
two_pending = record engine {
  order_pool = one_left;
  pending = (codes "a", 0) ∷ (codes "b", 1) ∷ [];
}

two_pending-IsSorted : IsSorted two_pending.pending
unfolding str_lt
two_pending-IsSorted = ground arith

a_pending : find (codes "a") two_pending.pending ≡ some 0
unfolding find lower_bound hit str_eq str_lt
a_pending = refl
