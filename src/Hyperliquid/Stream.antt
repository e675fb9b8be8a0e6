-- ===== src/Hyperliquid/Stream.antt =====
-- The private stream: the members that the handler of install_ws_subscribe_handler works with, the
-- execution cursor and the latch of maybe_trigger_event_driven_reconnect_.
pub mod Laws
use latentspeed.Prelude.{
  ℕ, suc, ◌+◌, ◌-◌, List, [], ◌∷◌, Bool, true, false, not, ◌&&◌, ◌||◌, Option, none, some,
  if◌then◌else◌, ◌==◌, ltb, leb,
}
use latentspeed.Prelude.Bytes.{Bytes}
use latentspeed.Engine.Update.{OrderUpdate}
use latentspeed.Engine.Fills.{FillData}
use latentspeed.Hyperliquid.Ids.{Ids, no_ids}
use latentspeed.Hyperliquid.Dedupe.{Window, no_fills}

pub record RecentEntry : Type 0 where
  pub coin : Bytes
  pub is_buy : Bool
  pub qty : Bytes
  pub client_id : Bytes
  pub ts_ms : ℕ

-- `recent_entries` has the newest first, `updates` and `fills` what the two callbacks were called
-- with, the last first. `closings` counts the closings of the subscription that were started.
pub record Adapter : Type 0 where
  pub ids : Ids
  pub window : Window
  pub recent_entries : List RecentEntry
  pub last_private_event_ms : ℕ
  pub last_exec_time_cursor_ms : ℕ
  pub recon_last_seen_fill_ms : ℕ
  pub recon_last_seen_update_ms : ℕ
  pub last_order_placement_ms : ℕ
  pub updates : List OrderUpdate
  pub fills : List FillData
  pub closings : ℕ

abbrev pub new_adapter : Adapter
new_adapter = record {
  ids = no_ids;
  window = no_fills;
  recent_entries = [];
  last_private_event_ms = 0;
  last_exec_time_cursor_ms = 0;
  recon_last_seen_fill_ms = 0;
  recon_last_seen_update_ms = 0;
  last_order_placement_ms = 0;
  updates = [];
  fills = [];
  closings = 0;
}

-- The standard library's std::to_string, std::stod (`none`: it throws), std::atoi and the test
-- abs(a - b) <= 1e-12; the resolver of spot pairs; the settings; and the readings of the clock:
-- on the event, for each fill by its place in the message, at the latch and at the reconnection.
pub record Env : Type 0 where
  pub to_string : ℕ → Bytes
  pub stod : Bytes → Option ℕ
  pub atoi : Bytes → ℕ
  pub near : ℕ → ℕ → Bool
  pub resolve_spot_pair_by_index : ℕ → Option (Bytes × Bytes)
  pub private_ws_connected_ms : ℕ
  pub enable_proactive_reconnect : Bool
  pub dedup_limit : ℕ
  pub event_ms : ℕ
  pub fill_ms : ℕ → ℕ
  pub latch_ms : ℕ
  pub reconnect_ms : ℕ

-- The compare-and-swap loop leaves the larger of the two, and 0 is no time.
unfoldable pub maybe_advance_exec_cursor : ℕ → Adapter → Adapter
maybe_advance_exec_cursor ts_ms a =
    if ts_ms == 0
    then a
    else if ltb a.last_exec_time_cursor_ms ts_ms
    then record a { last_exec_time_cursor_ms = ts_ms }
    else a

-- Both signals are as new as the last placement.
unfoldable pub both_seen : Adapter → Bool
both_seen a =
    leb a.last_order_placement_ms a.recon_last_seen_fill_ms
    && leb a.last_order_placement_ms a.recon_last_seen_update_ms

-- Within 30 ms of the last event.
unfoldable pub in_burst : ℕ → ℕ → Bool
in_burst now last = not (last == 0) && ltb last now && ltb (now - last) 30

unfoldable pub maybe_trigger_event_driven_reconnect : Env → Adapter → Adapter
unfolding both_seen in_burst
maybe_trigger_event_driven_reconnect env a =
    if not env.enable_proactive_reconnect || (a.last_order_placement_ms == 0)
    then a
    else if both_seen a && not (in_burst env.reconnect_ms a.last_private_event_ms)
    then record a { last_order_placement_ms = 0; closings = suc a.closings }
    else a

-- The filter on what the venue replays after a connection: older than it by more than `slack`.
unfoldable pub is_stale : Env → ℕ → ℕ → Bool
is_stale env slack ts_ms =
    not (env.private_ws_connected_ms == 0) && ltb (ts_ms + slack) env.private_ws_connected_ms
