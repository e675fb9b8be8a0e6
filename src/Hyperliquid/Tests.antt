-- ===== src/Hyperliquid/Tests.antt =====
-- A private stream with one order that was just placed, and messages on it.
mod Placing
use latentspeed.Prelude.{
  ◌++◌, ℕ, ◌+◌, ◌<◌, ◌≡◌, ◌⊎◌, refl, suc, ◌≤◌, [], ◌∷◌, map, true, false, none, some, if◌then◌else◌,
  arith, ◌==◌, length, All, drop,
}
use latentspeed.Prelude.Bytes.{codes, str_eq, is_empty, to_lower, starts_with, c_str}
use latentspeed.Prelude.Assoc.{lookup}
use latentspeed.Json.{
  Fields, end, field, unsigned, text, object, array, nil, item, member, find_field, as_text,
}
use latentspeed.Hyperliquid.Text.{zeros, hex_digits, strip_0x, normalize_hex32, normalize_epoch_ms}
use latentspeed.Hyperliquid.Text.Laws.{
  LowerHex, last_of, length-zeros, zeros-LowerHex, normalize_hex32_lem,
}
use latentspeed.Hyperliquid.Ids.{no_ids, remember_cloid_mapping, map_back_client_id}
use latentspeed.Hyperliquid.Ids.Laws.{map_back-remember}
use latentspeed.Hyperliquid.Dedupe.{
  no_fills, see, see_all, member as holds, evict, drop_front, erase_key,
}
use latentspeed.Hyperliquid.Dedupe.Laws.{IsWindow, NoDup, see_once}
use latentspeed.Hyperliquid.Stream.{
  Env, Adapter, RecentEntry, new_adapter, is_stale, maybe_trigger_event_driven_reconnect,
}
use latentspeed.Hyperliquid.Stream.Laws.{heard, reconnect_lem}
use latentspeed.Hyperliquid.Updates.{order_oid, read_text}
use latentspeed.Hyperliquid.UserFills.{
  user_events, deadlock, returns, read_fill, fill_symbol, recent_entry, entry_matches, same_size,
  unattributed, with_ids, stream_fills,
}
use latentspeed.Hyperliquid.UserFills.Laws.{IsSound}
use latentspeed.Hyperliquid.UserFills.Sound.{AllRun}
use latentspeed.Hyperliquid.UserFills.Blocking.{Quiet, stream_fills-deadlock, stream_fills-returns}
use latentspeed.Hyperliquid.Handler.{handle_message}
use latentspeed.Hyperliquid.Handler.Laws.{handle_message-IsSound}

abbrev env_at : ℕ → Env
env_at now = record {
  to_string = λ n. (b'0' + n) ∷ [];
  stod = λ s. none;
  atoi = λ s. 0;
  near = λ x y. x == y;
  resolve_spot_pair_by_index = λ i. none;
  private_ws_connected_ms = 1000;
  enable_proactive_reconnect = true;
  dedup_limit = 2;
  event_ms = now;
  fill_ms = λ i. now;
  latch_ms = now;
  reconnect_ms = now;
}

abbrev entry : RecentEntry
entry = record {
  coin = codes "ETH";
  is_buy = true;
  qty = codes "2";
  client_id = codes "a";
  ts_ms = 1000;
}

abbrev placed : Adapter
placed = record new_adapter { recent_entries = entry ∷ []; last_order_placement_ms = 1000 }

-- A fill of order 7 that came before the answer to its placement.
abbrev early_fill : Fields
early_fill = field (codes "oid") (unsigned 7) (
    field (codes "side") (text (codes "B"))
      (field (codes "sz") (text (codes "2")) (field (codes "coin") (text (codes "ETH")) end)))

not_stale : is_stale (env_at 2000) 5000 (read_fill (env_at 2000) early_fill).timestamp_ms ≡ false
unfolding is_stale read_fill member find_field str_eq as_text order_oid fill_symbol
    normalize_epoch_ms c_str
not_stale = refl

has_oid : is_empty (read_fill (env_at 2000) early_fill).exchange_order_id ≡ false
unfolding read_fill member find_field str_eq as_text order_oid fill_symbol normalize_epoch_ms c_str
has_oid = refl

-- Ten seconds later the recent order is out of reach.
quiet : Quiet (env_at 20000) placed
quiet i = (omega arith, tt)

stream_fills-returns_example :
    (last : Adapter) × (stream_fills
        (env_at 20000)
        user_events
        (item (object early_fill) nil)
        placed
      ≡ returns last)
    × Quiet (env_at 20000) last
stream_fills-returns_example =
    stream_fills-returns (env_at 20000) user_events (item (object early_fill) nil) placed quiet

no_fills-IsWindow : IsWindow 2 no_fills
unfolding IsWindow NoDup
no_fills-IsWindow = (λ k. refl, tt, omega arith)

first_new : (see 2 (codes "5") no_fills).0 ≡ false
unfolding see holds
first_new = refl

one_between : length (see_all 2 (codes "6" ∷ codes "5" ∷ []) (see 2 (codes "5") no_fills).1).0 < 2
unfolding see_all see evict drop_front erase_key holds str_eq
one_between = omega arith

see_once_example :
    (see 2 (codes "5") (see_all 2 (codes "6" ∷ codes "5" ∷ []) (see 2 (codes "5") no_fills).1).1).0
    ≡ true
see_once_example =
    see_once 2 (codes "5") (codes "6" ∷ codes "5" ∷ []) no_fills no_fills-IsWindow first_new
      one_between

placed-IsSound : IsSound (env_at 20000) placed
placed-IsSound = record { windowed = no_fills-IsWindow; intended = tt; covered = tt }

abbrev fills_message : Fields
fills_message =
    field (codes "data") (object (field (codes "fills") (array (item (object early_fill) nil)) end))
      end

handle_message-IsSound_example :
    AllRun
      (IsSound (env_at 20000))
      (handle_message (env_at 20000) (codes "userEvents") fills_message placed)
handle_message-IsSound_example =
    handle_message-IsSound (env_at 20000) (codes "userEvents") fills_message placed placed-IsSound

map_back-remember_example :
    map_back_client_id (codes "0xab") (remember_cloid_mapping (codes "0xAB") (codes "a") no_ids) ≡ (
      if str_eq (map to_lower (codes "0xAB")) (map to_lower (codes "0xab"))
      then codes "a"
      else map_back_client_id (codes "0xab") no_ids)
map_back-remember_example =
    map_back-remember (codes "0xAB") (codes "a") (codes "0xab") no_ids refl refl refl

normalize_hex32_lem_example :
    (length (normalize_hex32 (codes "0xAB")) ≡ 66)
    × (starts_with (codes "0x") (normalize_hex32 (codes "0xAB")) ≡ true)
    × All LowerHex (drop 2 (normalize_hex32 (codes "0xAB")))
    × (normalize_hex32 (codes "0xAB")
        ≡ codes "0x" ++ last_of 64 (zeros 64 ++ hex_digits (strip_0x (codes "0xAB"))))
    × (normalize_hex32 (codes "0x" ++ zeros 64) ≡ codes "0x" ++ zeros 64)
normalize_hex32_lem_example =
    normalize_hex32_lem (codes "0xAB") (zeros 64) (length-zeros 64) (zeros-LowerHex 64)

reconnect_lem_example :
    (maybe_trigger_event_driven_reconnect (env_at 2000) placed ≡ placed)
    ⊎ (((maybe_trigger_event_driven_reconnect (env_at 2000) placed).closings ≡ suc placed.closings)
        × (0 < placed.last_order_placement_ms)
        × (placed.last_order_placement_ms ≤ placed.recon_last_seen_fill_ms)
        × (placed.last_order_placement_ms ≤ placed.recon_last_seen_update_ms)
        × (maybe_trigger_event_driven_reconnect (env_at 3000) (
              heard 2500 2500 2500 2500 (maybe_trigger_event_driven_reconnect (env_at 2000) placed))
            ≡ heard 2500 2500 2500 2500
                (maybe_trigger_event_driven_reconnect (env_at 2000) placed)))
reconnect_lem_example = reconnect_lem (env_at 2000) (env_at 3000) placed 2500 2500 2500 2500
