-- ===== src/Hyperliquid/Tests/Placing.antt =====
-- Placements of the order "a", and answers to them.
use latentspeed.Prelude.{ℕ, ◌≡◌, refl, [], map, true, false, none, some, if◌then◌else◌, arith}
use latentspeed.Prelude.Bytes.{Bytes, codes, str_eq, is_empty, to_lower, c_str, starts_with}
use latentspeed.Prelude.Assoc.{lookup}
use latentspeed.Json.{
  Fields, nil, end, field, unsigned, text, object, array, item, find_field, member, as_text,
  as_object, as_uint64,
}
use latentspeed.NumString.{trim_trailing_zeros}
use latentspeed.Engine.Types.{OrderRequest}
use latentspeed.Hyperliquid.Text.{is_valid_cloid}
use latentspeed.Hyperliquid.Ids.{no_ids, ensure_hl_cloid, map_back_client_id, parent_for_client_id}
use latentspeed.Hyperliquid.Stream.{new_adapter}
use latentspeed.Hyperliquid.Updates.{read_text}
use latentspeed.Hyperliquid.UserFills.{
  user_fills, user_events, deadlock, read_fill, stream_fills, unattributed,
}
use latentspeed.Hyperliquid.Reply.{accepted_as, statuses_of, response_statuses, place_reply}
use latentspeed.Hyperliquid.Reply.Laws.{AllMute, root_of, place_reply_mute, place_reply_resting}
use latentspeed.Hyperliquid.Placement.{Market, limit, is_spot_request}
use latentspeed.Hyperliquid.Place.{Link, child_id, leg_ids, place_action}
use latentspeed.Hyperliquid.Place.Laws.{leg_ids_lem}
use latentspeed.Hyperliquid.Place.Early.{early_fill-deadlock}
use latentspeed.Hyperliquid.Cancel.{CancelLink}
use latentspeed.Hyperliquid.Tests.{env_at, early_fill, not_stale, has_oid}

abbrev market_at : ℕ → Market
market_at now = record {
  doubles = record {
    stod = λ s. none;
    snap = λ d up x. x;
    slip = λ up x. x;
    print_fixed = λ d x. codes "3";
  };
  resolve_spot = λ base quote. none;
  resolve_perp = λ base. some (record { asset = 1; sz_decimals = some 4 });
  refreshed_spot = λ base quote. none;
  refreshed_perp = λ base. none;
  fetch_top_of_book = λ base. none;
  last_fill_px = [];
  enable_batching = true;
  private_stale_reject_ms = 0;
  now_ms = now;
}

abbrev link : Link
link = record {
  has_signer = true;
  sign_l1_action = λ action. true;
  build_action_payload = λ action. true;
  send_signed_action_json = λ action. some none;
  random_id = λ id. codes "0x0123456789abcdef0123456789abcdef";
  batched = λ queued. some (accepted_as queued.client_order_id none none);
}

abbrev request : OrderRequest
request = record {
  client_order_id = codes "a";
  symbol = codes "ETHUSDT";
  side = codes "buy";
  order_type = codes "market";
  quantity = codes "2";
  price = some (codes "3");
  time_in_force = none;
  category = some (codes "linear");
  reduce_only = false;
  extra_params = [];
}

is_perp : is_spot_request request ≡ false
unfolding is_spot_request str_eq to_lower
is_perp = refl

same_coin : read_text (as_text (member "coin" early_fill)) ≡ codes "ETH"
unfolding member find_field str_eq as_text c_str
same_coin = refl

same_quantity : (read_fill (env_at 2000) early_fill).quantity ≡ trim_trailing_zeros (codes "2")
unfolding read_fill member find_field str_eq as_text c_str trim_trailing_zeros
same_quantity = refl

not_known :
    lookup (read_fill (env_at 2000) early_fill).exchange_order_id new_adapter.ids.oid_to_clientid
    ≡ none
unfolding lookup
not_known = refl

early_fill-deadlock_example :
    stream_fills
      (env_at 2000)
      user_fills
      (item (object early_fill) nil)
      (place_action
        (env_at 2000)
        (market_at 1000)
        link
        request
        (codes "ETH")
        (record { asset = 1; sz_decimals = some 4 })
        (codes "3", limit (codes "Ioc"))
        new_adapter).1
    ≡ deadlock
early_fill-deadlock_example =
    early_fill-deadlock (env_at 2000) (market_at 1000) link request (codes "ETH")
      (record { asset = 1; sz_decimals = some 4 }) (codes "3", limit (codes "Ioc")) new_adapter
      early_fill nil is_perp refl not_stale has_oid not_known same_coin same_quantity (omega arith)

-- An answer that is ok, with one status.
abbrev answer : Fields → Fields
answer st = field (codes "status") (text (codes "ok")) (
    field (codes "response")
      (object (
        field (codes "data") (object (field (codes "statuses") (array (item (object st) nil)) end))
          end))
      end)

abbrev error_status : Fields
error_status = field (codes "error") (text (codes "Order must have minimum value of $10.")) end

error_ok : as_text (member "status" (root_of (answer error_status))) ≡ some (codes "ok")
unfolding member find_field str_eq as_text c_str
error_ok = refl

error-AllMute : AllMute (response_statuses (root_of (answer error_status)))
unfolding member find_field str_eq as_text statuses_of
error-AllMute = ((refl, refl, refl), tt)

place_reply_mute_example :
    place_reply (env_at 2000) (codes "a") (some (answer error_status)) no_ids
    ≡ (accepted_as (codes "a") none (some (codes "accepted")), no_ids)
place_reply_mute_example =
    place_reply_mute (env_at 2000) (codes "a") (answer error_status) no_ids error_ok error-AllMute

abbrev resting : Fields
resting = field (codes "oid") (unsigned 7) end

abbrev resting_status : Fields
resting_status = field (codes "resting") (object resting) end

resting_ok : as_text (member "status" (root_of (answer resting_status))) ≡ some (codes "ok")
unfolding member find_field str_eq as_text c_str
resting_ok = refl

resting_first :
    response_statuses (root_of (answer resting_status)) ≡ item (object resting_status) nil
unfolding member find_field str_eq statuses_of
resting_first = refl

is_resting : as_object (member "resting" resting_status) ≡ some resting
unfolding member find_field str_eq
is_resting = refl

resting_oid : as_uint64 (member "oid" resting) ≡ some 7
unfolding member find_field str_eq
resting_oid = refl

place_reply_resting_example :
    ((place_reply (env_at 2000) (codes "a") (some (answer resting_status)) no_ids).0
      ≡ accepted_as (codes "a") (some (codes "7")) (some (codes "accepted")))
    × (lookup
          (codes "7")
          (place_reply
            (env_at 2000)
            (codes "a")
            (some (answer resting_status))
            no_ids).1.oid_to_clientid
        ≡ some (codes "a"))
    × (unattributed user_fills
          (codes "7")
          (place_reply (env_at 2000) (codes "a") (some (answer resting_status)) no_ids).1
        ≡ false)
    × (unattributed user_events
          (codes "7")
          (place_reply (env_at 2000) (codes "a") (some (answer resting_status)) no_ids).1
        ≡ true)
unfolding lookup
place_reply_resting_example =
    place_reply_resting (env_at 2000) (codes "a") (answer resting_status) resting_status resting nil
      7 no_ids resting_ok resting_first is_resting resting_oid refl refl

abbrev leg : Bytes
leg = child_id (codes "a") (codes "tp")

leg_named : is_empty leg ≡ false
unfolding child_id
leg_named = refl

cloid_named : is_empty (ensure_hl_cloid (link.random_id leg) leg) ≡ false
unfolding ensure_hl_cloid child_id is_valid_cloid starts_with
cloid_named = refl

leg_ids_lem_example :
    (map_back_client_id
        (ensure_hl_cloid (link.random_id leg) leg)
        (leg_ids link (codes "a") (codes "tp") no_ids)
      ≡ leg)
    × (parent_for_client_id leg (leg_ids link (codes "a") (codes "tp") no_ids) ≡ (
        if is_empty (parent_for_client_id (codes "a") no_ids)
        then codes "a"
        else parent_for_client_id (codes "a") no_ids))
    × (lookup
          (map to_lower (ensure_hl_cloid (link.random_id leg) leg))
          (leg_ids link (codes "a") (codes "tp") no_ids).cloid_to_role
        ≡ some (map to_lower (codes "tp")))
leg_ids_lem_example =
    leg_ids_lem link (codes "a") (codes "tp") no_ids refl refl leg_named cloid_named

abbrev cancel_link : CancelLink
cancel_link = record {
  resolve_perp = λ base. some (record { asset = 1; sz_decimals = some 4 });
  stoull = λ text. none;
  has_signer = true;
  sign_l1_action = λ action. true;
  exchange_answer = λ action. some (codes "{\"status\":\"err\"}");
}

abbrev cancel_cloid_text : Bytes
cancel_cloid_text = codes "0x0123456789abcdef0123456789abcdef"
