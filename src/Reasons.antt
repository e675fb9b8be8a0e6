-- ===== src/Reasons.antt =====
-- src/core/reasons/reason_mapper.cpp (DefaultReasonMapper) and include/reason_code_mapper.h: from
-- the codes of venues and engine to the codes of the contract. Both lower-case the code first.
pub mod Laws
mod Tests
use latentspeed.Prelude.{List, [], ◌∷◌, map, Bool, true, false, ◌||◌, if◌then◌else◌}
use latentspeed.Prelude.Bytes.{Bytes, codes, str_eq, one_of, contains, is_empty, to_lower}

abbrev pub lower_ascii : Bytes → Bytes
lower_ascii = map to_lower

abbrev pub is_ok : Bytes → Bool
is_ok lower = is_empty lower || one_of lower ("ok" ∷ "accepted" ∷ [])

abbrev pub is_invalid : Bytes → Bool
is_invalid lower = one_of lower (
    "invalid_params" ∷ "invalid_parameters" ∷ "invalid_parameter" ∷ "missing_parameters"
    ∷ "missing_parameter" ∷ "missing_price" ∷ "missing_stop_price" ∷ "missing_cancel_id"
    ∷ "missing_replace_id" ∷ "missing_action" ∷ "invalid_action" ∷ "unsupported_type"
    ∷ "invalid_size" ∷ "invalid_reduce_only" ∷ "parameter_error" ∷ [])

abbrev pub is_network : Bytes → Bool
is_network lower =
    one_of lower
      ("network_error" ∷ "exchange_error" ∷ "processing_error" ∷ "timeout" ∷ "transport_error" ∷ [])

abbrev pub is_venue : Bytes → Bool
is_venue lower = one_of lower (
    "venue_reject" ∷ "exchange_rejected" ∷ "cancel_rejected" ∷ "modify_rejected" ∷ "close_rejected"
    ∷ "unknown_venue" ∷ "close_denied" ∷ "cancel_denied" ∷ [])

-- DefaultReasonMapper::canonical_code, on the lower-cased code.
unfoldable pub canonical_of_lower : Bytes → Bytes
canonical_of_lower lower =
    if is_ok lower
    then codes "ok"
    else if is_invalid lower
    then codes "invalid_params"
    else if one_of lower ("risk_blocked" ∷ "risk_violation" ∷ "perpmaxpositionrejected" ∷ [])
    then codes "risk_blocked"
    else if one_of lower ("insufficient_balance" ∷ "balance_insufficient" ∷ [])
    then codes "insufficient_balance"
    else if one_of lower ("post_only_violation" ∷ "post_only_reject" ∷ "badalopxrejected" ∷ [])
    then codes "post_only_violation"
    else if one_of lower
        ("min_size" ∷ "size_too_small" ∷ "mintradentlrejected" ∷ "mintradespotntlrejected" ∷ [])
    then codes "min_size"
    else if one_of lower
        ("price_out_of_bounds" ∷ "price_too_far" ∷ "tickrejected" ∷ "oraclerejected" ∷ [])
    then codes "price_out_of_bounds"
    else if one_of lower ("rate_limited" ∷ "too_many_requests" ∷ [])
    then codes "rate_limited"
    else if is_network lower
    then codes "network_error"
    else if one_of lower ("expired" ∷ "ttl_expired" ∷ [])
    then codes "expired"
    else if is_venue lower
    then codes "venue_reject"
    else codes "venue_reject"

unfoldable pub canonical_code : Bytes → Bytes
unfolding canonical_of_lower
canonical_code raw_code = canonical_of_lower (lower_ascii raw_code)

-- exec::canonical_reason_code, which the engine's own rejections go through.
unfoldable pub canonical_reason_of_lower : Bytes → Bytes
canonical_reason_of_lower lower =
    if is_ok lower
    then codes "ok"
    else if is_invalid lower
    then codes "invalid_params"
    else if one_of lower ("risk_blocked" ∷ "risk_violation" ∷ [])
    then codes "risk_blocked"
    else if one_of lower ("insufficient_balance" ∷ "balance_insufficient" ∷ [])
    then codes "insufficient_balance"
    else if one_of lower ("post_only_violation" ∷ "post_only_reject" ∷ [])
    then codes "post_only_violation"
    else if one_of lower ("min_size" ∷ "size_too_small" ∷ [])
    then codes "min_size"
    else if one_of lower ("price_out_of_bounds" ∷ "price_too_far" ∷ [])
    then codes "price_out_of_bounds"
    else if one_of lower ("rate_limited" ∷ "too_many_requests" ∷ [])
    then codes "rate_limited"
    else if is_network lower
    then codes "network_error"
    else if one_of lower ("expired" ∷ "ttl_expired" ∷ [])
    then codes "expired"
    else if is_venue lower
    then codes "venue_reject"
    else codes "venue_reject"

unfoldable pub canonical_reason_code : Bytes → Bytes
unfolding canonical_reason_of_lower
canonical_reason_code raw_code = canonical_reason_of_lower (lower_ascii raw_code)

pub record ReasonMapping : Type 0 where
  pub status : Bytes
  pub reason_code : Bytes
  pub reason_text : Bytes

abbrev pub or_text : Bytes → Bytes → Bytes
or_text raw fallback = if is_empty raw then fallback else raw

-- The branch of DefaultReasonMapper::map for the status "rejected": code and text.
unfoldable pub rejected_reason : Bytes → Bytes → Bytes × Bytes
rejected_reason raw lower =
    if is_empty lower
    then (codes "venue_reject", codes "Order rejected")
    else if contains (codes "balance") lower
        || one_of lower ("insufficientspotbalancerejected" ∷ [])
    then (codes "insufficient_balance", or_text raw (codes "Insufficient balance"))
    else if one_of lower ("tickrejected" ∷ "oraclerejected" ∷ [])
    then (codes "price_out_of_bounds", codes "Rejected by tick/oracle constraint")
    else if one_of lower ("mintradentlrejected" ∷ "mintradespotntlrejected" ∷ [])
    then (codes "min_size", codes "Order notional below minimum")
    else if one_of lower ("badalopxrejected" ∷ [])
    then (codes "post_only_violation", codes "Post-only would match immediately")
    else if one_of lower ("perpmaxpositionrejected" ∷ [])
    then (codes "risk_blocked", codes "Position exceeds margin tier limit")
    else if one_of lower ("perpmarginrejected" ∷ [])
    then (codes "insufficient_balance", codes "Insufficient margin")
    else if one_of lower ("reduceonlyrejected" ∷ [])
    then (codes "invalid_params", codes "Reduce-only would increase position")
    else if one_of lower ("ioccancelrejected" ∷ "marketordernoliquidityrejected" ∷ [])
    then (codes "venue_reject", codes "No liquidity for immediate execution")
    else if contains (codes "openinterest") lower || contains (codes "to oaggressive") lower
    then (codes "venue_reject", or_text raw (codes "Open interest cap"))
    else (codes "venue_reject", or_text raw (codes "Order rejected"))

abbrev pub mapping : Bytes → Bytes × Bytes → ReasonMapping
mapping status reason = record { status = status; reason_code = reason.0; reason_text = reason.1 }

-- DefaultReasonMapper::map
unfoldable pub map_reason : Bytes → Bytes → ReasonMapping
unfolding rejected_reason
map_reason status raw =
    if str_eq status (codes "rejected")
    then mapping status (rejected_reason raw (lower_ascii raw))
    else if str_eq status (codes "canceled")
    then mapping status (codes "ok", codes "Order cancelled")
    else if str_eq status (codes "replaced")
    then mapping status (codes "ok", codes "Order replaced")
    else mapping status (codes "ok", or_text raw (codes "OK"))
