-- ===== src/Hyperliquid/Cancel.antt =====
-- cancel_order and modify_order of the Hyperliquid adapter.
pub mod Laws
use latentspeed.Prelude.{
  ℕ, List, [], ◌∷◌, map, Bool, true, false, not, Option, none, some, if◌then◌else◌, ◌&&◌,
}
use latentspeed.Prelude.Bytes.{Bytes, codes, is_empty, is_some, to_lower}
use latentspeed.Prelude.Assoc.{lookup}
use latentspeed.Json.{Fields, nil, item, end, unsigned, text, object, array, or_keep}
use latentspeed.Symbol.{to_hyphen}
use latentspeed.Engine.Types.{OrderResponse, Outcome, returned, thrown}
use latentspeed.Engine.Serialize.{named}
use latentspeed.Hyperliquid.Text.{is_valid_cloid, parse_base_quote_from_hyphen}
use latentspeed.Hyperliquid.Ids.{Ids}
use latentspeed.Hyperliquid.Reply.{accepted_as, refused_as}
use latentspeed.Hyperliquid.Placement.{HlResolution, Built, built, refused}

-- The resolver of perpetuals, std::stoull (`none`: it throws), the signer, and what the venue
-- answers to an action over HTTP or else the socket (`none`: neither was reached).
pub record CancelLink : Type 0 where
  pub resolve_perp : Bytes → Option HlResolution
  pub stoull : Bytes → Option ℕ
  pub has_signer : Bool
  pub sign_l1_action : Fields → Bool
  pub exchange_answer : Fields → Option Bytes

abbrev pub given : Option Bytes → Bytes
given o = or_keep o []

-- The cloid to cancel by; `none` for a cancel by the order id of the venue.
unfoldable pub cancel_cloid : Bytes → Option Bytes → Ids → Built (Option Bytes)
unfolding is_valid_cloid lookup
cancel_cloid id exchange_order_id ids =
    let missing : Built (Option Bytes) =
      refused (codes "hyperliquid: cancel requires cloid (0x+32hex) or numeric oid") in
    if is_valid_cloid id
    then built (some id)
    else if not (is_empty (given exchange_order_id))
    then built none
    else elim (lookup (map to_lower id) ids.clientid_to_cloid) [
      | none ↦ missing
      | some cloid ↦ if is_valid_cloid cloid then built (some cloid) else missing
    ]

-- Every symbol is taken for a perpetual.
unfoldable pub cancel_asset : CancelLink → Option Bytes → Option HlResolution
unfolding to_hyphen parse_base_quote_from_hyphen
cancel_asset link symbol =
    if is_empty (given symbol)
    then none
    else link.resolve_perp (parse_base_quote_from_hyphen (to_hyphen (given symbol) true)).0

abbrev pub cancel_fields : Bytes → Fields → Fields
cancel_fields type cancel =
    named "type" (text type) (named "cancels" (array (item (object cancel) nil)) end)

-- The action, the message of a refusal, or `none` where std::stoull throws.
unfoldable pub cancel_action :
    CancelLink → Option Bytes → Option Bytes → Option HlResolution → Option (Built Fields)
cancel_action link exchange_order_id none none =
    some (refused (codes "hyperliquid: cancel by oid requires asset id (provide symbol)"))
cancel_action link exchange_order_id (some cloid) none =
    some (refused (codes "hyperliquid: cancelByCloid requires asset id"))
cancel_action link exchange_order_id (some cloid) (some res) = some (
    built (
      cancel_fields (codes "cancelByCloid")
        (named "asset" (unsigned res.asset) (named "cloid" (text cloid) end))))
cancel_action link exchange_order_id none (some res) =
    elim (link.stoull (given exchange_order_id)) [
      | none ↦ none
      | some oid ↦ some (
          built (
            cancel_fields (codes "cancel")
              (named "a" (unsigned res.asset) (named "o" (unsigned oid) end))))
    ]

-- The answer of the venue is not read.
unfoldable pub post_cancel : CancelLink → Bytes → Fields → OrderResponse
post_cancel link id action =
    if not link.has_signer
    then refused_as id (codes "hyperliquid: signer not configured")
    else if not (link.sign_l1_action action)
    then refused_as id (codes "hyperliquid: signature unavailable (signer error)")
    else elim (link.exchange_answer action) [
      | none ↦ refused_as id (codes "hyperliquid: cancel send failed")
      | some answer ↦ accepted_as id none (some (codes "canceled"))
    ]

unfoldable pub cancel_order :
    CancelLink → Ids → Bytes → Option Bytes → Option Bytes → Outcome OrderResponse
unfolding cancel_cloid cancel_asset cancel_action post_cancel
cancel_order link ids id symbol exchange_order_id = elim (cancel_cloid id exchange_order_id ids) [
  | refused message ↦ returned (refused_as id message)
  | built cloid ↦ elim (cancel_action link exchange_order_id cloid (cancel_asset link symbol)) [
    | none ↦ thrown (codes "stoull")
    | some (refused message) ↦ returned (refused_as id message)
    | some (built action) ↦ returned (post_cancel link id action)
  ]
]

unfoldable pub modify_order : Bytes → Option Bytes → Option Bytes → OrderResponse
modify_order id new_quantity new_price =
    if not (is_some new_quantity) && not (is_some new_price)
    then refused_as id (codes "hyperliquid: modify requires new_quantity and/or new_price")
    else refused_as id
        (codes "hyperliquid: modify not yet implemented (requires original order context)")
