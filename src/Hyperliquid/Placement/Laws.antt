-- ===== src/Hyperliquid/Placement/Laws.antt =====
-- The stop orders of the engine as the adapter classifies them.
use latentspeed.Prelude.{
  ◌≡◌, refl, sym, ap, Bool, not, if◌then◌else◌, ◌∙◌, [], ◌∷◌, map, true, false, ◌||◌, none, some,
  Bool-cases, Option-cases, inl, inr, if_ind,
}
use latentspeed.Prelude.Bytes.{Bytes, codes, str_eq, one_of, is_some, to_lower}
use latentspeed.Hft.FlatMap.{find}
use latentspeed.Hft.FlatMap.Keys.{bytes_ord}
use latentspeed.Hft.FlatMap.Spec.{IsSorted}
use latentspeed.Hft.FlatMap.Laws.{put-IsSorted, find-put}
use latentspeed.Engine.Types.{Tags, Order, Env, is_positive}
use latentspeed.Engine.Text.{format_decimal}
use latentspeed.Engine.Place.{
  is_stop_order, is_stop_limit, merge_params, stop_params, order_filter, trigger_direction,
  build_request, has_stop, type_of,
}
use latentspeed.Hyperliquid.Placement.{is_trigger}

merge_params-IsSorted :
    (params extra : Tags) → IsSorted extra → IsSorted (merge_params params extra)
unfolding merge_params
merge_params-IsSorted [] extra s = s
merge_params-IsSorted ((k, v) ∷ params) extra s =
    merge_params-IsSorted params _
      (if_ind IsSorted (is_some (find k extra)) s (put-IsSorted k v extra s))

filter-stop_params :
    (env : Env) (order : Order) (side : Bytes) (extra : Tags)
    → IsSorted extra
    → find (codes "orderFilter") (stop_params env order side extra) ≡ some (order_filter order)
unfolding stop_params str_eq
filter-stop_params env order side extra s =
    find-put (codes "orderFilter") (codes "orderFilter") (order_filter order) _ (
      put-IsSorted (codes "triggerDirection") (trigger_direction order side) _
        (put-IsSorted (codes "triggerPrice") (format_decimal env.library order.stop_price) extra s))

lower-order_filter :
    (order : Order)
    → str_eq (map to_lower (order_filter order)) (codes "stoporder")
      ≡ str_eq (order_filter order) (codes "StopOrder")
unfolding order_filter str_eq to_lower
lower-order_filter order = elim (Option-cases (find (codes "role") order.tags)) [
  | inl e ↦ rw (order_filter, e) refl
  | inr (role, e) ↦ elim (Bool-cases (one_of (map to_lower role) ("tp" ∷ "takeprofit" ∷ []))) [
    | inl g ↦ rw (order_filter, e, g) refl
    | inr g ↦ rw (order_filter, e, g) refl
  ]
]

false_ne_true : false ≡ true → ⊥
false_ne_true h = cc

-- The types under which the engine sends a stop order are none that the adapter takes for a stop.
plain_type :
    (order : Order)
    → has_stop order ≡ true
    → (str_eq (map to_lower (type_of order)) (codes "stop") ≡ false)
      × (str_eq (map to_lower (type_of order)) (codes "stop_limit") ≡ false)
unfolding str_eq to_lower
plain_type order h =
    let t = map to_lower order.order_type in
    elim (Bool-cases (is_stop_order t)) [
      | inl e ↦ rw e (refl, refl)
      | inr e ↦ elim (Bool-cases (is_stop_limit t)) [
        | inl g ↦ rw (e, g) (refl, refl)
        | inr g ↦
            let neither : is_stop_order t || is_stop_limit t ≡ false = rw (e, g) refl in
            absurd (false_ne_true (sym neither ∙ h))
      ]
    ]

-- The role of the order is that of a take-profit.
abbrev pub is_take_profit : Order → Bool
is_take_profit order = elim (find (codes "role") order.tags) [
  | none ↦ false
  | some role ↦ one_of (map to_lower role) ("tp" ∷ "takeprofit" ∷ [])
]

filter_of_role :
    (order : Order)
    → (order_filter order
        ≡ (if is_take_profit order then codes "TakeProfit" else codes "StopOrder"))
      × (str_eq (order_filter order) (codes "StopOrder") ≡ not (is_take_profit order))
unfolding order_filter str_eq
filter_of_role order = elim (Option-cases (find (codes "role") order.tags)) [
  | inl e ↦ rw (order_filter, is_take_profit, e) (refl, refl)
  | inr (role, e) ↦ elim (Bool-cases (one_of (map to_lower role) ("tp" ∷ "takeprofit" ∷ []))) [
    | inl g ↦ rw (order_filter, is_take_profit, e, g) (refl, refl)
    | inr g ↦ rw (order_filter, is_take_profit, e, g) (refl, refl)
  ]
]

plain_word :
    (order : Order)
    → has_stop order ≡ true
    → type_of order
      ≡ (if is_stop_order (map to_lower order.order_type) then codes "market" else codes "limit")
plain_word order h =
    let t = map to_lower order.order_type in
    elim (Bool-cases (is_stop_order t)) [
      | inl e ↦ rw e refl
      | inr e ↦ elim (Bool-cases (is_stop_limit t)) [
        | inl g ↦ rw (e, g) refl
        | inr g ↦
            let neither : is_stop_order t || is_stop_limit t ≡ false = rw (e, g) refl in
            absurd (false_ne_true (sym neither ∙ h))
      ]
    ]

-- The engine sends a stop order with a positive stop price under the type market, or limit for a
-- stop limit, with the filter TakeProfit if its role is that of a take-profit and else StopOrder. The
-- adapter takes it for a trigger exactly if that role is not a take-profit's; so a take-profit is
-- the plain market or limit order that its type names.
pub is_trigger-build_request :
    (env : Env) (order : Order)
    → has_stop order ≡ true
    → is_positive order.stop_price ≡ true
    → (is_trigger (build_request env order) ≡ not (is_take_profit order))
      × ((build_request env order).order_type ≡ (
          if is_stop_order (map to_lower order.order_type) then codes "market" else codes "limit"))
      × (find (codes "orderFilter") (build_request env order).extra_params
          ≡ some (if is_take_profit order then codes "TakeProfit" else codes "StopOrder"))
unfolding is_trigger build_request
is_trigger-build_request env order stop positive =
    let given = merge_params order.params [] in
    let filter =
      filter-stop_params env order (map to_lower order.side) given
        (merge_params-IsSorted order.params [] tt) in
    let (no_stop, no_stop_limit) = plain_type order stop in
    let params : (build_request env order).extra_params
        ≡ stop_params env order (map to_lower order.side) given =
      rw (stop, positive) refl in
    let (named, matches) = filter_of_role order in
    (
      rw (is_trigger, no_stop, no_stop_limit, params, filter) (lower-order_filter order ∙ matches),
      plain_word order stop,
      rw params (filter ∙ ap some named),
    )
