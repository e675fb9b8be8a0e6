-- ===== src/Engine/Tests/Wire.antt =====
-- The edges of the engine: messages read and written, its own symbol helpers, and the venue's words.
use latentspeed.Prelude.{
  ◌≤◌, map, ◌⊎◌, not, Option, length, take, ◌≡◌, inl, refl, [], ◌∷◌, true, none, some,
  if◌then◌else◌, arith,
}
use latentspeed.Prelude.Bytes.{Bytes, codes, str_eq, str_lt, c_str, find_char, one_of, to_lower}
use latentspeed.Json.{Fields, end, field, unsigned, text}
use latentspeed.Hft.FlatMap.{find, lower_bound, hit}
use latentspeed.Hft.FlatMap.Keys.{bytes_ord}
use latentspeed.Hft.FlatMap.Spec.{IsSorted}
use latentspeed.Hft.SpscQueue.Refine.{Models}
use latentspeed.Engine.Types.{Order, Report}
use latentspeed.Engine.Dto.{Numbers, collect_object_primitives}
use latentspeed.Engine.Dto.Laws.{last_primitive, or_before, collect_lem}
use latentspeed.Engine.Serialize.{serialize_execution_report_hft}
use latentspeed.Engine.Serialize.Laws.{IsPrintable, IsDocumentOf, serialize_report_lem}
use latentspeed.Engine.Publish.Laws.{report_message}
use latentspeed.Engine.Publisher.{publisher_rounds}
use latentspeed.Engine.Publisher.Laws.{frames_of, publisher_lem}
use latentspeed.Engine.Fallback.{to_hyphen_symbol}
use latentspeed.Engine.Fallback.Laws.{IsCommon, to_hyphen_symbol-to_hyphen}
use latentspeed.Engine.Update.{on_order_update}
use latentspeed.Engine.Place.{has_stop, is_stop_order, build_request}
use latentspeed.Hyperliquid.Placement.{is_trigger}
use latentspeed.Hyperliquid.Placement.Laws.{is_take_profit, is_trigger-build_request}
use latentspeed.Symbol.{to_hyphen}
use latentspeed.Hyperliquid.Updates.{map_status}
use latentspeed.Hyperliquid.Updates.Laws.{quiet_statuses}
use latentspeed.Engine.Tests.{env, order, report, old, ring, engine, two_pending, a_pending}
use latentspeed.Engine.Tests.Callbacks.{update_of}

abbrev numbers : Numbers
numbers = record {
  parse = λ s. none;
  of_unsigned = λ n. n;
  of_negative = λ n. n;
  print = λ d. codes "1.000000";
  stod = λ s. none;
}

-- {"k": "v", "k": 1}
abbrev twice : Fields
twice = field (codes "k") (text (codes "v")) (field (codes "k") (unsigned 1) end)

collect_lem_example :
    IsSorted (collect_object_primitives numbers twice [])
    × (find (codes "k") (collect_object_primitives numbers twice [])
        ≡ or_before (last_primitive numbers (codes "k") twice) (find (codes "k") []))
collect_lem_example = collect_lem numbers twice [] (codes "k") tt

abbrev tagged : Report
tagged = record report { tags = (codes "a", codes "1") ∷ (codes "b", codes "2") ∷ [] }

tags-IsSorted : IsSorted tagged.tags
unfolding str_lt
tags-IsSorted = ((refl, tt), (tt, tt))

tags-IsPrintable : IsPrintable tagged.tags
unfolding c_str
tags-IsPrintable = ((refl, refl), ((refl, refl), tt))

abbrev read_tagged : Bytes → Option Fields
read_tagged s = some (serialize_execution_report_hft tagged)

serialize_report_lem_example :
    ((length (env.library.write_json (serialize_execution_report_hft tagged)) ≤ 2047)
      × (doc : Fields) × (read_tagged (report_message env tagged).payload ≡ some doc)
      × IsDocumentOf numbers tagged doc)
    ⊎ ((2048 ≤ length (env.library.write_json (serialize_execution_report_hft tagged)))
        × (length (report_message env tagged).payload ≡ 2047)
        × ((report_message env tagged).payload
            ≡ take 2047 (env.library.write_json (serialize_execution_report_hft tagged))))
serialize_report_lem_example =
    serialize_report_lem env numbers read_tagged tagged tags-IsSorted tags-IsPrintable refl

one_waiting-Models : Models 4 (record ring { tail = 1 }) (old ∷ [])
one_waiting-Models = record {
  slots = refl;
  head_in = omega arith;
  tail_in = omega arith;
  free = omega arith;
  held = (refl, refl);
}

publisher_lem_example :
    Models 4
      (publisher_rounds env
        ((true, true) ∷ [])
        (record engine { publish_queue = record ring { tail = 1 } })).0.publish_queue
      []
    × ((publisher_rounds env
          ((true, true) ∷ [])
          (record engine { publish_queue = record ring { tail = 1 } })).1
        ≡ frames_of ((true, true) ∷ []) (old ∷ []))
publisher_lem_example =
    publisher_lem env ((true, true) ∷ []) (old ∷ [])
      (record engine { publish_queue = record ring { tail = 1 } }) one_waiting-Models

perp-IsCommon : IsCommon (codes "ETH-USDT")
unfolding find_char
perp-IsCommon = inl (refl, refl)

to_hyphen_symbol-to_hyphen_example :
    to_hyphen_symbol (codes "ETH-USDT") true ≡ to_hyphen (codes "ETH-USDT") true
to_hyphen_symbol-to_hyphen_example =
    to_hyphen_symbol-to_hyphen (codes "ETH-USDT") true perp-IsCommon

known_word :
    one_of (codes "partially_filled") ("open" ∷ "triggered" ∷ "filled" ∷ "partially_filled" ∷ [])
    ≡ true
unfolding one_of str_eq
known_word = refl

mapped_word : codes "partially_filled" ≡ (map_status (codes "partially_filled")).0
unfolding map_status one_of str_eq
mapped_word = refl

quiet_statuses_example :
    on_order_update env (update_of (codes "partially_filled")) two_pending ≡ two_pending
quiet_statuses_example =
    quiet_statuses env (codes "partially_filled") (update_of (codes "partially_filled")) two_pending
      0 known_word mapped_word a_pending

-- A take-profit of the engine.
abbrev take_profit : Order
take_profit = record order {
  order_type = codes "stop";
  stop_price = 4607182418800017408;
  tags = (codes "role", codes "tp") ∷ [];
}

take_profit_stops : has_stop take_profit ≡ true
unfolding one_of str_eq to_lower
take_profit_stops = refl

is_trigger-build_request_example :
    (is_trigger (build_request env take_profit) ≡ not (is_take_profit take_profit))
    × ((build_request env take_profit).order_type ≡ (
        if is_stop_order (map to_lower take_profit.order_type)
        then codes "market"
        else codes "limit"))
    × (find (codes "orderFilter") (build_request env take_profit).extra_params
        ≡ some (if is_take_profit take_profit then codes "TakeProfit" else codes "StopOrder"))
is_trigger-build_request_example = is_trigger-build_request env take_profit take_profit_stops refl

-- That is, it is no trigger.
take_profit_plain : is_take_profit take_profit ≡ true
unfolding find lower_bound hit str_eq str_lt one_of to_lower
take_profit_plain = refl
