-- ===== src/Engine/Serialize.antt =====
-- serialize_execution_report_hft and serialize_fill_hft: the documents that rapidjson's writer
-- prints.
pub mod Laws
use latentspeed.Prelude.{ℕ, ◌-◌, ◌^◌, [], ◌∷◌, if◌then◌else◌, ltb}
use latentspeed.Prelude.Bytes.{Bytes, codes, is_empty, c_str}
use latentspeed.Json.{Value, Fields, end, field, unsigned, negative, real, text, object}
use latentspeed.Engine.Types.{Tags, Report, Fill}
use Prim.Native.String.{String}

abbrev pub named : String → Value → Fields → Fields
named k v fs = field (codes k) v fs

-- rapidjson::Value of a C string, and of an int, whose 32 bits are `n`.
unfoldable pub c_text : Bytes → Value
unfolding c_str
c_text s = text (c_str s)

unfoldable pub int_value : ℕ → Value
int_value n = if ltb n 0x80000000 then unsigned n else negative (2 ^ 32 - n)

-- The loop of for_each over the tags.
unfoldable pub tag_fields : Tags → Fields
unfolding c_text c_str
tag_fields [] = end
tag_fields ((k, v) ∷ m) = field (c_str k) (c_text v) (tag_fields m)

unfoldable pub serialize_execution_report_hft : Report → Fields
unfolding c_text int_value tag_fields
serialize_execution_report_hft r =
    let rest = named "reason_code" (c_text r.reason_code) (
      named "reason_text" (c_text r.reason_text)
        (named "ts_ns" (unsigned r.ts_ns) (named "tags" (object (tag_fields r.tags)) end))) in
    named "version" (int_value r.version) (
      named "cl_id" (c_text r.cl_id) (
        named "status" (c_text r.status) (
          if is_empty r.exchange_order_id
          then rest
          else named "exchange_order_id" (c_text r.exchange_order_id) rest)))

unfoldable pub serialize_fill_hft : Fill → Fields
unfolding c_text int_value tag_fields
serialize_fill_hft f =
    let rest = named "ts_ns" (unsigned f.ts_ns) (named "tags" (object (tag_fields f.tags)) end) in
    named "version" (int_value f.version) (
      named "cl_id" (c_text f.cl_id) (
        named "exchange_order_id" (c_text f.exchange_order_id) (
          named "exec_id" (c_text f.exec_id) (
            named "symbol_or_pair" (c_text f.symbol_or_pair) (
              named "side" (c_text f.side) (
                named "price" (real f.price) (
                  named "size" (real f.size) (
                    named "fee_currency" (c_text f.fee_currency) (
                      named "fee_amount" (real f.fee_amount) (
                        if is_empty f.liquidity
                        then rest
                        else named "liquidity" (c_text f.liquidity) rest))))))))))
