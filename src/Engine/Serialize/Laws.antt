-- ===== src/Engine/Serialize/Laws.antt =====
-- Published documents, read back by the functions of src/engine/exec_dto.cpp.
use latentspeed.Prelude.{
  ◌≤◌, ◌⊎◌, Option, length, take, take_of_le, length-take, leb, arith, ◌≡◌, ◌==◌, refl, sym, ap,
  ap₂, ◌∙◌, [], ◌∷◌, ◌++◌, append_assoc, append-nil, true, All, All-append, none, some,
  if◌then◌else◌, Bool-cases, inl, inr,
}
use latentspeed.Prelude.Bytes.{Bytes, c_str, is_empty, str_lt, str_eq}
use latentspeed.Json.{Fields, member, as_text, as_uint64, object, find_field}
use latentspeed.Hft.FlatMap.{put}
use latentspeed.Hft.FlatMap.Keys.{bytes_ord}
use latentspeed.Hft.FlatMap.Spec.{IsSorted, Above}
use latentspeed.Hft.FlatMap.Laws.{put_below}
use latentspeed.Engine.Types.{Tags, Report, Fill, Env}
use latentspeed.Engine.Publish.Laws.{report_message}
use latentspeed.Engine.Dto.{
  Numbers, primitive, collect_object_primitives, read_map, number_or_text, as_double,
}
use latentspeed.Engine.Serialize.{
  tag_fields, c_text, serialize_execution_report_hft, serialize_fill_hft,
}

-- No NUL in a key or a value.
abbrev pub IsPrintable : Tags → Type 0
IsPrintable m = All (λ (k, v). (c_str k ≡ k) × (c_str v ≡ v)) m

-- The key comes behind every entry.
abbrev Behind : Bytes → Tags → Type 0
Behind k m = All (λ (j, v). str_lt j k ≡ true) m

put-Behind : (k v : Bytes) (m : Tags) → Behind k m → put k v m ≡ m ++ (k, v) ∷ []
unfolding put
put-Behind k v [] h = refl
put-Behind k v ((j, w) ∷ m) h = put_below k j v w m h.0 ∙ ap (◌∷◌ (j, w)) (put-Behind k v m h.1)

Behind-extend :
    (k v : Bytes) (out m : Tags)
    → All (λ (j, w). Behind j out) m
    → Above k m
    → All (λ (j, w). Behind j (out ++ (k, v) ∷ [])) m
Behind-extend k v out [] h above = tt
Behind-extend k v out ((j, w) ∷ m) h above =
    (All-append _ out _ h.0 (above.0, tt), Behind-extend k v out m h.1 above.1)

collect-tag_fields :
    (lib : Numbers) (m out : Tags)
    → IsSorted m
    → IsPrintable m
    → All (λ (j, w). Behind j out) m
    → collect_object_primitives lib (tag_fields m) out ≡ out ++ m
unfolding collect_object_primitives tag_fields primitive c_text
collect-tag_fields lib [] out sorted plain behind = sym (append-nil out)
collect-tag_fields lib ((k, v) ∷ m) out sorted plain behind =
    let key : c_str (c_str k) ≡ k = ap c_str plain.0.0 ∙ plain.0.0 in
    let value : c_str (c_str v) ≡ v = ap c_str plain.0.1 ∙ plain.0.1 in
    ap₂ (λ a b. collect_object_primitives lib (tag_fields m) (put a b out)) key value
    ∙ ap (collect_object_primitives lib (tag_fields m)) (put-Behind k v out behind.0)
    ∙ collect-tag_fields lib m (out ++ (k, v) ∷ []) sorted.1 plain.1
        (Behind-extend k v out m behind.1 sorted.0)
    ∙ append_assoc out ((k, v) ∷ []) m

nothing_before : (m : Tags) → All (λ (j, w). Behind j []) m
nothing_before [] = tt
nothing_before ((k, v) ∷ m) = (tt, nothing_before m)

read-tag_fields :
    (lib : Numbers) (m : Tags)
    → IsSorted m
    → IsPrintable m
    → read_map lib (object (tag_fields m)) ≡ m
unfolding read_map
read-tag_fields lib m sorted plain = collect-tag_fields lib m [] sorted plain (nothing_before m)

c_str_idem : (s : Bytes) → c_str (c_str s) ≡ c_str s
unfolding c_str
c_str_idem [] = refl
c_str_idem (c ∷ s) = elim (Bool-cases (c == 0)) [
  | inl e ↦ rw (c_str, e) refl
  | inr e ↦ rw (c_str, e) (rw (c_str, e) (ap (◌∷◌ c) (c_str_idem s)))
]

as_text-c_text : (s : Bytes) → as_text (c_text s) ≡ some (c_str s)
unfolding as_text c_text
as_text-c_text s = ap some (c_str_idem s)

-- The document has the identifiers, the status, the reason and the time of the report under their
-- names, the order id of the venue only if there is one, and exactly its tags.
unfoldable pub IsDocumentOf : Numbers → Report → Fields → Type 0
unfolding member as_text
IsDocumentOf lib r doc =
    (as_text (member "cl_id" doc) ≡ some (c_str r.cl_id))
    × (as_text (member "status" doc) ≡ some (c_str r.status))
    × (as_text (member "exchange_order_id" doc)
        ≡ (if is_empty r.exchange_order_id then none else some (c_str r.exchange_order_id)))
    × (as_text (member "reason_code" doc) ≡ some (c_str r.reason_code))
    × (as_text (member "reason_text" doc) ≡ some (c_str r.reason_text))
    × (as_uint64 (member "ts_ns" doc) ≡ some r.ts_ns)
    × (read_map lib (member "tags" doc) ≡ r.tags)

serialize_execution_report_hft-IsDocumentOf :
    (lib : Numbers) (r : Report)
    → IsSorted r.tags
    → IsPrintable r.tags
    → IsDocumentOf lib r (serialize_execution_report_hft r)
unfolding IsDocumentOf member find_field serialize_execution_report_hft str_eq as_text
serialize_execution_report_hft-IsDocumentOf lib r sorted plain =
    elim (Bool-cases (is_empty r.exchange_order_id)) [
      | inl e ↦
          rw (serialize_execution_report_hft, e)
            (
              as_text-c_text r.cl_id,
              as_text-c_text r.status,
              refl,
              as_text-c_text r.reason_code,
              as_text-c_text r.reason_text,
              refl,
              read-tag_fields lib r.tags sorted plain,
            )
      | inr e ↦
          rw (serialize_execution_report_hft, e)
            (
              as_text-c_text r.cl_id,
              as_text-c_text r.status,
              as_text-c_text r.exchange_order_id,
              as_text-c_text r.reason_code,
              as_text-c_text r.reason_text,
              refl,
              read-tag_fields lib r.tags sorted plain,
            )
    ]

-- Where the parser reads the writer's text of a report back as the document it was written from: a
-- text of at most 2047 bytes is published whole, and is read as a document that holds the report's
-- identifiers, its status, its reason and its time under their names, the order id of the venue only
-- if there is one, and exactly its tags. Of a longer text only the first 2047 bytes are published.
-- The tags must be sorted and free of NUL.
pub serialize_report_lem :
    (env : Env) (lib : Numbers) (parse : Bytes → Option Fields) (r : Report)
    → IsSorted r.tags
    → IsPrintable r.tags
    → parse (env.library.write_json (serialize_execution_report_hft r))
      ≡ some (serialize_execution_report_hft r)
    → ((length (env.library.write_json (serialize_execution_report_hft r)) ≤ 2047)
        × (doc : Fields) × (parse (report_message env r).payload ≡ some doc)
        × IsDocumentOf lib r doc)
      ⊎ ((2048 ≤ length (env.library.write_json (serialize_execution_report_hft r)))
          × (length (report_message env r).payload ≡ 2047)
          × ((report_message env r).payload
              ≡ take 2047 (env.library.write_json (serialize_execution_report_hft r))))
serialize_report_lem env lib parse r sorted plain reads =
    let doc = serialize_execution_report_hft r in
    let written = env.library.write_json doc in
    elim (Bool-cases (leb (length written) 2047)) [
      | inl e ↦
          let short : length written ≤ 2047 = ground (arith, e) in
          inl (
            short,
            doc,
            ap parse (take_of_le 2047 written short) ∙ reads,
            serialize_execution_report_hft-IsDocumentOf lib r sorted plain,
          )
      | inr e ↦
          let long : 2048 ≤ length written = ground (arith, e) in
          inr (long, length-take 2047 written ∙ omega arith, refl)
    ]

-- A fill that is published holds its identifiers, its side, its three numbers and its time under
-- their names, the liquidity only if there is one, and exactly its tags.
serialize_fill_lem :
    (lib : Numbers) (f : Fill)
    → IsSorted f.tags
    → IsPrintable f.tags
    → let doc = serialize_fill_hft f in
      (as_text (member "cl_id" doc) ≡ some (c_str f.cl_id))
      × (as_text (member "exchange_order_id" doc) ≡ some (c_str f.exchange_order_id))
      × (as_text (member "exec_id" doc) ≡ some (c_str f.exec_id))
      × (as_text (member "symbol_or_pair" doc) ≡ some (c_str f.symbol_or_pair))
      × (as_text (member "side" doc) ≡ some (c_str f.side))
      × (number_or_text lib (member "price" doc) ≡ some f.price)
      × (number_or_text lib (member "size" doc) ≡ some f.size)
      × (number_or_text lib (member "fee_amount" doc) ≡ some f.fee_amount)
      × (as_text (member "liquidity" doc)
          ≡ (if is_empty f.liquidity then none else some (c_str f.liquidity)))
      × (as_uint64 (member "ts_ns" doc) ≡ some f.ts_ns)
      × (read_map lib (member "tags" doc) ≡ f.tags)
unfolding member find_field serialize_fill_hft str_eq as_text number_or_text as_double
serialize_fill_lem lib f sorted plain =
    let tags = read-tag_fields lib f.tags sorted plain in
    elim (Bool-cases (is_empty f.liquidity)) [
      | inl e ↦
          rw (serialize_fill_hft, e)
            (
              as_text-c_text f.cl_id,
              as_text-c_text f.exchange_order_id,
              as_text-c_text f.exec_id,
              as_text-c_text f.symbol_or_pair,
              as_text-c_text f.side,
              refl,
              refl,
              refl,
              refl,
              refl,
              tags,
            )
      | inr e ↦
          rw (serialize_fill_hft, e)
            (
              as_text-c_text f.cl_id,
              as_text-c_text f.exchange_order_id,
              as_text-c_text f.exec_id,
              as_text-c_text f.symbol_or_pair,
              as_text-c_text f.side,
              refl,
              refl,
              refl,
              as_text-c_text f.liquidity,
              refl,
              tags,
            )
    ]
