-- ===== src/Hyperliquid/Reply.antt =====
-- The last part of place_order: what the venue's answer to a placement is taken for. `none` stands
-- for an answer that rapidjson cannot parse; any other is an object.
pub mod Laws
use latentspeed.Prelude.{
  ℕ, [], ◌∷◌, Bool, true, false, not, ◌&&◌, Option, none, some, if◌then◌else◌,
}
use latentspeed.Prelude.Bytes.{Bytes, codes, one_of, is_empty}
use latentspeed.Json.{
  Value, Items, Fields, nil, item, member, as_text, as_uint64, as_array, as_object, or_keep,
}
use latentspeed.Engine.Types.{OrderResponse}
use latentspeed.Hyperliquid.Ids.{Ids, remember_oid_clientid}
use latentspeed.Hyperliquid.Stream.{Env}

abbrev pub accepted_as : Bytes → Option Bytes → Option Bytes → OrderResponse
accepted_as id oid status = record {
  success = true;
  message = codes "ok";
  exchange_order_id = oid;
  client_order_id = some id;
  status = status;
  extra_data = [];
}

abbrev pub refused_as : Bytes → Bytes → OrderResponse
refused_as id message = record {
  success = false;
  message = message;
  exchange_order_id = none;
  client_order_id = some id;
  status = none;
  extra_data = [];
}

-- extract_msg: the first of the three members that is a string.
unfoldable pub extract_msg : Fields → Bytes
unfolding member as_text
extract_msg fs = elim (as_text (member "reason" fs)) [
  | some s ↦ s
  | none ↦ elim (as_text (member "message" fs)) [
    | some s ↦ s
    | none ↦ or_keep (as_text (member "error" fs)) []
  ]
]

abbrev pub or_else_text : Bytes → Bytes → Bytes
or_else_text s t = if is_empty s then t else s

-- The statuses of the response's data, and the fields of its object.
unfoldable pub statuses_of : Fields → Option Items
unfolding member
statuses_of response = elim (as_object (member "data" response)) [
  | none ↦ none
  | some fs ↦ as_array (member "statuses" fs)
]

-- The first status of an item that gives a text.
unfoldable pub first_message : Items → Bytes
unfolding extract_msg member as_text
first_message nil = []
first_message (item v items) =
    let rest = first_message items in
    elim (as_object v) [
      | none ↦ rest
      | some st ↦
          or_else_text (or_else_text (extract_msg st) (or_keep (as_text (member "status" st)) []))
            rest
    ]

-- The text of an answer whose status is not ok.
unfoldable pub failure_text : Bytes → Fields → Bytes
unfolding extract_msg first_message statuses_of member
failure_text status root =
    let deep = elim (as_object (member "response" root)) as (λ o. Bytes) [
      | none ↦ []
      | some r ↦ or_else_text (extract_msg r) (first_message (or_keep (statuses_of r) nil))
    ] in
    or_else_text (or_else_text (extract_msg root) deep) status

-- A status that is a word of its own refuses the order unless it is one of three.
unfoldable pub refusal : Bytes → Fields → Option OrderResponse
unfolding member as_text
refusal id st = elim (as_text (member "status" st)) [
  | none ↦ none
  | some word ↦
      if one_of word ("resting" ∷ "filled" ∷ "accepted" ∷ [])
      then none
      else some (
          refused_as id (
            or_else_text (or_keep (as_text (member "reason" st)) [])
              (or_else_text (or_keep (as_text (member "message" st)) []) word)))
]

-- The body of the loop over the statuses: the answer it returns, with the id maps, or none.
unfoldable pub status_verdict : Env → Bytes → Fields → Ids → Option (OrderResponse × Ids)
unfolding member refusal remember_oid_clientid
status_verdict env id st ids =
    let refused = elim (refusal id st) as (λ o. Option (OrderResponse × Ids)) [
      | none ↦ none
      | some r ↦ some (r, ids)
    ] in
    elim (as_object (member "resting" st)) [
      | some rest ↦ elim (as_uint64 (member "oid" rest)) [
        | none ↦ refused
        | some n ↦
            let oid = env.to_string n in
            some (
              accepted_as id (some oid) (some (codes "accepted")),
              remember_oid_clientid oid id ids,
            )
      ]
      | none ↦ elim (as_object (member "filled" st)) [
        | none ↦ refused
        | some fil ↦ elim (as_uint64 (member "oid" fil)) [
          | none ↦ some (accepted_as id none (some (codes "filled")), ids)
          | some n ↦
              let oid = env.to_string n in
              some (
                accepted_as id (if is_empty oid then none else some oid) (some (codes "filled")),
                remember_oid_clientid oid id ids,
              )
        ]
      ]
    ]

-- The same for the shape of HTTP, which remembers nothing.
unfoldable pub http_verdict : Env → Bytes → Fields → Option OrderResponse
unfolding member refusal
http_verdict env id st = elim (as_object (member "resting" st)) [
  | some rest ↦ elim (as_uint64 (member "oid" rest)) [
    | none ↦ refusal id st
    | some n ↦ some (accepted_as id (some (env.to_string n)) (some (codes "accepted")))
  ]
  | none ↦ elim (as_object (member "filled" st)) [
    | none ↦ refusal id st
    | some fil ↦ elim (as_uint64 (member "oid" fil)) [
      | none ↦ refusal id st
      | some n ↦ some (accepted_as id (some (env.to_string n)) (some (codes "filled")))
    ]
  ]
]

-- The first item that decides.
unfoldable pub first_verdict {ℓ} : {A : Type ℓ} → (Fields → Option A) → Items → Option A
first_verdict decide nil = none
first_verdict decide (item v items) =
    let rest = first_verdict decide items in
    elim (as_object v) [
      | none ↦ rest
      | some st ↦ elim (decide st) [ none ↦ rest | some a ↦ some a ]
    ]

abbrev pub response_statuses : Fields → Items
response_statuses root = elim (as_object (member "response" root)) [
  | none ↦ nil
  | some r ↦ or_keep (statuses_of r) nil
]

unfoldable pub ws_reply : Env → Bytes → Bytes → Fields → Ids → OrderResponse × Ids
unfolding failure_text first_verdict status_verdict statuses_of member
ws_reply env id status root ids =
    if one_of status ("ok" ∷ [])
    then elim (first_verdict (λ st. status_verdict env id st ids) (response_statuses root)) [
      | some decided ↦ decided
      | none ↦ (accepted_as id none (some (codes "accepted")), ids)
    ]
    else (refused_as id (failure_text status root), ids)

unfoldable pub http_reply : Env → Bytes → Bytes → Fields → OrderResponse
unfolding first_verdict http_verdict statuses_of member as_text
http_reply env id status dr =
    let text = elim (as_object (member "response" dr)) as (λ o. Bytes) [
      | none ↦ status
      | some r ↦ elim (as_text (member "reason" r)) [
        | some s ↦ s
        | none ↦ or_keep (as_text (member "message" r)) status
      ]
    ] in
    if one_of status ("ok" ∷ [])
    then or_keep (first_verdict (http_verdict env id) (response_statuses dr))
        (accepted_as id none (some (codes "accepted")))
    else refused_as id text

-- From the parsed answer to the response of place_order.
unfoldable pub place_reply : Env → Bytes → Option Fields → Ids → OrderResponse × Ids
unfolding member as_text ws_reply http_reply
place_reply env id none ids = (accepted_as id none none, ids)
place_reply env id (some dr) ids =
    let root = or_keep (as_object (member "payload" dr)) dr in
    elim (as_text (member "status" root)) [
      | some status ↦ ws_reply env id status root ids
      | none ↦ elim (as_text (member "status" dr)) [
        | some status ↦ (http_reply env id status dr, ids)
        | none ↦ (accepted_as id none (some (codes "accepted")), ids)
      ]
    ]
