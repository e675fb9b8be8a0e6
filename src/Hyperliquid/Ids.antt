-- ===== src/Hyperliquid/Ids.antt =====
-- The maps between client ids, cloids, order ids, roles and parent intents.
pub mod Laws
use latentspeed.Prelude.{List, [], ◌∷◌, map, Bool, Option, none, some, if◌then◌else◌, ◌||◌}
use latentspeed.Prelude.Bytes.{Bytes, is_empty, to_lower}
use latentspeed.Prelude.Assoc.{lookup, put}
use latentspeed.Hyperliquid.Text.{is_valid_cloid}

abbrev pub Names : Type 0
Names = List (Bytes × Bytes)

-- The members behind cloid_map_mutex_.
pub record Ids : Type 0 where
  pub cloid_to_clientid : Names
  pub clientid_to_cloid : Names
  pub cloid_to_role : Names
  pub oid_to_clientid : Names
  pub oid_to_role : Names
  pub child_to_parent : Names

abbrev pub no_ids : Ids
no_ids = record {
  cloid_to_clientid = [];
  clientid_to_cloid = [];
  cloid_to_role = [];
  oid_to_clientid = [];
  oid_to_role = [];
  child_to_parent = [];
}

-- `random_id` is the text that the random generator makes: 0x and 32 hexadecimal digits.
unfoldable pub ensure_hl_cloid : Bytes → Bytes → Bytes
unfolding is_valid_cloid
ensure_hl_cloid random_id maybe_id = if is_valid_cloid maybe_id then maybe_id else random_id

unfoldable pub remember_cloid_mapping : Bytes → Bytes → Ids → Ids
remember_cloid_mapping hl_cloid original_id ids =
    let hlc = map to_lower hl_cloid in
    if is_empty hl_cloid || is_empty original_id then ids else record ids {
      cloid_to_clientid = put hlc original_id ids.cloid_to_clientid;
      clientid_to_cloid = put (map to_lower original_id) hlc ids.clientid_to_cloid;
    }

unfoldable pub map_back_client_id : Bytes → Ids → Bytes
unfolding lookup
map_back_client_id hl_cloid ids =
    if is_empty hl_cloid then [] else elim (lookup (map to_lower hl_cloid) ids.cloid_to_clientid) [
      | some id ↦ id
      | none ↦ hl_cloid
    ]

unfoldable pub remember_cloid_role : Bytes → Bytes → Ids → Ids
remember_cloid_role hl_cloid role ids =
    if is_empty hl_cloid || is_empty role then ids else record ids {
      cloid_to_role = put (map to_lower hl_cloid) (map to_lower role) ids.cloid_to_role;
    }

unfoldable pub remember_oid_clientid : Bytes → Bytes → Ids → Ids
remember_oid_clientid oid client_id ids =
    if is_empty oid || is_empty client_id
    then ids
    else record ids { oid_to_clientid = put oid client_id ids.oid_to_clientid }

unfoldable pub remember_oid_role : Bytes → Bytes → Ids → Ids
remember_oid_role oid role ids =
    if is_empty oid || is_empty role
    then ids
    else record ids { oid_to_role = put oid (map to_lower role) ids.oid_to_role }

unfoldable pub register_parent_intent : Bytes → Bytes → Ids → Ids
register_parent_intent client_order_id intent_id ids =
    if is_empty client_order_id || is_empty intent_id then ids else record ids {
      child_to_parent = put (map to_lower client_order_id) intent_id ids.child_to_parent;
    }

-- The parent that the parent itself has, or else the parent.
unfoldable pub resolved_parent : Bytes → Ids → Bytes
unfolding lookup
resolved_parent parent ids = elim (lookup (map to_lower parent) ids.child_to_parent) [
  | none ↦ parent
  | some p ↦ if is_empty p then parent else p
]

unfoldable pub remember_child_parent : Bytes → Bytes → Ids → Ids
unfolding resolved_parent
remember_child_parent child parent ids =
    if is_empty child || is_empty parent then ids else record ids {
      child_to_parent = put (map to_lower child) (resolved_parent parent ids) ids.child_to_parent;
    }

unfoldable pub parent_for_client_id : Bytes → Ids → Bytes
unfolding lookup
parent_for_client_id client_id ids =
    if is_empty client_id
    then []
    else elim (lookup (map to_lower client_id) ids.child_to_parent) [ some p ↦ p | none ↦ [] ]
