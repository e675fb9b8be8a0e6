-- ===== src/Hyperliquid/Ids/Laws.antt =====
-- The id maps of the Hyperliquid adapter, read after a write.
use latentspeed.Prelude.{
  ◌≡◌, refl, some, false, map, if◌then◌else◌, Bool-cases, Option-cases, inl, inr,
}
use latentspeed.Prelude.Bytes.{Bytes, is_empty, str_eq, to_lower}
use latentspeed.Prelude.Assoc.{lookup, lookup-put_self}
use latentspeed.Hyperliquid.Ids.{
  Ids, remember_cloid_mapping, map_back_client_id, remember_child_parent, resolved_parent,
  parent_for_client_id,
}

-- After a mapping of a cloid, that cloid in any case of letters is mapped back to the client id,
-- and any other cloid to what it was mapped to before.
pub map_back-remember :
    (cloid id other : Bytes) (ids : Ids)
    → is_empty cloid ≡ false
    → is_empty id ≡ false
    → is_empty other ≡ false
    → map_back_client_id other (remember_cloid_mapping cloid id ids) ≡ (
        if str_eq (map to_lower cloid) (map to_lower other)
        then id
        else map_back_client_id other ids)
unfolding map_back_client_id remember_cloid_mapping lookup
map_back-remember cloid id other ids hc hi ho =
    elim (Bool-cases (str_eq (map to_lower cloid) (map to_lower other))) [
      | inl e ↦ rw (remember_cloid_mapping, map_back_client_id, hc, hi, ho, e) refl
      | inr e ↦ rw (remember_cloid_mapping, map_back_client_id, hc, hi, ho, e) refl
    ]

-- The parent of a child that was told last: the parent's own parent if it has one.
pub parent-remember :
    (child parent other : Bytes) (ids : Ids)
    → is_empty child ≡ false
    → is_empty parent ≡ false
    → is_empty other ≡ false
    → parent_for_client_id other (remember_child_parent child parent ids) ≡ (
        if str_eq (map to_lower child) (map to_lower other)
        then if is_empty (parent_for_client_id parent ids)
          then parent
          else parent_for_client_id parent ids
        else parent_for_client_id other ids)
unfolding parent_for_client_id remember_child_parent resolved_parent lookup
parent-remember child parent other ids hc hp ho =
    elim (Bool-cases (str_eq (map to_lower child) (map to_lower other))) [
      | inl e ↦ elim (Option-cases (lookup (map to_lower parent) ids.child_to_parent)) [
        | inl g ↦
            rw (remember_child_parent, resolved_parent, parent_for_client_id, hc, hp, ho, e, g) refl
        | inr (p, g) ↦
            rw (remember_child_parent, resolved_parent, parent_for_client_id, hc, hp, ho, e, g) refl
      ]
      | inr e ↦
          rw (remember_child_parent, resolved_parent, parent_for_client_id, hc, hp, ho, e) refl
    ]

pub clientid_to_cloid-remember :
    (cloid id : Bytes) (ids : Ids)
    → is_empty id ≡ false
    → is_empty cloid ≡ false
    → lookup (map to_lower id) (remember_cloid_mapping cloid id ids).clientid_to_cloid
      ≡ some (map to_lower cloid)
unfolding remember_cloid_mapping lookup
clientid_to_cloid-remember cloid id ids hi hc =
    rw (hc, hi) (lookup-put_self (map to_lower id) (map to_lower cloid) ids.clientid_to_cloid)
