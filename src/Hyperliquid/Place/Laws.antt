-- ===== src/Hyperliquid/Place/Laws.antt =====
-- What a placement leaves behind for the private stream: the ids of a bracket's legs, and the recent
-- entry that an early fill is compared with.
use latentspeed.Prelude.{
  ◌≡◌, refl, sym, ap, ◌∙◌, subst, map, false, ◌||◌, some, if◌then◌else◌, if_ind,
}
use latentspeed.Prelude.Bytes.{Bytes, str_eq_refl, is_empty, to_lower}
use latentspeed.Prelude.Assoc.{lookup, lookup-put_self}
use latentspeed.Hyperliquid.Ids.{
  Ids, ensure_hl_cloid, remember_cloid_mapping, remember_cloid_role, remember_child_parent,
  map_back_client_id, parent_for_client_id,
}
use latentspeed.Hyperliquid.Ids.Laws.{map_back-remember, parent-remember}
use latentspeed.Hyperliquid.Place.{Link, child_id, leg_ids}

role-map_back :
    (cloid role other : Bytes) (ids : Ids)
    → map_back_client_id other (remember_cloid_role cloid role ids) ≡ map_back_client_id other ids
unfolding map_back_client_id remember_cloid_role
role-map_back cloid role other ids =
    if_ind (λ (r : Ids). map_back_client_id other r ≡ map_back_client_id other ids)
      (is_empty cloid || is_empty role) refl refl

role-parent :
    (cloid role other : Bytes) (ids : Ids)
    → parent_for_client_id other (remember_cloid_role cloid role ids)
      ≡ parent_for_client_id other ids
unfolding parent_for_client_id remember_cloid_role
role-parent cloid role other ids =
    if_ind (λ (r : Ids). parent_for_client_id other r ≡ parent_for_client_id other ids)
      (is_empty cloid || is_empty role) refl refl

mapping-parent :
    (cloid id other : Bytes) (ids : Ids)
    → parent_for_client_id other (remember_cloid_mapping cloid id ids)
      ≡ parent_for_client_id other ids
unfolding parent_for_client_id remember_cloid_mapping
mapping-parent cloid id other ids =
    if_ind (λ (r : Ids). parent_for_client_id other r ≡ parent_for_client_id other ids)
      (is_empty cloid || is_empty id) refl refl

role-found :
    (cloid role : Bytes) (ids : Ids)
    → is_empty cloid ≡ false
    → is_empty role ≡ false
    → lookup (map to_lower cloid) (remember_cloid_role cloid role ids).cloid_to_role
      ≡ some (map to_lower role)
unfolding remember_cloid_role
role-found cloid role ids hc hr =
    rw (remember_cloid_role, hc, hr)
      (lookup-put_self (map to_lower cloid) (map to_lower role) ids.cloid_to_role)

-- A leg of a bracket is known by its cloid: the cloid is mapped back to the leg's client id, which
-- has the parent of the order, or else the order, and the role is the leg's.
pub leg_ids_lem :
    (link : Link) (id which : Bytes) (ids : Ids)
    → let child = child_id id which in
      let cloid = ensure_hl_cloid (link.random_id child) child in
      is_empty id ≡ false
      → is_empty which ≡ false
      → is_empty child ≡ false
      → is_empty cloid ≡ false
      → (map_back_client_id cloid (leg_ids link id which ids) ≡ child)
        × (parent_for_client_id child (leg_ids link id which ids)
            ≡ (if is_empty (parent_for_client_id id ids) then id else parent_for_client_id id ids))
        × (lookup (map to_lower cloid) (leg_ids link id which ids).cloid_to_role
            ≡ some (map to_lower which))
unfolding leg_ids
leg_ids_lem link id which ids hi hw hc hl =
    let child = child_id id which in
    let cloid = ensure_hl_cloid (link.random_id child) child in
    let told = remember_child_parent child id ids in
    let mapped = remember_cloid_mapping cloid child told in
    let back : map_back_client_id cloid mapped ≡ child =
      map_back-remember cloid child cloid told hl hc hl
      ∙ ap (λ b. if b then child else map_back_client_id cloid told)
          (str_eq_refl (map to_lower cloid)) in
    let own = parent_for_client_id id ids in
    let parent : parent_for_client_id child told ≡ (if is_empty own then id else own) =
      parent-remember child id child ids hc hi hc
      ∙ ap (λ b. if b then (if is_empty own then id else own) else parent_for_client_id child ids)
          (str_eq_refl (map to_lower child)) in
    let learnt = remember_cloid_role cloid which mapped in
    let step : leg_ids link id which ids ≡ learnt = ap (λ b. if b then ids else learnt) hi in
    subst
      (λ r.
        (map_back_client_id cloid r ≡ child)
        × (parent_for_client_id child r ≡ (if is_empty own then id else own))
        × (lookup (map to_lower cloid) r.cloid_to_role ≡ some (map to_lower which)))
      (sym step)
      (
        role-map_back cloid which cloid mapped ∙ back,
        role-parent cloid which child mapped ∙ mapping-parent cloid child child told ∙ parent,
        role-found cloid which mapped hl hw,
      )
