-- ===== src/Hyperliquid/Batch/Laws.antt =====
-- The time in force of an order that is batched.
use latentspeed.Prelude.{
  ◌≡◌, refl, sym, ap, ◌∙◌, [], ◌∷◌, map, true, false, Option-cases, inl, inr, if_ind, arith,
}
use latentspeed.Prelude.Bytes.{Bytes, codes, str_eq, is_empty, one_of, to_lower}
use latentspeed.Json.{or_keep}
use latentspeed.Engine.Types.{OrderRequest}
use latentspeed.Hyperliquid.Text.{map_tif_to_hl}
use latentspeed.Hyperliquid.Placement.{Market, is_ioc_like, is_fast, use_batch}

not_ioc : (s : Bytes) → one_of s ("ioc" ∷ "fok" ∷ []) ≡ false → one_of s ("ioc" ∷ []) ≡ false
unfolding one_of
not_ioc s h = ground (arith, h)

slow_when_batched : (m : Market) (r : OrderRequest) → use_batch m r ≡ true → is_ioc_like r ≡ false
unfolding use_batch is_fast
slow_when_batched m r h = ground (arith, h)

-- An order that is batched has the time in force "Gtc" or "Alo", so the cap on the price of an "Ioc"
-- order is never reached.
use_batch-map_tif_to_hl :
    (m : Market) (r : OrderRequest)
    → use_batch m r ≡ true
    → str_eq (map_tif_to_hl r.time_in_force) (codes "Ioc") ≡ false
unfolding map_tif_to_hl is_ioc_like str_eq
use_batch-map_tif_to_hl m r h =
    let slow = slow_when_batched m r h in
    elim (Option-cases r.time_in_force) [
      | inl e ↦ rw e refl
      | inr (tif, e) ↦
          let words = "ioc" ∷ "fok" ∷ [] in
          let plain : one_of (map to_lower tif) words ≡ false =
            sym (ap (λ o. one_of (map to_lower (or_keep o [])) words) e) ∙ slow in
          let slower = not_ioc (map to_lower tif) plain in
          let Other : Bytes → Type 0 = λ s. str_eq s (codes "Ioc") ≡ false in
          rw (e, map_tif_to_hl, slower)
            (if_ind Other (is_empty tif) refl (
              if_ind Other (one_of (map to_lower tif) ("gtc" ∷ [])) refl (
                if_ind Other
                  (one_of (map to_lower tif) ("po" ∷ "post_only" ∷ "postonly" ∷ "alo" ∷ [])) refl
                  refl)))
    ]
