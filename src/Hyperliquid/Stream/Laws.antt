-- ===== src/Hyperliquid/Stream/Laws.antt =====
-- maybe_trigger_event_driven_reconnect_: when the subscription is closed.
use latentspeed.Prelude.{
  ℕ, suc, Bool, false, ◌≤◌, ◌<◌, ◌≡◌, refl, Bool-cases, inl, inr, ◌⊎◌, true, not, ◌||◌, ◌==◌, arith,
}
use latentspeed.Hyperliquid.Stream.{
  Env, Adapter, both_seen, in_burst, maybe_trigger_event_driven_reconnect,
}

both_seen-le :
    (a : Adapter)
    → both_seen a ≡ true
    → (a.last_order_placement_ms ≤ a.recon_last_seen_fill_ms)
      × (a.last_order_placement_ms ≤ a.recon_last_seen_update_ms)
unfolding both_seen
both_seen-le a h = ground arith

disarmed :
    (env : Env) (a : Adapter)
    → a.last_order_placement_ms ≡ 0
    → maybe_trigger_event_driven_reconnect env a ≡ a
unfolding maybe_trigger_event_driven_reconnect
disarmed env a h =
    let off : not env.enable_proactive_reconnect || (a.last_order_placement_ms == 0) ≡ true =
      rw h (or_true (not env.enable_proactive_reconnect)) in
    rw (maybe_trigger_event_driven_reconnect, off) refl
  where
    or_true : (b : Bool) → b || true ≡ true
    or_true true = refl
    or_true false = refl

-- The times of the last event, fill and update and the cursor, as later messages leave them.
abbrev pub heard : ℕ → ℕ → ℕ → ℕ → Adapter → Adapter
heard event fill update cursor a = record a {
  last_private_event_ms = event;
  recon_last_seen_fill_ms = fill;
  recon_last_seen_update_ms = update;
  last_exec_time_cursor_ms = cursor;
}

-- The subscription is closed only after a placement of which both a fill and an update were seen
-- since, and once for a placement: whatever events, fills and updates are seen afterwards
-- before the next placement, a further call does nothing.
pub reconnect_lem :
    (env later : Env) (a : Adapter) (event fill update cursor : ℕ)
    → (maybe_trigger_event_driven_reconnect env a ≡ a)
      ⊎ (((maybe_trigger_event_driven_reconnect env a).closings ≡ suc a.closings)
          × (0 < a.last_order_placement_ms)
          × (a.last_order_placement_ms ≤ a.recon_last_seen_fill_ms)
          × (a.last_order_placement_ms ≤ a.recon_last_seen_update_ms)
          × (maybe_trigger_event_driven_reconnect later
                (heard event fill update cursor (maybe_trigger_event_driven_reconnect env a))
              ≡ heard event fill update cursor (maybe_trigger_event_driven_reconnect env a)))
unfolding maybe_trigger_event_driven_reconnect
reconnect_lem env later a event fill update cursor =
    elim (Bool-cases (not env.enable_proactive_reconnect || (a.last_order_placement_ms == 0))) [
      | inl e ↦ rw (maybe_trigger_event_driven_reconnect, e) (inl refl)
      | inr e ↦ elim (Bool-cases (both_seen a)) [
        | inr g ↦ rw (maybe_trigger_event_driven_reconnect, e, g) (inl refl)
        | inl g ↦ elim (Bool-cases (in_burst env.reconnect_ms a.last_private_event_ms)) [
          | inl h ↦ rw (maybe_trigger_event_driven_reconnect, e, g, h) (inl refl)
          | inr h ↦
              let (at_fill, at_update) = both_seen-le a g in
              rw (maybe_trigger_event_driven_reconnect, e, g, h)
                (inr (refl, ground (arith, e), at_fill, at_update, disarmed later _ refl))
        ]
      ]
    ]
