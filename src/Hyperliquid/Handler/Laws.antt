-- ===== src/Hyperliquid/Handler/Laws.antt =====
-- Whole messages of the private stream.
use latentspeed.Prelude.{false, if_ind, Option-cases, inl, inr, [], ◌∷◌}
use latentspeed.Prelude.Bytes.{Bytes, one_of}
use latentspeed.Json.{
  Items, Fields, nil, item, member, as_bool, as_uint64, as_array, as_object, or_keep,
}
use latentspeed.Hyperliquid.Stream.{Env, Adapter}
use latentspeed.Hyperliquid.Updates.{is_replayed, handle_order, handle_orders, order_updates}
use latentspeed.Hyperliquid.UserFills.{Channel, user_events, user_fills}
use latentspeed.Hyperliquid.UserFills.Laws.{IsSound}
use latentspeed.Hyperliquid.UserFills.Sound.{AllRun, reconnect-IsSound, stream_fills-IsSound}
use latentspeed.Hyperliquid.Handler.{fills_of, stream_channel, handle_message}

handle_order-IsSound :
    (env : Env) (it : Fields) (a : Adapter) → IsSound env a → IsSound env (handle_order env it a)
unfolding handle_order
handle_order-IsSound env it a s =
    if_ind (IsSound env) (is_replayed env (as_uint64 (member "statusTimestamp" it)))
      (record { windowed = s.windowed; intended = s.intended; covered = s.covered })
      (record { windowed = s.windowed; intended = s.intended; covered = s.covered })

handle_orders-IsSound :
    (env : Env) (items : Items) (a : Adapter)
    → IsSound env a
    → IsSound env (handle_orders env items a)
unfolding handle_orders
handle_orders-IsSound env nil a s = s
handle_orders-IsSound env (item v items) a s = elim (Option-cases (as_object v)) [
  | inl e ↦ rw (handle_orders, e) (handle_orders-IsSound env items a s)
  | inr (it, e) ↦
      rw (handle_orders, e)
        (handle_orders-IsSound env items (handle_order env it a) (handle_order-IsSound env it a s))
]

order_updates-IsSound :
    (env : Env) (items : Items) (a : Adapter)
    → IsSound env a
    → IsSound env (order_updates env items a)
unfolding order_updates
order_updates-IsSound env items a s =
    let h = handle_orders-IsSound env items a s in
    reconnect-IsSound env _
      (record { windowed = h.windowed; intended = h.intended; covered = h.covered })

stream_channel-IsSound :
    (env : Env) (channel : Channel) (doc : Fields) (a : Adapter)
    → IsSound env a
    → AllRun (IsSound env) (stream_channel env channel doc a)
unfolding stream_channel
stream_channel-IsSound env channel doc a s = elim (Option-cases (fills_of doc)) [
  | inl e ↦ rw (stream_channel, e) s
  | inr (items, e) ↦ rw (stream_channel, e) (stream_fills-IsSound env channel items a s)
]

-- After any message of any channel, unless its handling blocks, the window of seen fills is
-- well-formed, and every fill that was passed on names an intent and is not newer than the
-- execution cursor.
pub handle_message-IsSound :
    (env : Env) (channel : Bytes) (doc : Fields) (a : Adapter)
    → IsSound env a
    → AllRun (IsSound env) (handle_message env channel doc a)
unfolding handle_message
handle_message-IsSound env channel doc a s =
    let P = AllRun (IsSound env) in
    let alive : Adapter = record a { last_private_event_ms = env.event_ms } in
    let q : IsSound env alive = record {
      windowed = s.windowed;
      intended = s.intended;
      covered = s.covered;
    } in
    let snapshot = or_keep (as_bool (member "isSnapshot" doc)) false in
    if_ind P (one_of channel ("user" ∷ []))
      (record { windowed = s.windowed; intended = s.intended; covered = s.covered })
      (if_ind P (one_of channel ("userFills" ∷ []))
        (stream_channel-IsSound env user_fills doc alive q)
        (if_ind P (one_of channel ("userEvents" ∷ []))
          (if_ind P snapshot q (stream_channel-IsSound env user_events doc alive q))
          (if_ind P (one_of channel ("orderUpdates" ∷ []))
            (if_ind P snapshot q (elim (Option-cases (as_array (member "data" doc))) [
              | inl e ↦ rw e q
              | inr (items, e) ↦ rw e (order_updates-IsSound env items alive q)
            ]))
            s)))
