-- ===== src/Hyperliquid/Updates/Laws.antt =====
-- The statuses of the venue on their way through the adapter to the engine, and replayed updates.
use Prim.Native.String.{String}
use latentspeed.Prelude.{
  ℕ, ◌≡◌, refl, sym, ◌∙◌, List, [], ◌∷◌, Bool, true, false, Bool-cases, none, some, inl, inr, leb,
  length, ◌==◌, ◌&&◌, ◌-◌, ◌⊎◌, subst,
}
use latentspeed.Prelude.Bytes.{
  Bytes, codes, str_eq, one_of, one_of_ind, AllWords, starts_with, to_lower, rfind, or_npos,
}
use latentspeed.Hft.FlatMap.{find}
use latentspeed.Hft.FlatMap.Keys.{bytes_ord}
use latentspeed.Engine.Types.{fixed, Engine, Env as EngineEnv}
use latentspeed.Engine.Text.{normalize_report_status, is_terminal_status}
use latentspeed.Engine.Update.{OrderUpdate, on_order_update, update_tracked}
use latentspeed.Hyperliquid.Updates.{map_status}

-- A status that the engine takes for a confirmation, or does not know.
abbrev IsQuiet : Bytes → Type 0
IsQuiet status =
    (normalize_report_status status ≡ none)
    ⊎ (normalize_report_status status ≡ some (codes "accepted"))

quiet_update :
    (env : EngineEnv) (u : OrderUpdate) (e : Engine) (idx : ℕ)
    → IsQuiet u.status
    → find (fixed 64 u.client_order_id) e.pending ≡ some idx
    → on_order_update env u e ≡ e
unfolding on_order_update update_tracked str_eq
quiet_update env u e idx (inl h) at = rw (on_order_update, at, update_tracked, h) refl
quiet_update env u e idx (inr h) at = rw (on_order_update, at, update_tracked, h) refl

-- The venue's statuses open, triggered, filled and partially_filled change nothing for an order
-- that the engine tracks: what the adapter makes of them is a confirmation, left to the fills, or,
-- for a partial fill, a word that the engine does not know.
pub quiet_statuses :
    (env : EngineEnv) (st : Bytes) (u : OrderUpdate) (e : Engine) (idx : ℕ)
    → one_of st ("open" ∷ "triggered" ∷ "filled" ∷ "partially_filled" ∷ []) ≡ true
    → u.status ≡ (map_status st).0
    → find (fixed 64 u.client_order_id) e.pending ≡ some idx
    → on_order_update env u e ≡ e
unfolding map_status normalize_report_status one_of str_eq to_lower
quiet_statuses env st u e idx known same =
    let quiet : IsQuiet (map_status st).0 =
      one_of_ind (λ w. IsQuiet (map_status w).0) st
        ("open" ∷ "triggered" ∷ "filled" ∷ "partially_filled" ∷ [])
        (inr refl, (inr refl, (inr refl, (inl refl, tt)))) known in
    quiet_update env u e idx (subst IsQuiet (sym same) quiet)

-- The test of a text for the ending Rejected.
abbrev pub ends_rejected : Bytes → Bool
ends_rejected st = leb 8 (length st) && (or_npos (rfind (codes "Rejected") st) == length st - 8)

false_ne_true : false ≡ true → ⊥
false_ne_true h = cc

-- A text with that ending is none of the words without it.
not_word :
    (ws : List String) (st : Bytes)
    → AllWords (λ w. ends_rejected w ≡ false) ws
    → ends_rejected st ≡ true
    → one_of st ws ≡ false
not_word ws st plain h = elim (Bool-cases (one_of st ws)) [
  | inr e ↦ e
  | inl e ↦
      absurd (false_ne_true (sym (one_of_ind (λ w. ends_rejected w ≡ false) st ws plain e) ∙ h))
]

-- The engine reports a cancellation for each of the venue's four, and a rejection with the venue's
-- word as its reason for each word with the ending Rejected; both end the order.
ending_statuses :
    (st : Bytes)
    → (one_of st ("canceled" ∷ "cancelled" ∷ "marginCanceled" ∷ "scheduledCancel" ∷ []) ≡ true
        → (normalize_report_status (map_status st).0 ≡ some (codes "canceled"))
          × (is_terminal_status (map_status st).0 ≡ true))
      × (ends_rejected st ≡ true
          → (normalize_report_status (map_status st).0 ≡ some (codes "rejected"))
            × (is_terminal_status (map_status st).0 ≡ true)
            × ((map_status st).1 ≡ st))
unfolding map_status normalize_report_status is_terminal_status one_of str_eq to_lower rfind
    starts_with
ending_statuses st = (
  one_of_ind
      (λ w.
        (normalize_report_status (map_status w).0 ≡ some (codes "canceled"))
        × (is_terminal_status (map_status w).0 ≡ true))
      st ("canceled" ∷ "cancelled" ∷ "marginCanceled" ∷ "scheduledCancel" ∷ [])
      ((refl, refl), ((refl, refl), ((refl, refl), ((refl, refl), tt)))),
  λ h.
      rw
        (
          map_status,
          not_word ("open" ∷ []) st (refl, tt) h,
          not_word ("filled" ∷ []) st (refl, tt) h,
          not_word ("partially_filled" ∷ []) st (refl, tt) h,
          not_word ("canceled" ∷ "cancelled" ∷ "marginCanceled" ∷ "scheduledCancel" ∷ []) st
              (refl, (refl, (refl, (refl, tt)))) h,
          not_word ("triggered" ∷ []) st (refl, tt) h,
          not_word ("rejected" ∷ []) st (refl, tt) h,
          h,
        )
        (refl, refl, refl),
)
