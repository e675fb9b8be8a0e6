-- ===== src/Hyperliquid/UserFills/Sound.antt =====
-- The fill branches of the handler as a whole, from an item to the message.
use latentspeed.Prelude.{
  ℕ, suc, refl, Bool, false, not, ◌&&◌, ◌||◌, if◌then◌else◌, if_ind, Option-cases, inl, inr, ◌==◌,
}
use latentspeed.Prelude.Bytes.{Bytes, codes, str_eq, is_empty}
use latentspeed.Prelude.Assoc.{lookup}
use latentspeed.Json.{Items, Fields, nil, item, member, as_text, as_object}
use latentspeed.Hft.FlatMap.{find}
use latentspeed.Hft.FlatMap.Keys.{bytes_ord}
use latentspeed.Engine.Fills.{FillData}
use latentspeed.Hyperliquid.Ids.{Ids}
use latentspeed.Hyperliquid.Stream.{
  Env, Adapter, is_stale, both_seen, in_burst, maybe_trigger_event_driven_reconnect,
}
use latentspeed.Hyperliquid.Updates.{read_text}
use latentspeed.Hyperliquid.UserFills.{
  Channel, Run, returns, deadlock, read_fill, recent_entry, entry_matches, unattributed, with_ids,
  attribute, settle, handle_fill, handle_fills, stream_fills,
}
use latentspeed.Hyperliquid.UserFills.Laws.{IsSound, Unowned, Unowned-set_extra, settle-IsSound}

-- A property of what a call returns, if it does.
abbrev pub AllRun : {A : Type 0} → (A → Type 0) → Run A → Type 0
AllRun P deadlock = Unit
AllRun P (returns a) = P a

with_ids-Unowned :
    (ids : Ids) (fill : FillData) → Unowned fill.extra_data → Unowned (with_ids ids fill).extra_data
unfolding with_ids str_eq
with_ids-Unowned ids fill u = elim (Option-cases (lookup fill.exchange_order_id ids.oid_to_role)) [
  | inl e ↦ elim (Option-cases (lookup fill.exchange_order_id ids.oid_to_clientid)) [
    | inl g ↦ rw (with_ids, e, g) u
    | inr (id, g) ↦ rw (with_ids, e, g) u
  ]
  | inr (role, e) ↦ elim (Option-cases (lookup fill.exchange_order_id ids.oid_to_clientid)) [
    | inl g ↦ rw (with_ids, e, g) (Unowned-set_extra (codes "role") role _ refl u)
    | inr (id, g) ↦ rw (with_ids, e, g) (Unowned-set_extra (codes "role") role _ refl u)
  ]
]

attribute-Unowned :
    (env : Env) (channel : Channel) (now : ℕ) (coin : Bytes) (fill : FillData) (a : Adapter)
    → Unowned fill.extra_data
    → AllRun (λ f. Unowned f.extra_data) (attribute env channel now coin fill a)
unfolding attribute
attribute-Unowned env channel now coin fill a u =
    let known = with_ids a.ids fill in
    let u' = with_ids-Unowned a.ids fill u in
    let P : Run FillData → Type 0 = AllRun (λ f. Unowned f.extra_data) in
    let search = recent_entry now (entry_matches env channel coin known) a.recent_entries in
    if_ind P (is_empty fill.exchange_order_id) u (
      if_ind P (unattributed channel fill.exchange_order_id a.ids)
        (elim (Option-cases search) [
          | inl e ↦ rw e u'
          | inr (r, e) ↦ rw e (if_ind P (is_empty r.client_id) u' tt)
        ])
        u')

read_fill-Unowned : (env : Env) (f : Fields) → Unowned (read_fill env f).extra_data
unfolding read_fill find
read_fill-Unowned env f = (tt, refl)

-- What follows a call, if it returns.
abbrev pub bind_run : {A B : Type 0} → Run A → (A → Run B) → Run B
bind_run r f = elim r [ deadlock ↦ deadlock | returns x ↦ f x ]

AllRun-bind :
    {A B : Type 0}
    → (P : A → Type 0) (Q : B → Type 0) (r : Run A) (f : A → Run B) → AllRun P r
    → ((x : A) → P x → AllRun Q (f x))
    → AllRun Q (bind_run r f)
AllRun-bind P Q deadlock f h g = tt
AllRun-bind P Q (returns x) f h g = g x h

handle_fill-IsSound :
    (env : Env) (channel : Channel) (now : ℕ) (f : Fields) (a : Adapter)
    → IsSound env a
    → AllRun (λ r. IsSound env r.1) (handle_fill env channel now f a)
unfolding handle_fill
handle_fill-IsSound env channel now f a s =
    let fill = read_fill env f in
    let coin = read_text (as_text (member "coin" f)) in
    let u = attribute-Unowned env channel now coin fill a (read_fill-Unowned env f) in
    if_ind (AllRun (λ r. IsSound env r.1))
      (not (fill.timestamp_ms == 0) && is_stale env 5000 fill.timestamp_ms) s
      (AllRun-bind _ _ (attribute env channel now coin fill a)
        (λ known. returns (settle env known a)) u (λ known v. settle-IsSound env known a v s))

handle_fills-IsSound :
    (env : Env) (channel : Channel) (i : ℕ) (items : Items) (any : Bool) (a : Adapter)
    → IsSound env a
    → AllRun (λ r. IsSound env r.1) (handle_fills env channel i items any a)
unfolding handle_fills
handle_fills-IsSound env channel i nil any a s = s
handle_fills-IsSound env channel i (item v items) any a s = elim (Option-cases (as_object v)) [
  | inl e ↦ rw (handle_fills, e) (handle_fills-IsSound env channel (suc i) items (any || false) a s)
  | inr (f, e) ↦
      rw (handle_fills, e)
        (AllRun-bind _ _ (handle_fill env channel (env.fill_ms i) f a)
          (λ (emitted, a'). handle_fills env channel (suc i) items (any || emitted) a')
          (handle_fill-IsSound env channel (env.fill_ms i) f a s)
          (λ (emitted, a') h. handle_fills-IsSound env channel (suc i) items (any || emitted) a' h))
]

pub reconnect-IsSound :
    (env : Env) (a : Adapter)
    → IsSound env a
    → IsSound env (maybe_trigger_event_driven_reconnect env a)
unfolding maybe_trigger_event_driven_reconnect
reconnect-IsSound env a s =
    if_ind (IsSound env) (not env.enable_proactive_reconnect || (a.last_order_placement_ms == 0)) s
      (if_ind (IsSound env) (both_seen a && not (in_burst env.reconnect_ms a.last_private_event_ms))
        (record { windowed = s.windowed; intended = s.intended; covered = s.covered }) s)

pub stream_fills-IsSound :
    (env : Env) (channel : Channel) (items : Items) (a : Adapter)
    → IsSound env a
    → AllRun (IsSound env) (stream_fills env channel items a)
unfolding stream_fills
stream_fills-IsSound env channel items a s =
    AllRun-bind _ _ (handle_fills env channel 0 items false a)
      (λ (any, done).
        if any
        then returns (
            maybe_trigger_event_driven_reconnect env
              (record done { recon_last_seen_fill_ms = env.latch_ms }))
        else returns done)
      (handle_fills-IsSound env channel 0 items false a s)
      (λ (any, done) h.
        if_ind (AllRun (IsSound env)) any
          (reconnect-IsSound env (record done { recon_last_seen_fill_ms = env.latch_ms })
            (record { windowed = h.windowed; intended = h.intended; covered = h.covered }))
          h)
