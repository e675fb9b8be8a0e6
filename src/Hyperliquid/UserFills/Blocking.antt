-- ===== src/Hyperliquid/UserFills/Blocking.antt =====
-- Which fills make the handler wait for the mutex of the id maps that it holds itself.
use latentspeed.Prelude.{
  ℕ, suc, ◌+◌, ◌-◌, ◌<◌, ◌≡◌, refl, sym, subst, List, [], ◌∷◌, Bool, true, false, not, ◌&&◌, ◌||◌,
  none, some, if◌then◌else◌, if_ind, Option-cases, inl, inr, ◌==◌, All, arith, ltb,
}
use latentspeed.Prelude.Bytes.{Bytes, codes, is_empty, is_some}
use latentspeed.Json.{Items, Fields, nil, item, object, member, as_text, as_object}
use latentspeed.Hft.FlatMap.{find}
use latentspeed.Hft.FlatMap.Keys.{bytes_ord}
use latentspeed.Engine.Fills.{FillData}
use latentspeed.Hyperliquid.Dedupe.{see}
use latentspeed.Hyperliquid.Stream.{
  Env, Adapter, RecentEntry, is_stale, both_seen, in_burst, maybe_advance_exec_cursor,
  maybe_trigger_event_driven_reconnect,
}
use latentspeed.Hyperliquid.Updates.{read_text}
use latentspeed.Hyperliquid.UserFills.{
  Channel, Run, returns, deadlock, read_fill, recent_entry, entry_matches, unattributed, with_ids,
  attribute, with_parent, complete_fill, dedup_key, emit, settle, handle_fill, handle_fills,
  stream_fills,
}
use latentspeed.Hyperliquid.UserFills.Sound.{bind_run}

-- A fill that is not replayed, whose order id lacks its client id, or on userEvents its role, and
-- that is taken for a recent order with a client id, blocks the handler, so that no later item of
-- the message is handled.
pub stream_fills-deadlock :
    (env : Env) (channel : Channel) (f : Fields) (items : Items) (a : Adapter) (r : RecentEntry)
    → is_stale env 5000 (read_fill env f).timestamp_ms ≡ false
    → is_empty (read_fill env f).exchange_order_id ≡ false
    → unattributed channel (read_fill env f).exchange_order_id a.ids ≡ true
    → recent_entry
        (env.fill_ms 0)
        (entry_matches env channel
          (read_text (as_text (member "coin" f)))
          (with_ids a.ids (read_fill env f)))
        a.recent_entries
      ≡ some r
    → is_empty r.client_id ≡ false
    → stream_fills env channel (item (object f) items) a ≡ deadlock
unfolding stream_fills handle_fills handle_fill attribute
stream_fills-deadlock env channel f items a r fresh oid unknown found id =
    let fill = read_fill env f in
    let blocked : attribute env channel (env.fill_ms 0) (read_text (as_text (member "coin" f))) fill
          a
        ≡ deadlock =
      rw (attribute, oid, unknown, found, id) refl in
    let first : not (fill.timestamp_ms == 0) && is_stale env 5000 fill.timestamp_ms ≡ false =
      ground (arith, fresh) in
    let stop : handle_fill env channel (env.fill_ms 0) f a ≡ deadlock =
      rw (handle_fill, first, blocked) refl in
    rw (stream_fills, handle_fills, stop) refl

-- The call returns, with something that satisfies `P`.
abbrev Ends : {A : Type 0} → (A → Type 0) → Run A → Type 0
Ends P deadlock = ⊥
Ends P (returns x) = P x

Ends-bind :
    {A B : Type 0}
    → (P : A → Type 0) (Q : B → Type 0) (r : Run A) (f : A → Run B) → Ends P r
    → ((x : A) → P x → Ends Q (f x))
    → Ends Q (bind_run r f)
Ends-bind P Q deadlock f h g = absurd h
Ends-bind P Q (returns x) f h g = g x h

Ends-witness :
    {A : Type 0} → (P : A → Type 0) (r : Run A) → Ends P r → (x : A) × (r ≡ returns x) × P x
Ends-witness P deadlock h = absurd h
Ends-witness P (returns x) h = (x, refl, h)

-- The recent orders are all of more than ten seconds ago at every reading of the clock.
abbrev pub Quiet : Env → Adapter → Type 0
Quiet env a = (i : ℕ) → All (λ r. r.ts_ms + 10000 < env.fill_ms i) a.recent_entries

recent_entry-none :
    (now : ℕ) (matches : RecentEntry → Bool) (rs : List RecentEntry)
    → All (λ r. r.ts_ms + 10000 < now) rs
    → recent_entry now matches rs ≡ none
unfolding recent_entry
recent_entry-none now matches [] h = refl
recent_entry-none now matches (r ∷ rs) h =
    let old : ltb r.ts_ms now && ltb 10000 (now - r.ts_ms) ≡ true = ground (arith, h.0) in
    rw (recent_entry, old) refl

advance-recent :
    (ts : ℕ) (a : Adapter) → (maybe_advance_exec_cursor ts a).recent_entries ≡ a.recent_entries
unfolding maybe_advance_exec_cursor
advance-recent ts a =
    if_ind (λ (b : Adapter). b.recent_entries ≡ a.recent_entries) (ts == 0) refl
      (if_ind (λ (b : Adapter). b.recent_entries ≡ a.recent_entries)
        (ltb a.last_exec_time_cursor_ms ts) refl refl)

settle-recent :
    (env : Env) (fill : FillData) (a : Adapter)
    → (settle env fill a).1.recent_entries ≡ a.recent_entries
unfolding settle emit
settle-recent env fill a =
    let owned = with_parent a.ids fill in
    let last = complete_fill owned in
    let (seen, window) = see env.dedup_limit (dedup_key env last) a.window in
    let P : Bool × Adapter → Type 0 = λ b. b.1.recent_entries ≡ a.recent_entries in
    if_ind P (is_some (find (codes "intent") owned.extra_data))
      (if_ind P seen refl (advance-recent last.timestamp_ms _)) refl

attribute-Ends :
    (env : Env) (channel : Channel) (i : ℕ) (coin : Bytes) (fill : FillData) (a : Adapter)
    → Quiet env a
    → Ends (λ f. Unit {0}) (attribute env channel (env.fill_ms i) coin fill a)
unfolding attribute
attribute-Ends env channel i coin fill a quiet =
    let known = with_ids a.ids fill in
    let none_found =
      recent_entry-none (env.fill_ms i) (entry_matches env channel coin known) _ (quiet i) in
    let P : Run FillData → Type 0 = Ends (λ f. Unit {0}) in
    if_ind P (is_empty fill.exchange_order_id) tt
      (if_ind P (unattributed channel fill.exchange_order_id a.ids) (rw none_found tt) tt)

Quiet-settle :
    (env : Env) (fill : FillData) (a : Adapter) → Quiet env a → Quiet env (settle env fill a).1
Quiet-settle env fill a quiet i =
    subst (All (λ r. r.ts_ms + 10000 < env.fill_ms i)) (sym (settle-recent env fill a)) (quiet i)

handle_fill-Ends :
    (env : Env) (channel : Channel) (i : ℕ) (f : Fields) (a : Adapter)
    → Quiet env a
    → Ends (λ r. Quiet env r.1) (handle_fill env channel (env.fill_ms i) f a)
unfolding handle_fill
handle_fill-Ends env channel i f a quiet =
    let fill = read_fill env f in
    let coin = read_text (as_text (member "coin" f)) in
    if_ind (Ends (λ r. Quiet env r.1))
      (not (fill.timestamp_ms == 0) && is_stale env 5000 fill.timestamp_ms) quiet
      (Ends-bind _ _ (attribute env channel (env.fill_ms i) coin fill a)
        (λ known. returns (settle env known a)) (attribute-Ends env channel i coin fill a quiet)
        (λ known h. Quiet-settle env known a quiet))

handle_fills-Ends :
    (env : Env) (channel : Channel) (i : ℕ) (items : Items) (any : Bool) (a : Adapter)
    → Quiet env a
    → Ends (λ r. Quiet env r.1) (handle_fills env channel i items any a)
unfolding handle_fills
handle_fills-Ends env channel i nil any a quiet = quiet
handle_fills-Ends env channel i (item v items) any a quiet = elim (Option-cases (as_object v)) [
  | inl e ↦
      rw (handle_fills, e) (handle_fills-Ends env channel (suc i) items (any || false) a quiet)
  | inr (f, e) ↦
      rw (handle_fills, e)
        (Ends-bind _ _ (handle_fill env channel (env.fill_ms i) f a)
          (λ (emitted, a'). handle_fills env channel (suc i) items (any || emitted) a')
          (handle_fill-Ends env channel i f a quiet)
          (λ (emitted, a') h. handle_fills-Ends env channel (suc i) items (any || emitted) a' h))
]

Quiet-reconnect :
    (env : Env) (a : Adapter) → Quiet env a → Quiet env (maybe_trigger_event_driven_reconnect env a)
unfolding maybe_trigger_event_driven_reconnect
Quiet-reconnect env a quiet =
    if_ind (Quiet env) (not env.enable_proactive_reconnect || (a.last_order_placement_ms == 0))
      quiet
      (if_ind (Quiet env) (both_seen a && not (in_burst env.reconnect_ms a.last_private_event_ms))
        quiet quiet)

stream_fills-Ends :
    (env : Env) (channel : Channel) (items : Items) (a : Adapter)
    → Quiet env a
    → Ends (Quiet env) (stream_fills env channel items a)
unfolding stream_fills
stream_fills-Ends env channel items a quiet =
    Ends-bind _ _ (handle_fills env channel 0 items false a)
      (λ (any, done).
        if any
        then returns (
            maybe_trigger_event_driven_reconnect env
              (record done { recon_last_seen_fill_ms = env.latch_ms }))
        else returns done)
      (handle_fills-Ends env channel 0 items false a quiet)
      (λ (any, done) h. if_ind (Ends (Quiet env)) any (Quiet-reconnect env _ h) h)

-- Where no recent order is of the last ten seconds, every message of fills is handled to its end.
pub stream_fills-returns :
    (env : Env) (channel : Channel) (items : Items) (a : Adapter)
    → Quiet env a
    → (last : Adapter) × (stream_fills env channel items a ≡ returns last) × Quiet env last
stream_fills-returns env channel items a quiet =
    Ends-witness (Quiet env) (stream_fills env channel items a)
      (stream_fills-Ends env channel items a quiet)
