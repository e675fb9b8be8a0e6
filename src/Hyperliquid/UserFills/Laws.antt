-- ===== src/Hyperliquid/UserFills/Laws.antt =====
-- What the fill branches of the handler leave behind.
use latentspeed.Prelude.{
  ℕ, ◌≤◌, ◌≡◌, refl, sym, ap, ◌∙◌, subst, ◌∷◌, Bool, true, false, not, Option, none, some,
  if◌then◌else◌, if_ind, Bool-cases, inl, inr, All, All-mono, arith, ltb, ◌==◌,
}
use latentspeed.Prelude.Bytes.{Bytes, codes, str_eq, is_empty, is_some}
use latentspeed.Hft.FlatMap.{find}
use latentspeed.Hft.FlatMap.Keys.{bytes_ord}
use latentspeed.Hft.FlatMap.Spec.{IsSorted}
use latentspeed.Hft.FlatMap.Laws.{put-IsSorted, find-put}
use latentspeed.Engine.Types.{Tags}
use latentspeed.Engine.Fills.{FillData, has_intent}
use latentspeed.Hyperliquid.Ids.{Ids, parent_for_client_id}
use latentspeed.Hyperliquid.Dedupe.{see}
use latentspeed.Hyperliquid.Dedupe.Laws.{IsWindow, see-IsWindow}
use latentspeed.Hyperliquid.Stream.{Env, Adapter, maybe_advance_exec_cursor}
use latentspeed.Hyperliquid.Updates.{set_extra}
use latentspeed.Hyperliquid.UserFills.{with_parent, complete_fill, dedup_key, emit, settle}

-- The window is well-formed, and each fill that was emitted names an intent and is not newer than
-- the execution cursor.
pub record IsSound (env : Env) (a : Adapter) : Type 0 where
  pub windowed : IsWindow env.dedup_limit a.window
  pub intended : All (λ f. has_intent f ≡ true) a.fills
  pub covered : All (λ f. f.timestamp_ms ≤ a.last_exec_time_cursor_ms) a.fills

cursor-le :
    (ts : ℕ) (a : Adapter)
    → (a.last_exec_time_cursor_ms ≤ (maybe_advance_exec_cursor ts a).last_exec_time_cursor_ms)
      × (ts ≤ (maybe_advance_exec_cursor ts a).last_exec_time_cursor_ms)
unfolding maybe_advance_exec_cursor
cursor-le ts a = elim (Bool-cases (ts == 0)) [
  | inl e ↦ rw (e, maybe_advance_exec_cursor) (ground arith)
  | inr e ↦ elim (Bool-cases (ltb a.last_exec_time_cursor_ms ts)) [
    | inl g ↦ rw (e, g, maybe_advance_exec_cursor) (ground arith)
    | inr g ↦ rw (e, g, maybe_advance_exec_cursor) (ground arith)
  ]
]

cursor-same :
    (ts : ℕ) (a : Adapter)
    → ((maybe_advance_exec_cursor ts a).window ≡ a.window)
      × ((maybe_advance_exec_cursor ts a).fills ≡ a.fills)
unfolding maybe_advance_exec_cursor
cursor-same ts a =
    if_ind (λ (b : Adapter). (b.window ≡ a.window) × (b.fills ≡ a.fills)) (ts == 0) (refl, refl)
      (if_ind (λ (b : Adapter). (b.window ≡ a.window) × (b.fills ≡ a.fills))
        (ltb a.last_exec_time_cursor_ms ts) (refl, refl) (refl, refl))

emit-IsSound :
    (env : Env) (fill : FillData) (a : Adapter)
    → has_intent fill ≡ true
    → IsSound env a
    → IsSound env (emit env fill a).1
unfolding emit
emit-IsSound env fill a named s =
    let window = see-IsWindow env.dedup_limit (dedup_key env fill) a.window s.windowed in
    elim (Bool-cases (see env.dedup_limit (dedup_key env fill) a.window).0) [
      | inl e ↦
          rw (emit, e) (record { windowed = window; intended = s.intended; covered = s.covered })
      | inr e ↦
          let looked = record a {
            window = (see env.dedup_limit (dedup_key env fill) a.window).1;
          } in
          let pushed : Adapter = record looked { fills = fill ∷ looked.fills } in
          let (same_window, same_fills) = cursor-same fill.timestamp_ms pushed in
          let (up, reached) = cursor-le fill.timestamp_ms pushed in
          let last = maybe_advance_exec_cursor fill.timestamp_ms pushed in
          rw (emit, e)
            (record {
              windowed = subst (IsWindow env.dedup_limit) (sym same_window) window;
              intended = subst (All _) (sym same_fills) (named, s.intended);
              covered =
                  subst (All (λ f. f.timestamp_ms ≤ last.last_exec_time_cursor_ms)) (sym same_fills)
                    (reached, All-mono _ _ a.fills (λ f h. omega arith) s.covered);
            })
    ]

find-set_extra :
    (k i v : Bytes) (m : Tags)
    → IsSorted m
    → find i (set_extra k v m) ≡ (if str_eq k i then some v else find i m)
unfolding set_extra
find-set_extra k i v m s = find-put k i v m s

set_extra-IsSorted : (k v : Bytes) (m : Tags) → IsSorted m → IsSorted (set_extra k v m)
unfolding set_extra
set_extra-IsSorted k v m s = put-IsSorted k v m s

abbrev flag : Option Bytes → Bool
flag o = elim o [ none ↦ false | some v ↦ not (is_empty v) ]

intent-complete_fill :
    (fill : FillData)
    → IsSorted fill.extra_data
    → find (codes "intent") (complete_fill fill).extra_data ≡ find (codes "intent") fill.extra_data
unfolding complete_fill str_eq
intent-complete_fill fill s = elim (Bool-cases (is_empty fill.side)) [
  | inl e ↦ rw (complete_fill, e) refl
  | inr e ↦
      rw (complete_fill, e)
        (find-set_extra (codes "side") (codes "intent") fill.side fill.extra_data s)
]

-- The tags before the intent is known hold none.
abbrev pub Unowned : Tags → Type 0
Unowned m = IsSorted m × (find (codes "intent") m ≡ none)

pub Unowned-set_extra :
    (k v : Bytes) (m : Tags)
    → str_eq k (codes "intent") ≡ false
    → Unowned m
    → Unowned (set_extra k v m)
Unowned-set_extra k v m ne (s, absent) =
    (set_extra-IsSorted k v m s, find-set_extra k (codes "intent") v m s ∙ rw ne absent)

false_ne_true : false ≡ true → ⊥
false_ne_true h = cc

-- With a parent's intent the fill has it, and without one it has none.
intent-with_parent :
    (ids : Ids) (fill : FillData)
    → Unowned fill.extra_data
    → IsSorted (with_parent ids fill).extra_data
      × (is_some (find (codes "intent") (with_parent ids fill).extra_data) ≡ true
          → has_intent (with_parent ids fill) ≡ true)
unfolding with_parent str_eq
intent-with_parent ids fill u =
    let child = fill.client_order_id in
    let intent = parent_for_client_id child ids in
    let named =
      if is_empty child
      then fill.extra_data
      else set_extra (codes "child_id") child fill.extra_data in
    let v : Unowned named =
      if_ind Unowned (is_empty child) u (Unowned-set_extra (codes "child_id") child _ refl u) in
    elim (Bool-cases (is_empty intent)) [
      | inl e ↦ rw (with_parent, e) (v.0, λ h. absurd (false_ne_true (sym (ap is_some v.1) ∙ h)))
      | inr e ↦
          rw (with_parent, e)
            (
              set_extra-IsSorted (codes "intent") intent named v.0,
              λ h.
                  ap flag (find-set_extra (codes "intent") (codes "intent") intent named v.0)
                  ∙ rw e refl,
            )
    ]

pub settle-IsSound :
    (env : Env) (fill : FillData) (a : Adapter)
    → Unowned fill.extra_data
    → IsSound env a
    → IsSound env (settle env fill a).1
unfolding settle
settle-IsSound env fill a u s =
    let owned = with_parent a.ids fill in
    let (sorted, has) = intent-with_parent a.ids fill u in
    elim (Bool-cases (is_some (find (codes "intent") owned.extra_data))) [
      | inr e ↦ rw (settle, e) s
      | inl e ↦
          rw (settle, e)
            (emit-IsSound env (complete_fill owned) a
              (ap flag (intent-complete_fill owned sorted) ∙ has e) s)
    ]
