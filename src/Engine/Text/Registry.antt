-- ===== src/Engine/Text/Registry.antt =====
-- VenueRouter: which adapter a venue has after a registration.
use latentspeed.Prelude.{
  ◌≡◌, refl, sym, ap, ◌∙◌, false, Option, none, some, if◌then◌else◌, Bool-cases, Option-cases, inl,
  inr,
}
use latentspeed.Prelude.Bytes.{Bytes, str_eq, str_eq_iff}
use latentspeed.Engine.Types.{Router, Adapter}
use latentspeed.Engine.Text.{get_adapter, register_adapter}

abbrev pub or_else : Option Adapter → Option Adapter → Option Adapter
or_else (some a) b = some a
or_else none b = b

or_else-none : (o : Option Adapter) → or_else o none ≡ o
or_else-none none = refl
or_else-none (some a) = refl

-- A name that the router knows is not that of a venue that it does not know.
other_name :
    (name venue : Bytes) (r : Router) (b : Adapter)
    → get_adapter name r ≡ some b
    → get_adapter venue r ≡ none
    → str_eq name venue ≡ false
other_name name venue r b h g = elim (Bool-cases (str_eq name venue)) [
  | inr e ↦ e
  | inl e ↦
      let same = (str_eq_iff name venue).0 e in
      let clash : none ≡ some b = sym g ∙ sym (ap (λ v. get_adapter v r) same) ∙ h in
      absurd (none_ne_some b clash)
]
  where
    none_ne_some : (x : Adapter) → ◌≡◌ {A = Option Adapter} none (some x) → ⊥
    none_ne_some x e = cc

-- The first adapter that is registered under a name stays; a later one under that name is dropped,
-- and no other venue is affected.
register_adapter_lem :
    (a : Adapter) (r : Router) (venue : Bytes)
    → get_adapter venue (register_adapter a r)
      ≡ or_else (get_adapter venue r) (if str_eq a.exchange_name venue then some a else none)
unfolding get_adapter register_adapter
register_adapter_lem a r venue = elim (Option-cases (get_adapter a.exchange_name r)) [
  | inr (b, h) ↦
      rw (register_adapter, h)
        (elim (Option-cases (get_adapter venue r)) [
          | inr (c, g) ↦ rw g refl
          | inl g ↦ rw (g, other_name a.exchange_name venue r b h g) refl
        ])
  | inl h ↦ elim (Bool-cases (str_eq a.exchange_name venue)) [
    | inl e ↦
        let same = (str_eq_iff a.exchange_name venue).0 e in
        let unknown = sym (ap (λ v. get_adapter v r) same) ∙ h in
        rw (register_adapter, h, e, unknown) refl
    | inr e ↦ rw (register_adapter, h, e) (sym (or_else-none (get_adapter venue r)))
  ]
]
