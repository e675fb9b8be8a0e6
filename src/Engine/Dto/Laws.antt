-- ===== src/Engine/Dto/Laws.antt =====
-- The maps of an order message: what each key holds.
use latentspeed.Prelude.{
  ◌≡◌, refl, sym, ap, ◌∙◌, Bool, true, false, Option, none, some, if◌then◌else◌, Option-cases, inl,
  inr,
}
use latentspeed.Prelude.Bytes.{Bytes, str_eq, c_str}
use latentspeed.Json.{Fields, end, field}
use latentspeed.Hft.FlatMap.{find}
use latentspeed.Hft.FlatMap.Keys.{bytes_ord}
use latentspeed.Hft.FlatMap.Spec.{IsSorted}
use latentspeed.Hft.FlatMap.Laws.{put-IsSorted, find-put}
use latentspeed.Engine.Types.{Tags}
use latentspeed.Engine.Dto.{Numbers, primitive, collect_object_primitives}

abbrev pub or_before : Option Bytes → Option Bytes → Option Bytes
or_before (some s) o = some s
or_before none o = o

-- The text of the last member of that name that is a string, a number or a Boolean.
unfoldable pub last_primitive : Numbers → Bytes → Fields → Option Bytes
unfolding primitive
last_primitive lib k end = none
last_primitive lib k (field j v fs) =
    or_before (last_primitive lib k fs) (if str_eq (c_str j) k then primitive lib v else none)

or_before_assoc : (o p q : Option Bytes) → or_before o (or_before p q) ≡ or_before (or_before o p) q
or_before_assoc none p q = refl
or_before_assoc (some s) p q = refl

or_before-if :
    (b : Bool) (p q : Option Bytes)
    → or_before (if b then p else none) q ≡ (if b then or_before p q else q)
or_before-if true p q = refl
or_before-if false p q = refl

if_same : (b : Bool) (q : Option Bytes) → (if b then q else q) ≡ q
if_same true q = refl
if_same false q = refl

-- The map that is made of an object is sorted, and a key holds the text of its last member that is
-- a string, a number or a Boolean, or without one what the map held before.
pub collect_lem :
    (lib : Numbers) (fs : Fields) (out : Tags) (k : Bytes)
    → IsSorted out
    → IsSorted (collect_object_primitives lib fs out)
      × (find k (collect_object_primitives lib fs out)
          ≡ or_before (last_primitive lib k fs) (find k out))
unfolding collect_object_primitives last_primitive
collect_lem lib end out k s = (s, refl)
collect_lem lib (field j v fs) out k s =
    let same = str_eq (c_str j) k in
    let o = last_primitive lib k fs in
    elim (Option-cases (primitive lib v)) [
      | inl e ↦
          let (sorted, found) = collect_lem lib fs out k s in
          rw (collect_object_primitives, last_primitive, e)
            (
              sorted,
              found
                  ∙ ap (or_before o) (sym (or_before-if same none _ ∙ if_same same _))
                  ∙ or_before_assoc o (if same then none else none) _,
            )
      | inr (t, e) ↦
          let (sorted, found) = collect_lem lib fs _ k (put-IsSorted (c_str j) t out s) in
          rw (collect_object_primitives, last_primitive, e)
            (
              sorted,
              found
                  ∙ ap (or_before o)
                      (find-put (c_str j) k t out s ∙ sym (or_before-if same (some t) _))
                  ∙ or_before_assoc o (if same then some t else none) _,
            )
    ]
