-- ===== src/Prelude/Distinct.antt =====
-- Texts collected once each, in the order in which they first appear.
use Prim.Native.String.{String}
use mathlib.Core.Path.{◌≡◌, refl, ◌∙◌}
use mathlib.Core.Bool.{true, false, ◌||◌}
use mathlib.Core.List.{List, [], ◌∷◌, ◌++◌}
use mathlib.Core.Logic.{inl, inr}
use native.Mathlib.Omega.{arith}
use text.Mathlib.Text.{◌==◌ as str_eq}
use text.Mathlib.TextEquality.{eq_iff}
use servitor.Prelude.Tests.{if◌then◌else◌, Bool-cases}
use servitor.Prelude.Dict.{has, has-snoc}

-- if !seen[name] { seen[name] = true; out = append(out, name) }
unfoldable pub add_new : String → List String → List String
unfolding has
add_new name out = if has name out then out else out ++ name ∷ []

unfoldable pub add_each : List String → List String → List String
unfolding add_new
add_each [] out = out
add_each (name ∷ names) out = add_each names (add_new name out)

abbrev pub IsDistinct : List String → Type 0
IsDistinct [] = Unit
IsDistinct (x ∷ xs) = (has x xs ≡ false) × IsDistinct xs

str_eq-flip : (s t : String) → str_eq s t ≡ false → str_eq t s ≡ false
str_eq-flip s t h = ground (arith, eq_iff s t, eq_iff t s)

IsDistinct-snoc :
    (name : String) (out : List String)
    → IsDistinct out
    → has name out ≡ false
    → IsDistinct (out ++ name ∷ [])
unfolding has
IsDistinct-snoc name [] h new = (refl, tt)
IsDistinct-snoc name (x ∷ xs) h new = elim (Bool-cases (str_eq name x)) [
  | inl e ↦ let bad : true ≡ false = rw (has, e) at new in absurd cc
  | inr e ↦
      let later : has name xs ≡ false = rw (has, e) at new in
      (rw (has-snoc x name xs, h.0, str_eq-flip name x e) refl, IsDistinct-snoc name xs h.1 later)
]

add_new-IsDistinct :
    (name : String) (out : List String) → IsDistinct out → IsDistinct (add_new name out)
unfolding add_new
add_new-IsDistinct name out h = elim (Bool-cases (has name out)) [
  | inl e ↦ rw (add_new, e) h
  | inr e ↦ rw (add_new, e) (IsDistinct-snoc name out h e)
]

pub add_each-IsDistinct :
    (names out : List String) → IsDistinct out → IsDistinct (add_each names out)
unfolding add_each
add_each-IsDistinct [] out h = h
add_each-IsDistinct (name ∷ names) out h =
    add_each-IsDistinct names (add_new name out) (add_new-IsDistinct name out h)

has-add_new :
    (k name : String) (out : List String) → has k (add_new name out) ≡ (has k out || str_eq k name)
unfolding add_new
has-add_new k name out = elim (Bool-cases (has name out)) [
  | inl e ↦ rw (add_new, e) (ground (arith, e, eq_iff k name, present k name out e))
  | inr e ↦ rw (add_new, e) (has-snoc k name out)
]
  where
    present :
        (k name : String) (out : List String)
        → has name out ≡ true
        → str_eq k name ≡ true
        → has k out ≡ true
    present k name out h e = let same = (eq_iff k name).0 e in rw same h

pub has-add_each :
    (k : String) (names out : List String) → has k (add_each names out) ≡ (has k out || has k names)
unfolding add_each has
has-add_each k [] out = ground arith
has-add_each k (name ∷ names) out =
    has-add_each k names (add_new name out) ∙ ground (arith, has-add_new k name out)
