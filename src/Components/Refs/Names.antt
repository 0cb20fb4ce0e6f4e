-- ===== src/Components/Refs/Names.antt =====
-- The cuts that internal/components/refs/refs.go makes in a template: nothing is lost by them, and
-- what is left to scan is shorter.
use Prim.Native.Char.{Char}
use text.Mathlib.TextEquality.{Char-path}
use text.Mathlib.TextLemmas.{cons-append, nil-append}
use servitor.Prelude.{String, none, some, ◌≡◌, refl, ◌≤◌, ◌<◌, ◌<>◌, arith, length, codes}
use servitor.Components.Refs.{before_dollar, after_dollar, name_of, past_name}

dollar : Char
dollar = "$"

pub before_dollar-none : (s : String) → after_dollar s ≡ none → before_dollar s ≡ s
unfolding before_dollar after_dollar
before_dollar-none String.[] h = refl
before_dollar-none (String.◌∷◌ c s) h = ground (arith, before_dollar-none s)

pub name_of-append : (s : String) → name_of s <> past_name s ≡ s
unfolding name_of past_name
name_of-append String.[] = nil-append ""
name_of-append (String.◌∷◌ c s) =
    ground (
      arith,
      name_of-append s,
      cons-append c (name_of s) (past_name s),
      nil-append (String.◌∷◌ c s),
    )

pub count-past_name : (s : String) → length (codes (past_name s)) ≤ length (codes s)
unfolding past_name
count-past_name String.[] = omega arith
count-past_name (String.◌∷◌ c s) = ground (arith, count-past_name s)

pub count-after_dollar :
    (s after : String) → after_dollar s ≡ some after → length (codes after) < length (codes s)
unfolding after_dollar
count-after_dollar String.[] after h = cc
count-after_dollar (String.◌∷◌ c s) after h = ground (arith, count-after_dollar s after)

pub before_dollar-append :
    (s after : String) → after_dollar s ≡ some after → before_dollar s <> ("$" <> after) ≡ s
unfolding before_dollar after_dollar dollar
before_dollar-append String.[] after h = cc
before_dollar-append (String.◌∷◌ c s) after h = ground (
  arith,
  before_dollar-append s after,
  cons-append c (before_dollar s) ("$" <> after),
  nil-append ("$" <> after),
  cons-append c "" s,
  nil-append s,
  nil-append after,
  cons-append dollar "" after,
  Char-path c dollar,
)
