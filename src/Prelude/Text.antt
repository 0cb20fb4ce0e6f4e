-- ===== src/Prelude/Text.antt =====
-- Texts as Go builds them: concatenation, strconv.Itoa, strings.Join, and the code points of a text.
use Prim.Native.Nat.{ℕ, zero, suc, ◌/◌, ◌%◌}
use Prim.Native.Char.{Char, code}
use Prim.Native.String.{String, ◌++◌}
use mathlib.Core.List.{List, [], ◌∷◌}
use mathlib.Core.Option.{Option, none, some}
use servitor.Prelude.Tests.{◌==◌, ltb, if◌then◌else◌}
use mathlib.Core.Bool.{◌||◌}
use servitor.Prelude.Lists.{get_or}

infixl 65 ◌<>◌
abbrev pub ◌<>◌ : String → String → String
s <> t = s ++ t

abbrev digits : List String
digits = "0" ∷ "1" ∷ "2" ∷ "3" ∷ "4" ∷ "5" ∷ "6" ∷ "7" ∷ "8" ∷ "9" ∷ []

-- Each round takes one decimal digit off `n`: `suc n` rounds are enough.
itoa_from : ℕ → ℕ → String → String
itoa_from zero n out = out
itoa_from (suc fuel) n out =
    let next = get_or digits (n % 10) "" <> out in
    let rest = itoa_from fuel (n / 10) next in if n / 10 == 0 then next else rest

unfoldable pub itoa : ℕ → String
unfolding itoa_from
itoa n = itoa_from (suc n) n ""

unfoldable pub join : List String → String → String
join [] sep = ""
join (s ∷ []) sep = s
join (s ∷ t ∷ rest) sep = s <> sep <> join (t ∷ rest) sep

-- The code points of a text ([]rune of a Go string).
abbrev pub codes : String → List ℕ
codes String.[] = []
codes (String.◌∷◌ c s) = code c ∷ codes s

abbrev hex_digits : List String
hex_digits =
    "0" ∷ "1" ∷ "2" ∷ "3" ∷ "4" ∷ "5" ∷ "6" ∷ "7" ∷ "8" ∷ "9" ∷ "a" ∷ "b" ∷ "c" ∷ "d" ∷ "e" ∷ "f"
    ∷ []

-- `%q` of package fmt, with every character above U+007F taken as printable: the tables of package
-- unicode are left out.
quoted_char : Char → String
quoted_char c =
    if code c == b'"'
    then "\\\""
    else if code c == b'\\'
    then "\\\\"
    else if code c == 7
    then "\\a"
    else if code c == 8
    then "\\b"
    else if code c == 12
    then "\\f"
    else if code c == 10
    then "\\n"
    else if code c == 13
    then "\\r"
    else if code c == 9
    then "\\t"
    else if code c == 11
    then "\\v"
    else if ltb (code c) 32 || code c == 127
    then "\\x" ++ get_or hex_digits (code c / 16) "" ++ get_or hex_digits (code c % 16) ""
    else String.◌∷◌ c ""

quoted_chars : String → String
unfolding quoted_char
quoted_chars String.[] = ""
quoted_chars (String.◌∷◌ c s) = quoted_char c ++ quoted_chars s

unfoldable pub quote : String → String
unfolding quoted_chars
quote s = "\"" ++ quoted_chars s ++ "\""

-- What follows a prefix, `none` where the text does not begin with it.
unfoldable pub cut_prefix : String → String → Option String
cut_prefix String.[] s = some s
cut_prefix (String.◌∷◌ c p) String.[] = none
cut_prefix (String.◌∷◌ c p) (String.◌∷◌ d s) =
    let rest = cut_prefix p s in if code c == code d then rest else none
