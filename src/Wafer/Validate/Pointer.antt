-- ===== src/Wafer/Validate/Pointer.antt =====
-- ptr of internal/wafer/validate.go: one more segment of a JSON Pointer (RFC 6901).
use Prim.Native.Char.{code}
use servitor.Prelude.{ℕ, String, str_eq, ◌==◌, if◌then◌else◌, ◌<>◌}

-- strings.ReplaceAll of a text of one character.
unfoldable pub replace_all : ℕ → String → String → String
replace_all old new String.[] = ""
replace_all old new (String.◌∷◌ c s) =
    let rest = replace_all old new s in if code c == old then new <> rest else String.◌∷◌ c rest

unfoldable pub escape : String → String
unfolding replace_all
escape segment = replace_all b'/' "~1" (replace_all b'~' "~0" segment)

unfoldable pub ptr : String → String → String
unfolding escape
ptr base segment = if str_eq base "" then "/" <> escape segment else base <> "/" <> escape segment
