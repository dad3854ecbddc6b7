-- ===== src/Base/Space.antt =====
-- Go's `strings.TrimSpace`, and the length of a text in bytes.
use Prim.Native.Char.{Char, code}
use Prim.Native.Nat.{ℕ, ◌+◌}
use Prim.Native.String.{String, [] as empty, ◌∷◌ as ◌⊲◌}
use mathlib.Core.Bool.{Bool, false, ◌&&◌, ◌||◌}
use text.Mathlib.Text.{◌==◌ as str_eq}
use logtailr.Base.Tests.{◌==◌, ltb, leb, if◌then◌else◌}

unfoldable pub between : ℕ → ℕ → ℕ → Bool
between a b n = leb a n && leb n b

-- unicode.IsSpace
is_space : Char → Bool
unfolding between
is_space c =
    between 9 13 (code c)
    || code c == 32
    || code c == 133
    || code c == 160
    || code c == 5760
    || between 8192 8202 (code c)
    || between 8232 8233 (code c)
    || code c == 8239
    || code c == 8287
    || code c == 12288

trim_left : String → String
unfolding is_space
trim_left empty = empty
trim_left (c ⊲ s) = let rest = trim_left s in if is_space c then rest else c ⊲ s

trim_right : String → String
unfolding is_space
trim_right empty = empty
trim_right (c ⊲ s) =
    let rest = trim_right s in if is_space c && str_eq rest "" then empty else c ⊲ rest

-- strings.TrimSpace
unfoldable pub trim_space : String → String
unfolding trim_left trim_right
trim_space s = trim_right (trim_left s)

-- the bytes of a letter in UTF-8
char_bytes : Char → ℕ
char_bytes c =
    if ltb (code c) 128
    then 1
    else (if ltb (code c) 2048 then 2 else (if ltb (code c) 65536 then 3 else 4))

-- len(s)
unfoldable pub byte_length : String → ℕ
unfolding char_bytes
byte_length empty = 0
byte_length (c ⊲ s) = char_bytes c + byte_length s

-- s[strings.IndexByte(s, c):], for a letter that is in the text
unfoldable pub from_first : Char → String → String
from_first d empty = empty
from_first d (c ⊲ s) = let rest = from_first d s in if code c == code d then c ⊲ s else rest

-- strings.Contains of a single letter
unfoldable pub has_letter : Char → String → Bool
has_letter d empty = false
has_letter d (c ⊲ s) = code c == code d || has_letter d s
