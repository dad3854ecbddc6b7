-- ===== src/Base/Text.antt =====
-- What the program uses of Go's `strings` and `fmt`: the cases of letters, and decimal numbers.
-- Of the letters outside ASCII only those two are mapped whose lower case is ASCII, U+0130 and
-- U+212A: no other can make a text equal to one of the program's ASCII keys.
use Prim.Native.Nat.{ℕ, zero, suc, ◌+◌, ◌/◌, ◌%◌}
use Prim.Native.Char.{Char, code}
use Prim.Native.String.{String, [], ◌∷◌}
use mathlib.Core.Path.{◌≡◌, refl}
use mathlib.Core.List.{List}
use mathlib.Core.Bool.{Bool, true, false, ◌&&◌}
use logtailr.Base.Tests.{◌==◌, ltb, if◌then◌else◌}

abbrev letters : String → List (ℕ × Char)
letters [] = List.[]
letters (c ∷ s) = List.◌∷◌ (code c, c) (letters s)

-- the letter that stands for a code point in a list of pairs, or the letter itself
recase : ℕ → List (ℕ × Char) → Char → Char
recase n List.[] c = c
recase n (List.◌∷◌ (m, d) rest) c = if m == n then d else recase n rest c

lower_letters : List (ℕ × Char)
lower_letters = List.◌∷◌ (304, "i") (List.◌∷◌ (8490, "k") (letters "abcdefghijklmnopqrstuvwxyz"))

-- `recase` finds a lower-case letter by the code of its capital, 32 below
lower_char : Char → Char
unfolding recase lower_letters
lower_char c =
    if ltb (code c) 91
    then (if ltb 64 (code c) then recase (code c + 32) lower_letters c else c)
    else (if ltb 127 (code c) then recase (code c) lower_letters c else c)

capitals : ℕ → String → List (ℕ × Char)
capitals n [] = List.[]
capitals n (c ∷ s) = List.◌∷◌ (n, c) (capitals (n + 1) s)

upper_char : Char → Char
unfolding recase capitals
upper_char c =
    if ltb 96 (code c) && ltb (code c) 123
    then recase (code c) (capitals 97 "ABCDEFGHIJKLMNOPQRSTUVWXYZ") c
    else c

-- strings.ToLower
unfoldable pub to_lower : String → String
unfolding lower_char
to_lower [] = []
to_lower (c ∷ s) = lower_char c ∷ to_lower s

-- strings.ToUpper
unfoldable pub to_upper : String → String
unfolding upper_char
to_upper [] = []
to_upper (c ∷ s) = upper_char c ∷ to_upper s

-- strings.HasPrefix
unfoldable pub has_prefix : String → String → Bool
has_prefix s [] = true
has_prefix [] (d ∷ p) = false
has_prefix (c ∷ s) (d ∷ p) = code c == code d && has_prefix s p

digit : ℕ → Char
digit zero = "0"
digit (suc zero) = "1"
digit (suc (suc zero)) = "2"
digit (suc (suc (suc zero))) = "3"
digit (suc (suc (suc (suc zero)))) = "4"
digit (suc (suc (suc (suc (suc zero))))) = "5"
digit (suc (suc (suc (suc (suc (suc zero)))))) = "6"
digit (suc (suc (suc (suc (suc (suc (suc zero))))))) = "7"
digit (suc (suc (suc (suc (suc (suc (suc (suc zero)))))))) = "8"
digit _ = "9"

decimal_from : ℕ → ℕ → String → String
decimal_from zero n acc = acc
decimal_from (suc fuel) n acc =
    let longer = decimal_from fuel (n / 10) (digit (n % 10) ∷ acc) in
    if ltb n 10 then digit n ∷ acc else longer

-- `%d` of a number that is not negative; a number has fewer digits than `n + 1`
unfoldable pub decimal : ℕ → String
unfolding decimal_from digit
decimal n = decimal_from (n + 1) n []

cases : (to_lower "Error42é" ≡ "error42é") × (to_upper "warn_é" ≡ "WARN_é")
unfolding to_lower to_upper
cases = (refl, refl)

decimals : (decimal 0 ≡ "0") × (decimal 90210 ≡ "90210")
unfolding decimal
decimals = (refl, refl)
