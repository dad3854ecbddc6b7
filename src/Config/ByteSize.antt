-- ===== src/Config/ByteSize.antt =====
-- internal/config/config.go: ParseByteSize.
pub mod Overflow
use Prim.Native.Char.{Char, code}
use Prim.Native.String.{[] as empty, ◌∷◌ as ◌⊲◌}
use logtailr.Base.{
  ℕ, zero, suc, ◌+◌, ◌*◌, ◌-◌, ◌^◌, ◌≤◌, ◌<◌, ◌≡◌, refl, String, Bool, true, false, not, ◌||◌, ◌&&◌,
  ◌==◌, Option, none, some, List, [], ◌∷◌, ltb, leb, if◌then◌else◌, str_eq, arith,
}
use logtailr.Base.Text.{to_upper, decimal}
use logtailr.Base.Space.{between, trim_space}
use logtailr.Base.Int.{ℤ, pos, negsuc, leb_ℤ, ◌≤ℤ◌, to_int64, pos_part}
use logtailr.Base.Result.{Result, ok, err}

pub data SizeError : Type 0 where
  empty_size : SizeError
  invalid_number : String → SizeError
  invalid_size : String → SizeError
  not_positive : SizeError

prepend : Char → Option String → Option String
prepend c none = none
prepend c (some s) = some (c ⊲ s)

-- strings.CutSuffix
unfoldable pub cut_suffix : String → String → Option String
unfolding prepend
cut_suffix empty suffix = if str_eq suffix "" then some empty else none
cut_suffix (c ⊲ s) suffix =
    let rest = prepend c (cut_suffix s suffix) in if str_eq (c ⊲ s) suffix then some empty else rest

-- the number that decimal digits stand for
digits_from : ℕ → String → Option ℕ
unfolding between
digits_from acc empty = some acc
digits_from acc (c ⊲ s) =
    let rest = digits_from (acc * 10 + (code c - 48)) s in
    if between 48 57 (code c) then rest else none

-- `n` is what `%d` reads and it is printed as the text
canonical : ℕ → String → Option ℕ → Option ℕ
canonical bound s none = none
canonical bound s (some n) = if leb n bound && str_eq (decimal n) s then some n else none

negated : Option ℕ → Option ℤ
negated none = none
negated (some zero) = none
negated (some (suc n)) = some (negsuc n)

positive : Option ℕ → Option ℤ
positive none = none
positive (some n) = some (pos n)

-- the int64 that `Sscanf` reads, where `Sprintf` prints it as the text again
unfoldable pub read_int : String → Option ℤ
unfolding digits_from canonical negated positive decimal
read_int empty = none
read_int (c ⊲ s) =
    if code c == 45
    then negated (canonical (2 ^ 63) s (digits_from 0 s))
    else positive (canonical (2 ^ 63 - 1) (c ⊲ s) (digits_from 0 (c ⊲ s)))

-- the number of a size and its factor, by the first suffix that it has
first_cut : String → List (String × ℕ) → Option (String × ℕ)
unfolding cut_suffix
first_cut s [] = none
first_cut s ((suffix, mult) ∷ rest) =
    let later = first_cut s rest in
    elim (cut_suffix s suffix) [ none ↦ later | some num ↦ some (num, mult) ]

unfoldable pub cut_size : String → Option (String × ℕ)
unfolding first_cut
cut_size s =
    first_cut s (("GB", 1024 * 1024 * 1024) ∷ ("MB", 1024 * 1024) ∷ ("KB", 1024) ∷ ("B", 1) ∷ [])

-- the product is an int64
sized : SizeError → Option ℤ → ℕ → Result SizeError ℤ
unfolding to_int64
sized e none mult = err e
sized e (some n) mult =
    if leb_ℤ n (pos 0) then err not_positive else ok (to_int64 (pos_part n * mult))

by_suffix : String → Option (String × ℕ) → Result SizeError ℤ
unfolding sized read_int trim_space
by_suffix s (some (num, mult)) =
    let n = trim_space num in sized (invalid_number n) (read_int n) mult
by_suffix s none = sized (invalid_size s) (read_int s) 1

-- ParseByteSize
unfoldable pub parse_byte_size : String → Result SizeError ℤ
unfolding by_suffix cut_size trim_space
parse_byte_size text =
    let s = trim_space text in
    let upper = to_upper s in
    if str_eq s "" then err empty_size else by_suffix upper (cut_size upper)

with_factor : Option ℤ → ℕ → Option (ℤ × ℕ)
with_factor none mult = none
with_factor (some n) mult = some (n, mult)

written_by : String → Option (String × ℕ) → Option (ℤ × ℕ)
unfolding with_factor read_int trim_space
written_by s none = with_factor (read_int s) 1
written_by s (some (num, mult)) = with_factor (read_int (trim_space num)) mult

-- the size that a text writes, exactly: a number and its factor
unfoldable pub written_size : String → Option (ℤ × ℕ)
unfolding cut_size written_by trim_space
written_size text = let upper = to_upper (trim_space text) in written_by upper (cut_size upper)

tests :
    (parse_byte_size " 10mb " ≡ ok (pos 10485760))
    × (parse_byte_size "07KB" ≡ err (invalid_number "07"))
    × (parse_byte_size "-5" ≡ err not_positive)
    × (parse_byte_size "8589934592GB" ≡ ok (negsuc 9223372036854775807))
unfolding parse_byte_size to_upper decimal
tests = (refl, refl, refl, refl)
