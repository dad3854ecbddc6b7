-- ===== src/Config/ByteSize/Overflow.antt =====
-- internal/config/config.go: which sizes ParseByteSize reads as they are written.
use logtailr.Base.{
  ℕ, ◌*◌, ◌^◌, ◌≤◌, ◌<◌, ◌≡◌, refl, ◌∙◌, ap, String, Option, none, some, if◌then◌else◌, str_eq,
  arith, Bool-cases, inl, inr, eq_iff,
}
use logtailr.Base.Text.{to_upper}
use logtailr.Base.Int.{ℤ, pos, leb_ℤ, ◌≤ℤ◌, to_int64, pos_part}
use logtailr.Base.Result.{Result, ok, err}
use logtailr.Config.ByteSize.{
  SizeError, not_positive, invalid_number, invalid_size, empty_size, cut_size, read_int, trim_space,
  sized, by_suffix, parse_byte_size, with_factor, written_by, written_size,
}

size_value : ℤ → ℕ → Result SizeError ℤ
size_value n mult = if leb_ℤ n (pos 0) then err not_positive else ok (to_int64 (pos_part n * mult))

of_written : Option (ℤ × ℕ) → Result SizeError ℤ
unfolding size_value
of_written none = err empty_size
of_written (some (n, mult)) = size_value n mult

sized_lem :
    (e : SizeError) (o : Option ℤ) (m : ℕ) (n : ℤ) (mult : ℕ)
    → with_factor o m ≡ some (n, mult)
    → sized e o m ≡ size_value n mult
unfolding with_factor sized size_value of_written
sized_lem e none m n mult h = ground arith
sized_lem e (some k) m n mult h = ap (λ o. of_written o) h

by_suffix_lem :
    (s : String) (cut : Option (String × ℕ)) (n : ℤ) (mult : ℕ)
    → written_by s cut ≡ some (n, mult)
    → by_suffix s cut ≡ size_value n mult
unfolding by_suffix written_by
by_suffix_lem s none n mult h = sized_lem (invalid_size s) (read_int s) 1 n mult h
by_suffix_lem s (some (num, m)) n mult h =
    let t = trim_space num in sized_lem (invalid_number t) (read_int t) m n mult h

-- the text "" writes no size
blank : (text : String) → trim_space text ≡ "" → written_size text ≡ none
unfolding written_size written_by with_factor to_upper cut_size read_int
blank text h = rw h refl

parse_byte_size_lem :
    (text : String) (n : ℤ) (mult : ℕ)
    → written_size text ≡ some (n, mult)
    → parse_byte_size text ≡ size_value n mult
unfolding parse_byte_size written_size
parse_byte_size_lem text n mult h =
    let upper = to_upper (trim_space text) in
    elim (Bool-cases (str_eq (trim_space text) "")) [
      | inl b ↦ let no = blank text ((eq_iff (trim_space text) "").0 b) in ground (arith, no)
      | inr b ↦ rw b (by_suffix_lem upper (cut_size upper) n mult h)
    ]

to_int64_small : (n : ℕ) → n < 2 ^ 63 → to_int64 n ≡ pos n
unfolding to_int64
to_int64_small n h = ground arith

to_int64_large : (n : ℕ) → 2 ^ 63 ≤ n → n ≤ 2 ^ 64 → to_int64 n ≤ℤ pos 0
unfolding to_int64
to_int64_large n low high = ground arith

size_value-pos : (n mult : ℕ) → 1 ≤ n → size_value (pos n) mult ≡ ok (to_int64 (n * mult))
unfolding size_value
size_value-pos n mult h = ground arith

-- A size whose number of bytes fits an int64 is read exactly.
pub parse_byte_size-exact :
    (text : String) (n mult : ℕ)
    → written_size text ≡ some (pos n, mult)
    → 1 ≤ n
    → n * mult < 2 ^ 63
    → parse_byte_size text ≡ ok (pos (n * mult))
unfolding size_value
parse_byte_size-exact text n mult h low fits =
    parse_byte_size_lem text (pos n) mult h
    ∙ size_value-pos n mult low
    ∙ ap ok (to_int64_small (n * mult) fits)

-- A size of at least 2^63 and at most 2^64 bytes is accepted, with a value that is not positive.
pub parse_byte_size-overflow :
    (text : String) (n mult : ℕ)
    → written_size text ≡ some (pos n, mult)
    → 1 ≤ n
    → 2 ^ 63 ≤ n * mult
    → n * mult ≤ 2 ^ 64
    → (parse_byte_size text ≡ ok (to_int64 (n * mult))) × (to_int64 (n * mult) ≤ℤ pos 0)
unfolding size_value
parse_byte_size-overflow text n mult h one low high = (
  parse_byte_size_lem text (pos n) mult h ∙ size_value-pos n mult one,
  to_int64_large (n * mult) low high,
)
