-- ===== src/Bookmark/Tests.antt =====
-- Tries the bookmarks.
use logtailr.Base.{
  ℕ, zero, suc, String, ◌≡◌, refl, ap, Bool, true, false, Option, none, some, [], ◌∷◌,
  if◌then◌else◌, str_eq, eq_iff, arith,
}
use logtailr.Base.Dict.{Dict, put, remove}
use logtailr.Base.Int.{ℤ, pos, negsuc}
use logtailr.Base.Space.{byte_length}
use logtailr.Base.Result.{Result, ok, err}
use logtailr.Bookmark.{
  Bookmark, Encoding, Disk, Answers, not_renamed, invalid_name, name_pattern, validate_name,
  read_all, load, save, delete,
}
use logtailr.Bookmark.Kept.{IsReadAgain, load-save, bookmarks-save}

abbrev start_of : String → Bookmark
start_of file = record { file = file; offset = pos 0; inode = 0; saved_at = 0 }

-- An encoder of one bookmark of the name "a" that is at the start of its file, by the file; it refuses
-- every other.
marshal_one : String → String → ℤ → ℕ → ℕ → Result String String
marshal_one k file (pos zero) zero zero =
    if str_eq k "a" then (if str_eq file "" then err "file" else ok file) else err "name"
marshal_one k file (pos zero) zero (suc t) = err "time"
marshal_one k file (pos zero) (suc i) t = err "inode"
marshal_one k file (pos (suc n)) i t = err "offset"
marshal_one k file (negsuc n) i t = err "offset"

marshal : Dict Bookmark → Result String String
unfolding marshal_one
marshal [] = ok ""
marshal ((k, bm) ∷ []) = marshal_one k bm.file bm.offset bm.inode bm.saved_at
marshal (b ∷ c ∷ all) = err "more than one"

unmarshal : String → Result String (Option (Dict Bookmark))
unmarshal text = ok (some (if str_eq text "" then [] else ("a", start_of text) ∷ []))

abbrev encoding : Encoding
encoding = record { Error = String; marshal = marshal; unmarshal = unmarshal }

first_of : Bool → Bool → String → Result String String
first_of named is_empty file =
    if named then (if is_empty then err "file" else ok file) else err "name"

first_of_ok :
    (named is_empty : Bool) (file text : String)
    → first_of named is_empty file ≡ ok text
    → (named ≡ true) × (is_empty ≡ false) × (file ≡ text)
unfolding first_of
first_of_ok true true file text h = ground arith
first_of_ok true false file text h = ground arith
first_of_ok false is_empty file text h = ground arith

one_again :
    (k file text : String) (offset : ℤ) (inode saved_at : ℕ)
    → marshal_one k file offset inode saved_at ≡ ok text
    → IsReadAgain encoding
        ((k, record { file = file; offset = offset; inode = inode; saved_at = saved_at }) ∷ [])
        text
unfolding marshal_one unmarshal first_of
one_again k file text (pos zero) zero zero h =
    let (named, filled, e) = first_of_ok (str_eq k "a") (str_eq file "") file text h in
    let filled' : str_eq text "" ≡ false = rw (← e) filled in
    (
      ("a", start_of text) ∷ [],
      ap (λ b. ok (some (if b then [] else ("a", start_of text) ∷ []))) filled',
      λ x. rw ((eq_iff k "a").0 named, e) refl,
    )
one_again k file text (pos zero) zero (suc t) h = ground arith
one_again k file text (pos zero) (suc i) t h = ground arith
one_again k file text (pos (suc n)) i t h = ground arith
one_again k file text (negsuc n) i t h = ground arith

again :
    (all : Dict Bookmark) (text : String) → marshal all ≡ ok text → IsReadAgain encoding all text
unfolding marshal unmarshal
again [] text h = let e : "" ≡ text = ground arith in ([], rw (← e) refl, λ x. refl)
again ((k, bm) ∷ []) text h = one_again k bm.file text bm.offset bm.inode bm.saved_at h
again (b ∷ c ∷ all) text h = ground arith

abbrev works : Answers
works = record { read_fails = false; short_write = none; rename_fails = false }

abbrev disk : Disk
disk = record { bookmarks = none; temporary = none }

abbrev kept : Disk
kept = record { bookmarks = some "app.log"; temporary = none }

names :
    (validate_name encoding "app:1" ≡ ok tt) × (validate_name encoding "../etc" ≡ err invalid_name)
unfolding validate_name name_pattern byte_length
names = (refl, refl)

saved : save encoding works "a" (start_of "app.log") disk ≡ (none, kept)
unfolding save validate_name name_pattern byte_length read_all marshal marshal_one put
saved = refl

deleted : (delete encoding works "a" kept).0 ≡ none
unfolding delete validate_name name_pattern byte_length read_all marshal unmarshal remove
deleted = refl

refused :
    (save encoding (record works { rename_fails = true }) "a" (start_of "app.log") disk).0
    ≡ some not_renamed
unfolding save validate_name name_pattern byte_length read_all marshal marshal_one put
refused = refl

load-save_example :
    load encoding false "a" (save encoding works "a" (start_of "app.log") disk).1
    ≡ ok (start_of "app.log")
load-save_example =
    load-save encoding works "a" "a" (start_of "app.log") disk again (ap (λ r. r.0) saved)

bookmarks-save_example :
    (save encoding (record works { rename_fails = true }) "a" (start_of "app.log") disk).1.bookmarks
    ≡ none
bookmarks-save_example =
    bookmarks-save encoding (record works { rename_fails = true }) "a" (start_of "app.log") disk
      not_renamed refused
