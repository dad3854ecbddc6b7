-- ===== src/Bookmark.antt =====
-- internal/bookmark/bookmark.go: the places in files that are kept under names.
mod Kept
mod Tests
use Prim.Native.Char.{Char, code}
use Prim.Native.String.{[] as empty, ◌∷◌ as ◌⊲◌}
use logtailr.Base.{
  ℕ, String, Bool, true, false, not, ◌&&◌, ◌||◌, ◌==◌, Option, none, some, [], ltb, leb,
  if◌then◌else◌, str_eq,
}
use logtailr.Base.Dict.{Dict, get, put, remove}
use logtailr.Base.Int.{ℤ}
use logtailr.Base.Space.{byte_length, between}
use logtailr.Base.Result.{Result, ok, err}

pub record Bookmark : Type 0 where
  pub file : String
  pub offset : ℤ
  pub inode : ℕ
  pub saved_at : ℕ

-- What the manager calls of `encoding/json`. The decoder gives no map for the text "null".
pub record Encoding : Type 1 where
  pub Error : Type 0
  pub marshal : Dict Bookmark → Result Error String
  pub unmarshal : String → Result Error (Option (Dict Bookmark))

-- The two files of a manager, where they exist: the one of its `path` and the temporary one.
pub record Disk : Type 0 where
  pub bookmarks : Option String
  pub temporary : Option String

-- What the operating system answers: the failures, and the part of a text that is written where the
-- writing fails.
pub record Answers : Type 0 where
  pub read_fails : Bool
  pub short_write : Option String
  pub rename_fails : Bool

pub data BookmarkError (E : Type 0) : Type 0 where
  empty_name : BookmarkError E
  name_too_long : BookmarkError E
  invalid_name : BookmarkError E
  not_found : BookmarkError E
  not_read : BookmarkError E
  not_parsed : E → BookmarkError E
  not_marshalled : E → BookmarkError E
  not_written : BookmarkError E
  not_renamed : BookmarkError E

is_alphanumeric : Char → Bool
unfolding between
is_alphanumeric c = between 97 122 (code c) || between 65 90 (code c) || between 48 57 (code c)

-- one of . _ : @ -
is_mark : Char → Bool
is_mark c = code c == 46 || code c == 95 || code c == 58 || code c == 64 || code c == 45

all_allowed : String → Bool
unfolding is_alphanumeric is_mark
all_allowed empty = true
all_allowed (c ⊲ s) = (is_alphanumeric c || is_mark c) && all_allowed s

-- namePattern.MatchString
unfoldable pub name_pattern : String → Bool
unfolding all_allowed is_alphanumeric
name_pattern empty = false
name_pattern (c ⊲ s) = is_alphanumeric c && all_allowed s

module _ (enc : Encoding) where
  open enc use {Error, marshal, unmarshal}

  -- ValidateName
  unfoldable pub validate_name : String → Result (BookmarkError Error) Unit
  unfolding name_pattern byte_length
  validate_name name =
      if str_eq name ""
      then err empty_name
      else (if ltb 256 (byte_length name)
          then err name_too_long
          else (if not (name_pattern name) then err invalid_name else ok tt))

  unfoldable pub parsed :
      Result Error (Option (Dict Bookmark)) → Result (BookmarkError Error) (Dict Bookmark)
  parsed (err e) = err (not_parsed e)
  parsed (ok none) = ok []
  parsed (ok (some all)) = ok all

  unfoldable pub content : Option String → Result (BookmarkError Error) (Dict Bookmark)
  unfolding parsed
  content none = ok []
  content (some text) = parsed (unmarshal text)

  -- readAll
  unfoldable pub read_all : Bool → Disk → Result (BookmarkError Error) (Dict Bookmark)
  unfolding content
  read_all fails disk = if fails then err not_read else content disk.bookmarks

  unfoldable pub found : Option Bookmark → Result (BookmarkError Error) Bookmark
  found none = err not_found
  found (some bm) = ok bm

  unfoldable pub loaded :
      String
      → Result (BookmarkError Error) Unit
      → Result (BookmarkError Error) (Dict Bookmark)
      → Result (BookmarkError Error) Bookmark
  unfolding found
  loaded name (err e) all = err e
  loaded name (ok _) (err e) = err e
  loaded name (ok _) (ok all) = found (get all name)

  -- Load
  unfoldable pub load : Bool → String → Disk → Result (BookmarkError Error) Bookmark
  unfolding loaded validate_name read_all
  load fails name disk = loaded name (validate_name name) (read_all fails disk)

  abbrev pub Step : Type 0
  Step = Option (BookmarkError Error) × Disk

  unfoldable pub written : Option String → Bool → Result Error String → Disk → Step
  written part rename_fails (err e) disk = (some (not_marshalled e), disk)
  written (some part) rename_fails (ok text) disk =
      (some not_written, record disk { temporary = some part })
  written none true (ok text) disk = (some not_renamed, record disk { temporary = none })
  written none false (ok text) disk = (none, record { bookmarks = some text; temporary = none })

  -- writeAll
  unfoldable pub write_all : Answers → Dict Bookmark → Disk → Step
  unfolding written
  write_all a all disk = written a.short_write a.rename_fails (marshal all) disk

  -- a change of the bookmarks, of a name that was checked
  unfoldable pub changed :
      Answers
      → (Dict Bookmark → Dict Bookmark)
      → Result (BookmarkError Error) Unit
      → Result (BookmarkError Error) (Dict Bookmark)
      → Disk
      → Step
  unfolding write_all
  changed a change (err e) all disk = (some e, disk)
  changed a change (ok _) (err e) disk = (some e, disk)
  changed a change (ok _) (ok all) disk = write_all a (change all) disk

  -- Save
  unfoldable pub save : Answers → String → Bookmark → Disk → Step
  unfolding changed validate_name read_all
  save a name bm disk =
      changed a (λ all. put all name bm) (validate_name name) (read_all a.read_fails disk) disk

  -- Delete
  unfoldable pub delete : Answers → String → Disk → Step
  unfolding changed validate_name read_all
  delete a name disk =
      changed a (λ all. remove all name) (validate_name name) (read_all a.read_fails disk) disk
