-- ===== src/Output/File.antt =====
-- internal/output/file_writer.go: the writer to a file that is rotated by its size.
mod Kept
mod Sized
mod Failed
mod Tests
use logtailr.Base.{
  ℕ, ◌+◌, String, Bool, true, false, not, ◌&&◌, ◌||◌, Option, none, some, List, [], ◌∷◌, ◌++◌,
  length, ltb, if◌then◌else◌, ◌≡◌, refl, str_eq,
}
use logtailr.Base.Dict.{Dict, get, put, remove}
use logtailr.Base.Int.{ℤ, pos, ltb_ℤ}
use logtailr.Base.Text.{to_upper, has_prefix}
use logtailr.Base.Space.{byte_length}
use logtailr.Base.Result.{Result, ok, err}
use logtailr.Logline.{LogLine}
use logtailr.Aggregator.{◌⊕◌}

-- The files by their paths, each with the texts that were written to it. No other program writes them.
abbrev pub Disk : Type 0
Disk = Dict (List String)

-- `is_open`: the handle `file` can be written and closed
pub record FileWriter : Type 0 where
  pub path : String
  pub is_open : Bool
  pub size : ℕ
  pub max_size : ℤ
  pub max_age : ℤ
  pub compress : Bool

pub data FileError : Type 0 where
  not_closed : FileError
  not_renamed : FileError
  not_opened : FileError
  not_written : FileError
  no_directory : FileError
  not_resolved : FileError
  no_stat : FileError

-- What the operating system answers while one line is written: the failures, the part of the text that
-- reaches the file where a write fails, and the time as the name of a rotated file has it.
pub record Answers : Type 0 where
  pub close_fails : Bool
  pub rename_fails : Bool
  pub open_fails : Bool
  pub short_write : Option String
  pub stamp : String

pub data FileOption : Type 0 where
  with_max_size : ℤ → FileOption
  with_max_age : ℤ → FileOption
  with_compress : FileOption

unfoldable pub apply_option : FileOption → FileWriter → FileWriter
apply_option (with_max_size bytes) fw = record fw { max_size = bytes }
apply_option (with_max_age d) fw = record fw { max_age = d }
apply_option with_compress fw = record fw { compress = true }

unfoldable pub apply_options : List FileOption → FileWriter → FileWriter
unfolding apply_option
apply_options [] fw = fw
apply_options (o ∷ os) fw = apply_options os (apply_option o fw)

-- the texts of a file, none where there is no file
abbrev pub texts_of : Option (List String) → List String
texts_of none = []
texts_of (some texts) = texts

-- the bytes of a file
unfoldable pub bytes_of : List String → ℕ
unfolding byte_length
bytes_of [] = 0
bytes_of (text ∷ texts) = byte_length text + bytes_of texts

unfoldable pub with_path :
    Option String → Bool → Bool → Bool → List FileOption → Disk → Result FileError FileWriter × Disk
unfolding apply_options bytes_of
with_path none dir_missing open_fails stat_fails opts disk = (err not_resolved, disk)
with_path (some path) dir_missing open_fails stat_fails opts disk =
    let texts = texts_of (get disk path) in
    let fw : FileWriter = record {
      path = path;
      is_open = true;
      size = bytes_of texts;
      max_size = pos 0;
      max_age = pos 0;
      compress = false;
    } in
    if dir_missing
    then (err no_directory, disk)
    else (if open_fails
        then (err not_opened, disk)
        else (if stat_fails
            then (err no_stat, put disk path texts)
            else (ok (apply_options opts fw), put disk path texts)))

-- NewFileWriter: the absolute path, where it is found, and what the operating system answers
unfoldable pub new_file_writer :
    Option String → Bool → Bool → Bool → List FileOption → Disk → Result FileError FileWriter × Disk
unfolding with_path
new_file_writer path dir_missing open_fails stat_fails opts disk =
    with_path path dir_missing open_fails stat_fails opts disk

abbrev pub State : Type 0
State = Option FileError × FileWriter × Disk

abbrev pub closed : FileWriter → FileWriter
closed fw = record fw { is_open = false }

-- the file under its new name, in place of any that has it, and a new file
unfoldable pub renamed : FileWriter → String → Bool → Option (List String) → Disk → State
renamed fw rotated open_fails none disk = (some not_renamed, closed fw, disk)
renamed fw rotated open_fails (some texts) disk =
    let disk' = put (remove disk fw.path) rotated texts in
    if open_fails
    then (some not_opened, closed fw, disk')
    else (none, record fw { is_open = true; size = 0 }, put disk' fw.path [])

-- rotate; the compression of the rotated file and the removal of old ones run on their own
unfoldable pub rotate : Answers → FileWriter → Disk → State
unfolding renamed
rotate a fw disk =
    if not fw.is_open
    then (some not_closed, fw, disk)
    else (if a.close_fails
        then (some not_closed, closed fw, disk)
        else (if a.rename_fails
            then (some not_renamed, closed fw, disk)
            else renamed fw (fw.path ⊕ "." ⊕ a.stamp) a.open_fails (get disk fw.path) disk))

-- the text of a line; `stamp` is its time in the format of the writers
unfoldable pub formatted : String → LogLine → String
formatted stamp line =
    "[" ⊕ stamp ⊕ "] [" ⊕ line.source ⊕ "] " ⊕ to_upper line.level ⊕ ": " ⊕ line.message ⊕ "\n"

-- fw.file.WriteString
put_text : Option String → String → FileWriter → Disk → State
put_text (some part) text fw disk = (
  some not_written,
  record fw { size = fw.size + byte_length part },
  put disk fw.path (texts_of (get disk fw.path) ++ part ∷ []),
)
put_text none text fw disk = (
  none,
  record fw { size = fw.size + byte_length text },
  put disk fw.path (texts_of (get disk fw.path) ++ text ∷ []),
)

unfoldable pub write_string : Answers → String → FileWriter → Disk → State
unfolding put_text
write_string a text fw disk =
    if not fw.is_open then (some not_written, fw, disk) else put_text a.short_write text fw disk

-- the write after a rotation
unfoldable pub after_rotation : Answers → String → State → State
unfolding write_string
after_rotation a text (some e, fw, disk) = (some e, fw, disk)
after_rotation a text (none, fw, disk) = write_string a text fw disk

-- does the text exceed the size of the file?
abbrev pub exceeds : String → FileWriter → Bool
exceeds text fw = ltb_ℤ (pos 0) fw.max_size && ltb_ℤ fw.max_size (pos (fw.size + byte_length text))

-- Write, of a line's text
unfoldable pub write_text : Answers → String → FileWriter → Disk → State
unfolding after_rotation rotate write_string
write_text a text fw disk =
    if exceeds text fw
    then after_rotation a text (rotate a fw disk)
    else write_string a text fw disk

-- Write
unfoldable pub write_file : Answers → String → LogLine → FileWriter → Disk → State
unfolding write_text formatted
write_file a stamp line fw disk = write_text a (formatted stamp line) fw disk

-- Close; `fails`: the operating system refuses it
unfoldable pub close_file : Bool → FileWriter → Option FileError × FileWriter
close_file fails fw = ((if not fw.is_open || fails then some not_closed else none), closed fw)

-- cleanupOldFiles: the names that are removed, of those in the directory, each with the time of its
-- last change where it is known
unfoldable pub expired_files : String → ℕ → List (String × Option ℕ) → List String
expired_files base cutoff [] = []
expired_files base cutoff ((name, none) ∷ entries) = expired_files base cutoff entries
expired_files base cutoff ((name, some changed) ∷ entries) =
    let rest = expired_files base cutoff entries in
    if has_prefix name (base ⊕ ".") && not (str_eq name base) && ltb changed cutoff
    then name ∷ rest
    else rest
