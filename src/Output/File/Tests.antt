-- ===== src/Output/File/Tests.antt =====
-- Tries the file writer.
use logtailr.Base.{
  ◌+◌, ◌≡◌, ◌⊎◌, refl, true, false, none, some, String, List, is_some, [], ◌∷◌, All, ◌≤◌, arith,
}
use logtailr.Base.Dict.{get, put, remove}
use logtailr.Base.Dict.Distinct.{IsDistinct}
use logtailr.Base.Int.{pos}
use logtailr.Base.Space.{byte_length}
use logtailr.Base.Text.{has_prefix}
use logtailr.Logline.{LogLine}
use logtailr.Output.File.{
  Disk, FileWriter, not_renamed, Answers, rotate, write_text, expired_files, bytes_of,
}
use logtailr.Output.File.Kept.{lines_on, IsMeasured, write_text-lines_on}
use logtailr.Output.File.Sized.{bytes_of-write_text}
use logtailr.Output.File.Failed.{write_all, write_all-rotate}

abbrev works : Answers
works = record {
  close_fails = false;
  rename_fails = false;
  open_fails = false;
  short_write = none;
  stamp = "1";
}

abbrev refuses : Answers
refuses = record works { rename_fails = true }

abbrev full_file : FileWriter
full_file = record {
  path = "out";
  is_open = true;
  size = 4;
  max_size = pos 6;
  max_age = pos 0;
  compress = false;
}

abbrev small_file : FileWriter
small_file = record full_file { size = 3 }

abbrev disk : Disk
disk = ("out", "one\n" ∷ []) ∷ []

-- the second rotation within a second replaces the file of the first
rotated_twice :
    (write_text works "two" full_file disk
      ≡ (none, small_file, ("out.1", "one\n" ∷ []) ∷ ("out", "two" ∷ []) ∷ []))
    × (lines_on
          (write_text works "three"
            (write_text works "two" full_file disk).1
            (write_text works "two" full_file disk).2).2
        ≡ 2)
unfolding write_text get put remove byte_length
rotated_twice = (refl, refl)

rotation :
    write_text works "two" full_file disk
    ≡ (none, small_file, ("out.1", "one\n" ∷ []) ∷ ("out", "two" ∷ []) ∷ [])
unfolding write_text get put remove byte_length
rotation = refl

names :
    expired_files "out" 9 (("out", some 1) ∷ ("out.1", some 1) ∷ ("out.2", some 10) ∷ [])
    ≡ "out.1" ∷ []
unfolding expired_files has_prefix
names = refl

new_name : (get disk "out.1" ≡ none) × IsDistinct disk × IsMeasured full_file disk
unfolding get bytes_of byte_length
new_name = (refl, (refl, tt), refl)

write_text-lines_on_example :
    (lines_on (("out.1", "one\n" ∷ []) ∷ ("out", "two" ∷ []) ∷ []) ≡ lines_on disk + 1)
    × IsMeasured small_file (("out.1", "one\n" ∷ []) ∷ ("out", "two" ∷ []) ∷ [])
write_text-lines_on_example =
    write_text-lines_on works "two" full_file small_file disk _ new_name.1 new_name.2 new_name.0
      rotation

abbrev alone : List String
alone = "two" ∷ []

bytes_of-write_text_example : (bytes_of alone ≤ 6) ⊎ (alone ≡ alone)
unfolding get
bytes_of-write_text_example =
    bytes_of-write_text works "two" full_file small_file disk _ (omega arith) new_name.2 rotation

abbrev line : LogLine
line = record { timestamp = 0; level = "info"; message = "on"; source = "app"; fields = [] }

failed_rotation : (rotate refuses full_file disk).0 ≡ some not_renamed
unfolding rotate
failed_rotation = refl

write_all-rotate_example :
    All
      (λ o. is_some o ≡ true)
      (write_all
        ((works, "t", line) ∷ [])
        (rotate refuses full_file disk).1
        (rotate refuses full_file disk).2).0
    × ((write_all
          ((works, "t", line) ∷ [])
          (rotate refuses full_file disk).1
          (rotate refuses full_file disk).2).2
        ≡ (rotate refuses full_file disk).2)
write_all-rotate_example =
    write_all-rotate refuses full_file disk not_renamed ((works, "t", line) ∷ []) failed_rotation
