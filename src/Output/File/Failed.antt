-- ===== src/Output/File/Failed.antt =====
-- internal/output/file_writer.go: a rotation that fails leaves a writer that writes nothing more.
use logtailr.Base.{
  String, ◌≡◌, refl, Bool, true, false, not, Option, none, some, is_some, List, [], ◌∷◌, All,
  if◌then◌else◌, arith,
}
use logtailr.Base.Dict.{get}
use logtailr.Logline.{LogLine}
use logtailr.Aggregator.{◌⊕◌}
use logtailr.Output.File.{
  Disk, FileWriter, FileError, not_closed, not_written, Answers, State, rotate, renamed,
  write_string, after_rotation, write_text, write_file, formatted, exceeds,
}

-- several lines, each with what the operating system answers and its time
unfoldable pub write_all :
    List (Answers × String × LogLine)
    → FileWriter
    → Disk
    → List (Option FileError) × FileWriter × Disk
write_all [] fw disk = ([], fw, disk)
write_all ((a, stamp, line) ∷ lines) fw disk =
    let (e, fw1, disk1) = write_file a stamp line fw disk in
    let (es, fw2, disk2) = write_all lines fw1 disk1 in (e ∷ es, fw2, disk2)

shut : {A : Type 0} (b : Bool) (x y : A) → b ≡ false → (if not b then x else y) ≡ x
shut true x y h = ground arith
shut false x y h = refl

-- an error that changes nothing
abbrev HasFailed : FileWriter → Disk → State → Type 0
HasFailed fw disk (e, fw', disk') = (is_some e ≡ true) × (fw' ≡ fw) × (disk' ≡ disk)

same_either :
    (fw : FileWriter) (disk : Disk) (b : Bool) (x y : State)
    → HasFailed fw disk x
    → HasFailed fw disk y
    → HasFailed fw disk (if b then x else y)
same_either fw disk true x y h h' = h
same_either fw disk false x y h h' = h'

write_file_shut :
    (a : Answers) (stamp : String) (line : LogLine) (fw : FileWriter) (disk : Disk)
    → fw.is_open ≡ false
    → HasFailed fw disk (write_file a stamp line fw disk)
unfolding write_file write_text rotate write_string after_rotation
write_file_shut a stamp line fw disk h =
    let text = formatted stamp line in
    let no_write : write_string a text fw disk ≡ (some not_written, fw, disk) =
      shut fw.is_open (some not_written, fw, disk) _ h in
    let no_rotation : rotate a fw disk ≡ (some not_closed, fw, disk) =
      shut fw.is_open (some not_closed, fw, disk) _ h in
    same_either fw disk (exceeds text fw) (after_rotation a text (rotate a fw disk))
      (write_string a text fw disk) (rw no_rotation (refl, refl, refl))
      (rw no_write (refl, refl, refl))

write_all_shut :
    (lines : List (Answers × String × LogLine)) (fw : FileWriter) (disk : Disk)
    → fw.is_open ≡ false
    → All (λ e. is_some e ≡ true) (write_all lines fw disk).0 × ((write_all lines fw disk).2 ≡ disk)
unfolding write_all
write_all_shut [] fw disk h = (tt, refl)
write_all_shut ((a, stamp, line) ∷ lines) fw disk h =
    let (failed, same, same') = write_file_shut a stamp line fw disk h in
    let rest = write_all_shut lines fw disk h in
    ((failed, rw (same, same') rest.0), rw (same, same') rest.1)

-- a rotation that fails leaves the handle closed
abbrev IsShut : State → Type 0
IsShut (none, fw, disk) = Unit
IsShut (some e, fw, disk) = fw.is_open ≡ false

IsShut-either :
    (b : Bool) (x y : State)
    → (b ≡ true → IsShut x)
    → (b ≡ false → IsShut y)
    → IsShut (if b then x else y)
IsShut-either true x y h h' = h refl
IsShut-either false x y h h' = h' refl

renamed-IsShut :
    (fw : FileWriter) (rotated : String) (open_fails : Bool) (o : Option (List String))
    (disk : Disk)
    → IsShut (renamed fw rotated open_fails o disk)
unfolding renamed
renamed-IsShut fw rotated open_fails none disk = refl
renamed-IsShut fw rotated true (some texts) disk = refl
renamed-IsShut fw rotated false (some texts) disk = tt

rotate-IsShut : (a : Answers) (fw : FileWriter) (disk : Disk) → IsShut (rotate a fw disk)
unfolding rotate
rotate-IsShut a fw disk =
    IsShut-either (not fw.is_open) _ _ (λ h. ground arith)
      (λ _.
        IsShut-either a.close_fails _ _ (λ _. refl)
          (λ _.
            IsShut-either a.rename_fails _ _ (λ _. refl)
              (λ _.
                renamed-IsShut fw (fw.path ⊕ "." ⊕ a.stamp) a.open_fails (get disk fw.path) disk)))

after_error : (r : State) (e : FileError) → r.0 ≡ some e → IsShut r → r.1.is_open ≡ false
after_error (none, fw, disk) e h s = ground arith
after_error (some d, fw, disk) e h s = s

-- After a rotation that fails, whatever the operating system answers later: every line that follows
-- is refused with an error, and no file changes any more.
pub write_all-rotate :
    (a : Answers) (fw : FileWriter) (disk : Disk) (e : FileError)
    (lines : List (Answers × String × LogLine))
    → (rotate a fw disk).0 ≡ some e
    → All (λ o. is_some o ≡ true) (write_all lines (rotate a fw disk).1 (rotate a fw disk).2).0
      × ((write_all lines (rotate a fw disk).1 (rotate a fw disk).2).2 ≡ (rotate a fw disk).2)
write_all-rotate a fw disk e lines h =
    write_all_shut lines (rotate a fw disk).1 (rotate a fw disk).2
      (after_error (rotate a fw disk) e h (rotate-IsShut a fw disk))
