-- ===== src/Output/File/Kept.antt =====
-- internal/output/file_writer.go: no line is lost by a rotation to a new name.
use mathlib.Core.Path.{subst}
use logtailr.Base.{
  ℕ, ◌+◌, String, ◌≡◌, refl, sym, ◌∙◌, Bool, true, false, not, Option, none, some, List, [], ◌∷◌,
  ◌++◌, length, length-append, if◌then◌else◌, arith, Bool-cases, Option-cases, inl, inr, str_eq,
  eq_iff, eq_refl,
}
use logtailr.Base.Dict.{get, put, remove, get-put, get-remove}
use logtailr.Base.Dict.Distinct.{IsDistinct, sum_by, sum_by-put, sum_by-put_absent, sum_by-remove}
use logtailr.Base.Space.{byte_length}
use logtailr.Aggregator.{◌⊕◌}
use logtailr.Output.File.{
  Disk, FileWriter, Answers, State, rotate, renamed, write_string, put_text, after_rotation,
  write_text, exceeds, texts_of, bytes_of,
}

-- the texts in all files
abbrev pub lines_on : Disk → ℕ
lines_on = sum_by length

-- the size that the writer keeps is the size of its file
abbrev pub IsMeasured : FileWriter → Disk → Type 0
IsMeasured fw disk = fw.size ≡ bytes_of (texts_of (get disk fw.path))

pub bytes_of-append :
    (xs : List String) (text : String) → bytes_of (xs ++ text ∷ []) ≡ bytes_of xs + byte_length text
unfolding bytes_of
bytes_of-append [] text = omega arith
bytes_of-append (x ∷ xs) text = omega (arith, bytes_of-append xs text)

-- one text more in a file
lines_on-append :
    (disk : Disk) (path text : String)
    → lines_on (put disk path (texts_of (get disk path) ++ text ∷ [])) ≡ lines_on disk + 1
lines_on-append disk path text = elim (Option-cases (get disk path)) [
  | inl absent ↦ rw absent (sum_by-put_absent length disk path (text ∷ []) absent)
  | inr (texts, found) ↦ rw found (
      omega (
        arith,
        sum_by-put length disk path (texts ++ text ∷ []) texts found,
        length-append texts (text ∷ []),
      ))
]

-- the file after the rotation, where it succeeds
abbrev pub moved : Disk → String → String → List String → Disk
moved disk path rotated texts = put (put (remove disk path) rotated texts) path []

other_name :
    (disk : Disk) (path rotated : String) (texts : List String)
    → get disk path ≡ some texts
    → get disk rotated ≡ none
    → str_eq rotated path ≡ false
other_name disk path rotated texts found new = elim (Bool-cases (str_eq rotated path)) [
  | inl same ↦
      let e : some texts ≡ none = sym found ∙ rw (← (eq_iff rotated path).0 same) new in
      ground arith
  | inr other ↦ other
]

either_none : (b : Bool) (o : Option (List String)) → o ≡ none → (if b then none else o) ≡ none
either_none true o h = refl
either_none false o h = h

lines_on-moved :
    (disk : Disk) (path rotated : String) (texts : List String)
    → IsDistinct disk
    → get disk path ≡ some texts
    → get disk rotated ≡ none
    → lines_on (moved disk path rotated texts) ≡ lines_on disk
lines_on-moved disk path rotated texts d found new =
    let other = other_name disk path rotated texts found new in
    let gone : get (remove disk path) rotated ≡ none =
      get-remove disk path rotated ∙ either_none (str_eq path rotated) (get disk rotated) new in
    let gone' : get (put (remove disk path) rotated texts) path ≡ none =
      rw
        (
          get-put (remove disk path) rotated path texts,
          other,
          get-remove disk path path,
          eq_refl path,
        )
        refl in
    omega (
      arith,
      sum_by-remove length disk path texts d found,
      sum_by-put_absent length (remove disk path) rotated texts gone,
      sum_by-put_absent length (put (remove disk path) rotated texts) path [] gone',
    )

pub by_test :
    (P : State → Type 0) (b : Bool) (x y : State)
    → (b ≡ true → P x)
    → (b ≡ false → P y)
    → P (if b then x else y)
by_test P true x y h h' = h refl
by_test P false x y h h' = h' refl

-- what a rotation that succeeds does
abbrev pub Rotated : FileWriter → Disk → String → State → Type 0
Rotated fw disk rotated (some e, fw', disk') = Unit
Rotated fw disk rotated (none, fw', disk') =
    (texts : List String) × (get disk fw.path ≡ some texts)
    × (fw' ≡ record fw { is_open = true; size = 0 })
    × (disk' ≡ moved disk fw.path rotated texts)

renamed-Rotated :
    (fw : FileWriter) (rotated : String) (open_fails : Bool) (o : Option (List String))
    (disk : Disk)
    → get disk fw.path ≡ o
    → Rotated fw disk rotated (renamed fw rotated open_fails o disk)
unfolding renamed
renamed-Rotated fw rotated open_fails none disk h = tt
renamed-Rotated fw rotated true (some texts) disk h = tt
renamed-Rotated fw rotated false (some texts) disk h = (texts, h, refl, refl)

pub rotate-Rotated :
    (a : Answers) (fw : FileWriter) (disk : Disk)
    → Rotated fw disk (fw.path ⊕ "." ⊕ a.stamp) (rotate a fw disk)
unfolding rotate
rotate-Rotated a fw disk =
    let rotated = fw.path ⊕ "." ⊕ a.stamp in
    by_test (Rotated fw disk rotated) (not fw.is_open) _ _ (λ _. tt)
      (λ _.
        by_test (Rotated fw disk rotated) a.close_fails _ _ (λ _. tt)
          (λ _.
            by_test (Rotated fw disk rotated) a.rename_fails _ _ (λ _. tt)
              (λ _. renamed-Rotated fw rotated a.open_fails (get disk fw.path) disk refl)))

-- what a write that succeeds leaves
abbrev Wrote : ℕ → String → String → State → Type 0
Wrote n path text (some e, fw', disk') = Unit
Wrote n path text (none, fw', disk') =
    (lines_on disk' ≡ n + 1) × (fw'.path ≡ path) × IsMeasured fw' disk'

measured :
    (n : ℕ) (texts : List String) (o : Option (List String)) (text : String)
    → n ≡ bytes_of texts
    → o ≡ some (texts ++ text ∷ [])
    → n + byte_length text ≡ bytes_of (texts_of o)
measured n texts o text h e = rw e (omega (arith, bytes_of-append texts text))

put_text-Wrote :
    (short : Option String) (text : String) (fw : FileWriter) (disk : Disk)
    → IsMeasured fw disk
    → Wrote (lines_on disk) fw.path text (put_text short text fw disk)
unfolding put_text
put_text-Wrote (some part) text fw disk m = tt
put_text-Wrote none text fw disk m =
    let texts = texts_of (get disk fw.path) in
    (
      lines_on-append disk fw.path text,
      refl,
      measured fw.size texts _ text m
          (get-put disk fw.path fw.path (texts ++ text ∷ []) ∙ rw (eq_refl fw.path) refl),
    )

write_string-Wrote :
    (a : Answers) (text : String) (fw : FileWriter) (disk : Disk)
    → IsMeasured fw disk
    → Wrote (lines_on disk) fw.path text (write_string a text fw disk)
unfolding write_string
write_string-Wrote a text fw disk m =
    by_test (Wrote (lines_on disk) fw.path text) (not fw.is_open) _ _ (λ _. tt)
      (λ _. put_text-Wrote a.short_write text fw disk m)

after_rotation-Wrote :
    (a : Answers) (text : String) (fw : FileWriter) (disk : Disk) (r : State)
    → IsDistinct disk
    → get disk (fw.path ⊕ "." ⊕ a.stamp) ≡ none
    → Rotated fw disk (fw.path ⊕ "." ⊕ a.stamp) r
    → Wrote (lines_on disk) fw.path text (after_rotation a text r)
unfolding after_rotation
after_rotation-Wrote a text fw disk (some e, fw', disk') d new r = tt
after_rotation-Wrote a text fw disk (none, fw', disk') d new (texts, found, e, e') =
    let rotated = fw.path ⊕ "." ⊕ a.stamp in
    let empty : get (moved disk fw.path rotated texts) fw.path ≡ some [] =
      rw (get-put (put (remove disk fw.path) rotated texts) fw.path fw.path [], eq_refl fw.path)
        refl in
    let fresh_file = record fw { is_open = true; size = 0 } in
    rw (e, e', ← lines_on-moved disk fw.path rotated texts d found new)
      (write_string-Wrote a text fresh_file (moved disk fw.path rotated texts)
        (rw empty (unfold bytes_of in refl)))

-- Where no file has the name that a rotation gives: a line that is written without an error is one text
-- more on the disk, so that none is lost, and the size that the writer keeps stays the file's size.
pub write_text-lines_on :
    (a : Answers) (text : String) (fw fw' : FileWriter) (disk disk' : Disk)
    → IsDistinct disk
    → IsMeasured fw disk
    → get disk (fw.path ⊕ "." ⊕ a.stamp) ≡ none
    → write_text a text fw disk ≡ (none, fw', disk')
    → (lines_on disk' ≡ lines_on disk + 1) × IsMeasured fw' disk'
unfolding write_text
write_text-lines_on a text fw fw' disk disk' d m new e =
    let wrote : Wrote (lines_on disk) fw.path text (none, fw', disk') =
      subst (Wrote (lines_on disk) fw.path text) e (
        by_test (Wrote (lines_on disk) fw.path text) (exceeds text fw) _ _
          (λ _.
            after_rotation-Wrote a text fw disk (rotate a fw disk) d new (rotate-Rotated a fw disk))
          (λ _. write_string-Wrote a text fw disk m)) in
    (wrote.0, wrote.2)
