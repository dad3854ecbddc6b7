-- ===== src/Output/File/Sized.antt =====
-- internal/output/file_writer.go: the size of the file is bounded.
use mathlib.Core.Path.{subst}
use logtailr.Base.{
  ℕ, ◌+◌, ◌≤◌, String, ◌≡◌, ◌⊎◌, refl, ap, ◌∙◌, true, not, Option, none, some, List, [], ◌∷◌, ◌++◌,
  arith, inl, inr, eq_refl,
}
use logtailr.Base.Dict.{get, put, remove, get-put}
use logtailr.Base.Int.{pos, pos_part, ◌<ℤ◌}
use logtailr.Base.Space.{byte_length}
use logtailr.Aggregator.{◌⊕◌}
use logtailr.Output.File.{
  Disk, FileWriter, Answers, State, rotate, write_string, put_text, after_rotation, write_text,
  exceeds, texts_of, bytes_of,
}
use logtailr.Output.File.Kept.{by_test, Rotated, rotate-Rotated, IsMeasured, bytes_of-append, moved}

-- the texts of the writer's file
abbrev pub written_texts : FileWriter → Disk → List String
written_texts fw disk = texts_of (get disk fw.path)

-- the file after a write that succeeds: small enough, or with the text alone
abbrev Sized : ℕ → String → String → State → Type 0
Sized bound path text (some e, fw', disk') = Unit
Sized bound path text (none, fw', disk') =
    (bytes_of (texts_of (get disk' path)) ≤ bound) ⊎ (texts_of (get disk' path) ≡ text ∷ [])

put_text-Sized :
    (short : Option String) (text : String) (bound : ℕ) (fw : FileWriter) (disk : Disk)
    → (bytes_of (written_texts fw disk) + byte_length text ≤ bound) ⊎ (written_texts fw disk ≡ [])
    → Sized bound fw.path text (put_text short text fw disk)
unfolding put_text
put_text-Sized (some part) text bound fw disk h = tt
put_text-Sized none text bound fw disk h =
    let texts = written_texts fw disk in
    let now : texts_of (get (put disk fw.path (texts ++ text ∷ [])) fw.path) ≡ texts ++ text ∷ [] =
      rw (get-put disk fw.path fw.path (texts ++ text ∷ []), eq_refl fw.path) refl in
    elim h [
      | inl fits ↦ inl (rw now (omega (arith, bytes_of-append texts text)))
      | inr empty ↦ inr (now ∙ ap (λ l. l ++ text ∷ []) empty)
    ]

write_string-Sized :
    (a : Answers) (text : String) (bound : ℕ) (fw : FileWriter) (disk : Disk)
    → (bytes_of (written_texts fw disk) + byte_length text ≤ bound) ⊎ (written_texts fw disk ≡ [])
    → Sized bound fw.path text (write_string a text fw disk)
unfolding write_string
write_string-Sized a text bound fw disk h =
    by_test (Sized bound fw.path text) (not fw.is_open) _ _ (λ _. tt)
      (λ _. put_text-Sized a.short_write text bound fw disk h)

after_rotation-Sized :
    (a : Answers) (text : String) (bound : ℕ) (fw : FileWriter) (disk : Disk) (r : State)
    → Rotated fw disk (fw.path ⊕ "." ⊕ a.stamp) r
    → Sized bound fw.path text (after_rotation a text r)
unfolding after_rotation
after_rotation-Sized a text bound fw disk (some e, fw', disk') r = tt
after_rotation-Sized a text bound fw disk (none, fw', disk') (texts, found, e, e') =
    let rotated = fw.path ⊕ "." ⊕ a.stamp in
    let fresh_file = record fw { is_open = true; size = 0 } in
    let empty : texts_of (get (moved disk fw.path rotated texts) fw.path) ≡ [] =
      rw (get-put (put (remove disk fw.path) rotated texts) fw.path fw.path [], eq_refl fw.path)
        refl in
    rw (e, e')
      (write_string-Sized a text bound fresh_file (moved disk fw.path rotated texts) (inr empty))

-- With a maximal size, and a size that the writer keeps that is the file's: after a line is written
-- without an error the file has at most that many bytes, or it has that line alone.
pub bytes_of-write_text :
    (a : Answers) (text : String) (fw fw' : FileWriter) (disk disk' : Disk)
    → pos 0 <ℤ fw.max_size
    → IsMeasured fw disk
    → write_text a text fw disk ≡ (none, fw', disk')
    → (bytes_of (texts_of (get disk' fw.path)) ≤ pos_part fw.max_size)
      ⊎ (texts_of (get disk' fw.path) ≡ text ∷ [])
unfolding write_text
bytes_of-write_text a text fw fw' disk disk' limited measured e =
    let bound = pos_part fw.max_size in
    subst (Sized bound fw.path text) e (
      by_test (Sized bound fw.path text) (exceeds text fw) _ _
        (λ _.
          after_rotation-Sized a text bound fw disk (rotate a fw disk) (rotate-Rotated a fw disk))
        (λ within. write_string-Sized a text bound fw disk (inl (ground arith))))
