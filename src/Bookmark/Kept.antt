-- ===== src/Bookmark/Kept.antt =====
-- internal/bookmark/bookmark.go: what is saved can be loaded, and a failure loses nothing.
use logtailr.Base.{
  String, ◌≡◌, refl, ap, sym, ◌∙◌, Bool, true, false, Option, none, some, if◌then◌else◌, str_eq,
  arith, eq_iff,
}
use logtailr.Base.Dict.{Dict, get, put, remove, get-put, get-remove}
use logtailr.Base.Result.{Result, ok, err}
use logtailr.Bookmark.{
  Bookmark, Encoding, Disk, Answers, BookmarkError, not_found, validate_name, parsed, content,
  read_all, found, loaded, load, written, write_all, changed, save, delete,
}

module _ (enc : Encoding) where
  open enc use {Error, marshal, unmarshal}

  -- a text from which the bookmarks can be read again
  abbrev pub IsReadAgain : Dict Bookmark → String → Type 0
  IsReadAgain all text =
      (all' : Dict Bookmark) × (unmarshal text ≡ ok (some all'))
      × ((k : String) → get all' k ≡ get all k)

  -- a checked name, the bookmarks before a change and those that are read after it
  record Changed (a : Answers) (change : Dict Bookmark → Dict Bookmark) (name : String)
      (disk disk' : Disk) : Type 0 where
    all : Dict Bookmark
    all' : Dict Bookmark
    named : validate_name enc name ≡ ok tt
    before : read_all enc false disk ≡ ok all
    after : read_all enc false disk' ≡ ok all'
    same : (k : String) → get all' k ≡ get (change all) k

  read_again :
      (all : Dict Bookmark) (text : String) (temporary : Option String)
      → IsReadAgain all text
      → (all' : Dict Bookmark) × (read_all enc false
            (record { bookmarks = some text; temporary = temporary })
          ≡ ok all')
        × ((k : String) → get all' k ≡ get all k)
  unfolding read_all content parsed
  read_again all text temporary (all', h, same) = (all', rw h refl, same)

  written_text :
      (part : Option String) (rename_fails : Bool) (r : Result Error String) (disk : Disk)
      → (written enc part rename_fails r disk).0 ≡ none
      → (text : String) × (r ≡ ok text)
        × ((written enc part rename_fails r disk).1
            ≡ record { bookmarks = some text; temporary = none })
  unfolding written
  written_text part rename_fails (err e) disk h = ground arith
  written_text (some p) rename_fails (ok text) disk h = ground arith
  written_text none true (ok text) disk h = ground arith
  written_text none false (ok text) disk h = (text, refl, refl)

  read_anyway :
      (fails : Bool) (disk : Disk) (all : Dict Bookmark)
      → read_all enc fails disk ≡ ok all
      → read_all enc false disk ≡ ok all
  unfolding read_all
  read_anyway true disk all h = ground arith
  read_anyway false disk all h = h

  changed-Changed :
      (a : Answers) (change : Dict Bookmark → Dict Bookmark) (name : String)
      (named : Result (BookmarkError Error) Unit) (r : Result (BookmarkError Error) (Dict Bookmark))
      (disk : Disk)
      → ((all : Dict Bookmark) (text : String) → marshal all ≡ ok text → IsReadAgain all text)
      → validate_name enc name ≡ named
      → read_all enc a.read_fails disk ≡ r
      → (changed enc a change named r disk).0 ≡ none
      → Changed a change name disk (changed enc a change named r disk).1
  unfolding changed write_all
  changed-Changed a change name (err e) r disk lawful hn hr h = ground arith
  changed-Changed a change name (ok _) (err e) disk lawful hn hr h = ground arith
  changed-Changed a change name (ok _) (ok all) disk lawful hn hr h =
      let (text, encoded, e) =
        written_text a.short_write a.rename_fails (marshal (change all)) disk h in
      let (all', after, same) =
        read_again (change all) text none (lawful (change all) text encoded) in
      record {
        all = all;
        all' = all';
        named = hn;
        before = read_anyway a.read_fails disk all hr;
        after = ap (λ d. read_all enc false d) e ∙ after;
        same = same;
      }

  by_test :
      (b : Bool) (bm : Bookmark) (o : Option Bookmark)
      → found enc (if b then some bm else o) ≡ (if b then ok bm else found enc o)
  unfolding found
  by_test true bm o = refl
  by_test false bm o = refl

  by_absence :
      (b : Bool) (o : Option Bookmark)
      → found enc (if b then none else o) ≡ (if b then err not_found else found enc o)
  unfolding found
  by_absence true o = refl
  by_absence false o = refl

  load-put :
      (all all' : Dict Bookmark) (name other : String) (bm : Bookmark)
      (n : Result (BookmarkError Error) Unit)
      → (str_eq name other ≡ true → n ≡ ok tt)
      → ((k : String) → get all' k ≡ get (put all name bm) k)
      → loaded enc other n (ok all')
        ≡ (if str_eq name other then ok bm else loaded enc other n (ok all))
  unfolding loaded found
  load-put all all' name other bm (err e) hn same = ground arith
  load-put all all' name other bm (ok _) hn same =
      ap (found enc) (same other ∙ get-put all name other bm)
      ∙ by_test (str_eq name other) bm (get all other)

  load-remove :
      (all all' : Dict Bookmark) (name other : String) (n : Result (BookmarkError Error) Unit)
      → (str_eq name other ≡ true → n ≡ ok tt)
      → ((k : String) → get all' k ≡ get (remove all name) k)
      → loaded enc other n (ok all')
        ≡ (if str_eq name other then err not_found else loaded enc other n (ok all))
  unfolding loaded found
  load-remove all all' name other (err e) hn same = ground arith
  load-remove all all' name other (ok _) hn same =
      ap (found enc) (same other ∙ get-remove all name other)
      ∙ by_absence (str_eq name other) (get all other)

  same_name :
      (name other : String)
      → validate_name enc name ≡ ok tt
      → str_eq name other ≡ true
      → validate_name enc other ≡ ok tt
  same_name name other h e = rw (← (eq_iff name other).0 e) h

  -- A bookmark that is saved without an error is the one that is loaded under its name, and under every
  -- other name the same is loaded as before. The decoder is to give back what was encoded.
  pub load-save :
      (a : Answers) (name other : String) (bm : Bookmark) (disk : Disk)
      → ((all : Dict Bookmark) (text : String) → marshal all ≡ ok text → IsReadAgain all text)
      → (save enc a name bm disk).0 ≡ none
      → load enc false other (save enc a name bm disk).1
        ≡ (if str_eq name other then ok bm else load enc false other disk)
  unfolding load save
  load-save a name other bm disk lawful h =
      let c = changed-Changed a (λ all. put all name bm) name _ _ disk lawful refl refl h in
      ap (loaded enc other (validate_name enc other)) c.after
      ∙ load-put c.all c.all' name other bm (validate_name enc other) (same_name name other c.named)
          c.same
      ∙ ap (λ r. if str_eq name other then ok bm else loaded enc other (validate_name enc other) r)
          (sym c.before)

  -- A name whose bookmark is deleted without an error has none any more, and under every other name the
  -- same is loaded as before. The decoder is to give back what was encoded.
  pub load-delete :
      (a : Answers) (name other : String) (disk : Disk)
      → ((all : Dict Bookmark) (text : String) → marshal all ≡ ok text → IsReadAgain all text)
      → (delete enc a name disk).0 ≡ none
      → load enc false other (delete enc a name disk).1
        ≡ (if str_eq name other then err not_found else load enc false other disk)
  unfolding load delete
  load-delete a name other disk lawful h =
      let c = changed-Changed a (λ all. remove all name) name _ _ disk lawful refl refl h in
      ap (loaded enc other (validate_name enc other)) c.after
      ∙ load-remove c.all c.all' name other (validate_name enc other) (same_name name other c.named)
          c.same
      ∙ ap
          (λ r.
            if str_eq name other
            then err not_found
            else loaded enc other (validate_name enc other) r)
          (sym c.before)

  written_nothing :
      (part : Option String) (rename_fails : Bool) (r : Result Error String) (disk : Disk)
      (e : BookmarkError Error)
      → (written enc part rename_fails r disk).0 ≡ some e
      → (written enc part rename_fails r disk).1.bookmarks ≡ disk.bookmarks
  unfolding written
  written_nothing part rename_fails (err e) disk e' h = refl
  written_nothing (some p) rename_fails (ok text) disk e' h = refl
  written_nothing none true (ok text) disk e' h = refl
  written_nothing none false (ok text) disk e' h = ground arith

  bookmarks-changed :
      (a : Answers) (change : Dict Bookmark → Dict Bookmark)
      (named : Result (BookmarkError Error) Unit) (r : Result (BookmarkError Error) (Dict Bookmark))
      (disk : Disk) (e : BookmarkError Error)
      → (changed enc a change named r disk).0 ≡ some e
      → (changed enc a change named r disk).1.bookmarks ≡ disk.bookmarks
  unfolding changed write_all
  bookmarks-changed a change (err e') r disk e h = refl
  bookmarks-changed a change (ok _) (err e') disk e h = refl
  bookmarks-changed a change (ok _) (ok all) disk e h =
      written_nothing a.short_write a.rename_fails (marshal (change all)) disk e h

  -- Where saving fails, for the name, the reading, the encoding, the writing or the renaming, the file
  -- of the bookmarks is as it was before.
  pub bookmarks-save :
      (a : Answers) (name : String) (bm : Bookmark) (disk : Disk) (e : BookmarkError Error)
      → (save enc a name bm disk).0 ≡ some e
      → (save enc a name bm disk).1.bookmarks ≡ disk.bookmarks
  unfolding save
  bookmarks-save a name bm disk e h = bookmarks-changed a (λ all. put all name bm) _ _ disk e h
