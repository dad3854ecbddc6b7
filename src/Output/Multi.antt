-- ===== src/Output/Multi.antt =====
-- internal/output/multi_writer.go: a writer made of several.
use logtailr.Base.{◌≡◌, refl, ap, Option, none, some, List, [], ◌∷◌, ◌++◌, map, arith}
use logtailr.Logline.{LogLine}
use logtailr.Output.{Writers}

module _ (out : Writers) where
  open out use {Writer, Error, write, close}

  -- MultiWriter.Write: the writers after one that fails do not get the line
  after_write :
      Option Error × Writer → Option Error × List Writer → List Writer → Option Error × List Writer
  after_write (some e, w) rest ws = (some e, w ∷ ws)
  after_write (none, w) (e, ws') ws = (e, w ∷ ws')

  unfoldable pub write_multi : LogLine → List Writer → Option Error × List Writer
  unfolding after_write
  write_multi line [] = (none, [])
  write_multi line (w ∷ ws) = after_write (write line w) (write_multi line ws) ws

  first_error : Option Error → Option Error → Option Error
  first_error none later = later
  first_error (some e) later = some e

  -- MultiWriter.Close: every writer is closed, and the first error is returned
  unfoldable pub close_multi : List Writer → Option Error × List Writer
  unfolding first_error
  close_multi [] = (none, [])
  close_multi (w ∷ ws) =
      let (e, w') = close w in let (later, ws') = close_multi ws in (first_error e later, w' ∷ ws')

  -- Closing closes every writer, whatever errors there are.
  pub close_multi-map : (ws : List Writer) → (close_multi ws).1 ≡ map (λ w. (close w).1) ws
  unfolding close_multi
  close_multi-map [] = refl
  close_multi-map (w ∷ ws) = ap (λ r. (close w).1 ∷ r) (close_multi-map ws)

  abbrev AllAccept : LogLine → List Writer → Type 0
  AllAccept line [] = Unit
  AllAccept line (w ∷ ws) = ((write line w).0 ≡ none) × AllAccept line ws

  -- A line that every writer accepts reaches every writer, and the write succeeds.
  write_multi_all :
      (line : LogLine) (ws : List Writer)
      → AllAccept line ws
      → write_multi line ws ≡ (none, map (λ w. (write line w).1) ws)
  unfolding write_multi
  write_multi_all line [] h = refl
  write_multi_all line (w ∷ ws) (h, hs) = ground (arith, write_multi_all line ws hs)

  -- If the writers before one accept a line and that one fails, they and it have taken the line, the
  -- error is its error, and the writers after it are as they were: they never see the line.
  pub write_multi_stops :
      (line : LogLine) (before after : List Writer) (w : Writer) (e : Error)
      → AllAccept line before
      → (write line w).0 ≡ some e
      → write_multi line (before ++ w ∷ after)
        ≡ (some e, map (λ v. (write line v).1) before ++ (write line w).1 ∷ after)
  unfolding write_multi
  write_multi_stops line [] after w e h f = ground arith
  write_multi_stops line (v ∷ before) after w e (h, hs) f =
      ground (arith, write_multi_stops line before after w e hs f)
