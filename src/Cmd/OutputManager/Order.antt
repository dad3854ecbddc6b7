-- ===== src/Cmd/OutputManager/Order.antt =====
-- cmd/output_manager.go: what the order of the queue gives, for any sequence of calls and rounds.
use logtailr.Base.{
  ℕ, zero, suc, ◌+◌, ◌≤◌, ◌≡◌, refl, sym, ap, ◌∙◌, List, [], ◌∷◌, ◌++◌, ltb, if◌then◌else◌, length,
  length-append, Bool-cases, inl, inr, arith,
}
use logtailr.Logline.{LogLine}
use logtailr.Cmd.OutputManager.{
  Outputs, OutEvent, Manager, Sink, line, swap, output_queue_buffer, enqueue_line, enqueue_swap,
  turn, turn_from, handle, handle_all, close_manager, close_writer,
}

module _ (out : Outputs) where
  open out use {Config, writers.{Writer}}

  -- what the parts of the program do to a manager: `Write`, `Swap` and rounds of the loop
  pub data Op : Type 0 where
    write_line : LogLine → Op
    swap_to : Config → Op
    round : Op

  unfoldable pub perform : Op → Manager out → Manager out
  perform (write_line l) m = enqueue_line out l m
  perform (swap_to cfg) m = enqueue_swap out cfg m
  perform round m = turn out m

  unfoldable pub run : List Op → Manager out → Manager out
  unfolding perform
  run [] m = m
  run (o ∷ os) m = run os (perform o m)

  -- The events that a queue with `n` events takes, of those that the calls offer it. A swap that
  -- finds no room waits, and is taken when a round makes room.
  unfoldable pub admitted : List Op → ℕ → List Config → List (OutEvent out)
  admitted [] n waiting = []
  admitted (write_line l ∷ os) n waiting =
      let more = admitted os (n + 1) waiting in
      let same = admitted os n waiting in if ltb n output_queue_buffer then line l ∷ more else same
  admitted (swap_to cfg ∷ os) n waiting =
      let more = admitted os (n + 1) waiting in
      let later = admitted os n (waiting ++ cfg ∷ []) in
      if ltb n output_queue_buffer then swap cfg ∷ more else later
  admitted (round ∷ os) zero waiting = admitted os zero waiting
  admitted (round ∷ os) (suc n) [] = admitted os n []
  admitted (round ∷ os) (suc n) (cfg ∷ cfgs) = swap cfg ∷ admitted os (suc n) cfgs

  -- the lines among events, and those among calls
  unfoldable pub count_lines : List (OutEvent out) → ℕ
  count_lines [] = 0
  count_lines (line l ∷ evs) = count_lines evs + 1
  count_lines (swap cfg ∷ evs) = count_lines evs

  unfoldable pub count_writes : List Op → ℕ
  count_writes [] = 0
  count_writes (write_line l ∷ os) = count_writes os + 1
  count_writes (swap_to cfg ∷ os) = count_writes os
  count_writes (round ∷ os) = count_writes os

  -- what is left to do ends in this sink
  unfoldable pub settled : Manager out → Sink out
  settled m = handle_all out m.queue m.sink

  handle_all-append :
      (evs : List (OutEvent out)) (ev : OutEvent out) (s : Sink out)
      → handle_all out (evs ++ ev ∷ []) s ≡ handle out ev (handle_all out evs s)
  unfolding handle_all
  handle_all-append [] ev s = refl
  handle_all-append (e ∷ evs) ev s = handle_all-append evs ev (handle out e s)

  length-snoc :
      (evs : List (OutEvent out)) (ev : OutEvent out) → length (evs ++ ev ∷ []) ≡ length evs + 1
  length-snoc evs ev = length-append evs (ev ∷ [])

  length-snoc_suc :
      (evs : List (OutEvent out)) (ev : OutEvent out) → length (evs ++ ev ∷ []) ≡ suc (length evs)
  length-snoc_suc evs ev = omega (arith, length-snoc evs ev)

  -- after a round, what is still to be handled is what the calls after it and its own admission give
  settled-turn_from :
      (os : List Op) (evs : List (OutEvent out)) (waiting : List Config) (m : Manager out)
      → m.queue ≡ evs
      → m.waiting ≡ waiting
      → (let m' = turn_from out evs waiting m in
          handle_all out (admitted os (length m'.queue) m'.waiting) (settled m')
          ≡ handle_all out (admitted (round ∷ os) (length evs) waiting) (settled m))
  unfolding settled turn_from handle_all admitted
  settled-turn_from os [] waiting m q w = rw (q, w) refl
  settled-turn_from os (ev ∷ rest) [] m q w = rw (q, w) refl
  settled-turn_from os (ev ∷ rest) (cfg ∷ cfgs) m q w =
      rw
        (
          q,
          length-snoc_suc rest (swap cfg),
          handle_all-append rest (swap cfg) (handle out ev m.sink),
        )
        refl

  settled-queued :
      (ev : OutEvent out) (m : Manager out)
      → settled (record m { queue = m.queue ++ ev ∷ [] }) ≡ handle out ev (settled m)
  unfolding settled
  settled-queued ev m = handle_all-append m.queue ev m.sink

  pub settled-run :
      (os : List Op) (m : Manager out)
      → settled (run os m) ≡ handle_all out (admitted os (length m.queue) m.waiting) (settled m)
  unfolding run perform admitted handle_all settled enqueue_line enqueue_swap turn
  settled-run [] m = refl
  settled-run (write_line l ∷ os) m =
      let rest = settled-run os (enqueue_line out l m) in
      let room = settled-queued (line l) m in
      let size = length-snoc m.queue (line l) in
      elim (Bool-cases (ltb (length m.queue) output_queue_buffer)) [
        | inl h ↦ rest ∙ (rw (h, room, size) refl)
        | inr h ↦ rest ∙ (rw h refl)
      ]
  settled-run (swap_to cfg ∷ os) m =
      let rest = settled-run os (enqueue_swap out cfg m) in
      let room = settled-queued (swap cfg) m in
      let size = length-snoc m.queue (swap cfg) in
      elim (Bool-cases (ltb (length m.queue) output_queue_buffer)) [
        | inl h ↦ rest ∙ (rw (h, room, size) refl)
        | inr h ↦ rest ∙ (rw h refl)
      ]
  settled-run (round ∷ os) m =
      settled-run os (turn out m) ∙ settled-turn_from os m.queue m.waiting m refl refl

  -- Close loses nothing that was queued: whatever calls of Write and Swap and rounds of the loop come
  -- before it, and in whatever order, the writers end as if the events that a queue of 4096 admits
  -- had been handled one after the other, in the order of the calls (a swap that waits for room in
  -- that of its admission; one that still waits at the end gives up), and then the current writer
  -- had been closed.
  pub close_manager-run :
      (os : List Op) (m : Manager out)
      → (close_manager out (run os m)).sink ≡ (
          let s = handle_all out (admitted os (length m.queue) m.waiting) (settled m) in
          close_writer out s.writer s)
  unfolding close_manager settled
  close_manager-run os m = ap (λ s. close_writer out s.writer s) (settled-run os m)

  lines-turn_from :
      (os : List Op) (evs : List (OutEvent out)) (waiting : List Config) (m : Manager out)
      → m.queue ≡ evs
      → m.waiting ≡ waiting
      → (let m' = turn_from out evs waiting m in
          (m'.dropped ≡ m.dropped)
          × (count_lines (admitted os (length m'.queue) m'.waiting)
              ≡ count_lines (admitted (round ∷ os) (length evs) waiting)))
  unfolding turn_from admitted count_lines
  lines-turn_from os [] waiting m q w = (refl, rw (q, w) refl)
  lines-turn_from os (ev ∷ rest) [] m q w = (refl, rw w refl)
  lines-turn_from os (ev ∷ rest) (cfg ∷ cfgs) m q w =
      (refl, rw (length-snoc_suc rest (swap cfg)) refl)

  length-turn_from :
      (evs : List (OutEvent out)) (waiting : List Config) (m : Manager out)
      → m.queue ≡ evs
      → length (turn_from out evs waiting m).queue ≤ length evs
  unfolding turn_from
  length-turn_from [] waiting m q = rw q (omega arith)
  length-turn_from (ev ∷ rest) [] m q = omega arith
  length-turn_from (ev ∷ rest) (cfg ∷ cfgs) m q = omega (arith, length-snoc rest (swap cfg))

  -- Every line that is written to the manager is admitted to the queue or counted as dropped.
  pub dropped-run :
      (os : List Op) (m : Manager out)
      → (run os m).dropped + count_lines (admitted os (length m.queue) m.waiting)
        ≡ m.dropped + count_writes os
  unfolding run perform admitted count_lines count_writes enqueue_line enqueue_swap turn
  dropped-run [] m = refl
  dropped-run (write_line l ∷ os) m =
      let rest = dropped-run os (enqueue_line out l m) in
      let size = length-snoc m.queue (line l) in
      elim (Bool-cases (ltb (length m.queue) output_queue_buffer)) [
        | inl h ↦ grind (arith, rest, size, h)
        | inr h ↦ grind (arith, rest, h)
      ]
  dropped-run (swap_to cfg ∷ os) m =
      let rest = dropped-run os (enqueue_swap out cfg m) in
      let size = length-snoc m.queue (swap cfg) in
      elim (Bool-cases (ltb (length m.queue) output_queue_buffer)) [
        | inl h ↦ ground (arith, rest, size)
        | inr h ↦ ground (arith, rest)
      ]
  dropped-run (round ∷ os) m =
      let (same, lines) = lines-turn_from os m.queue m.waiting m refl refl in
      ap (λ n. (run os (turn out m)).dropped + n) (sym lines)
      ∙ dropped-run os (turn out m)
      ∙ ap (λ d. d + count_writes os) same

  length_queue-perform :
      (o : Op) (m : Manager out)
      → length m.queue ≤ output_queue_buffer
      → length (perform o m).queue ≤ output_queue_buffer
  unfolding perform enqueue_line enqueue_swap turn
  length_queue-perform (write_line l) m h = ground (arith, length-snoc m.queue (line l))
  length_queue-perform (swap_to cfg) m h = ground (arith, length-snoc m.queue (swap cfg))
  length_queue-perform round m h = omega (arith, length-turn_from m.queue m.waiting m refl)

  -- From an empty queue on, the queue never holds more than 4096 events.
  pub length_queue-run :
      (os : List Op) (m : Manager out)
      → length m.queue ≤ output_queue_buffer
      → length (run os m).queue ≤ output_queue_buffer
  unfolding run
  length_queue-run [] m h = h
  length_queue-run (o ∷ os) m h = length_queue-run os (perform o m) (length_queue-perform o m h)
