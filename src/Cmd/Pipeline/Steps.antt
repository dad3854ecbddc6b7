-- ===== src/Cmd/Pipeline/Steps.antt =====
-- cmd/pipeline.go: what each step does, without an aggregator, to the lines that are to be written.
use logtailr.Base.{
  ℕ, ◌≡◌, refl, sym, ap, ◌∙◌, Bool, true, false, not, ◌&&◌, Option, none, some, List, [], ◌∷◌, ◌++◌,
  if◌then◌else◌, arith, Bool-cases, inl, inr,
}
use logtailr.Logline.{LogLine}
use logtailr.Aggregator.{Aggregator, AggregatedLine}
use logtailr.Cmd.Pipeline.{
  Settings, Pipeline, Event, emit, tick, cancel, stop_tailers, receive, receive_batch, sweep,
  parsed, passes, deliver, process_raw, process_all, flush_agg, on_tick, on_receive_line,
  on_receive_batch, step,
}

pub append_assoc : {A : Type 0} (xs ys zs : List A) → (xs ++ ys) ++ zs ≡ xs ++ (ys ++ zs)
append_assoc [] ys zs = refl
append_assoc (x ∷ xs) ys zs = ap (λ l. x ∷ l) (append_assoc xs ys zs)

pub append-nil : {A : Type 0} (xs : List A) → xs ++ [] ≡ xs
append-nil [] = refl
append-nil (x ∷ xs) = ap (λ l. x ∷ l) (append-nil xs)

module _ (settings : Settings) where
  -- the lines that are to be written, of those emitted: parsed, and those that pass the filter
  unfoldable pub passing : List LogLine → List LogLine
  passing [] = []
  passing (raw ∷ raws) =
      let rest = passing raws in
      if passes settings (parsed settings raw) then parsed settings raw ∷ rest else rest

  -- the lines that the tailers emit until they are stopped
  unfoldable pub emitted : Bool → List Event → List LogLine
  emitted stopped [] = []
  emitted stopped (emit raw ∷ es) =
      let rest = emitted stopped es in if stopped then rest else raw ∷ rest
  emitted stopped (stop_tailers ∷ es) = emitted true es
  emitted stopped (e ∷ es) = emitted stopped es

  pub passing-append : (xs ys : List LogLine) → passing (xs ++ ys) ≡ passing xs ++ passing ys
  unfolding passing
  passing-append [] ys = refl
  passing-append (x ∷ xs) ys = elim (Bool-cases (passes settings (parsed settings x))) [
    | inl p ↦ rw (p, passing-append xs ys) refl
    | inr p ↦ rw (p, passing-append xs ys) refl
  ]

  -- what processing a line, or several, leaves as it is without an aggregator
  abbrev pub Same : Pipeline → Pipeline → Type 0
  Same p' p =
      (p'.agg ≡ none)
      × (p'.log_chan ≡ p.log_chan)
      × (p'.stopped ≡ p.stopped)
      × (p'.finished ≡ p.finished)
      × (p'.agg_chan ≡ p.agg_chan)

  deliver_lem :
      (now : ℕ) (l : LogLine) (agg : Option Aggregator) (p : Pipeline)
      → agg ≡ none
      → deliver settings now l agg p ≡ record p { written = p.written ++ l ∷ [] }
  unfolding deliver
  deliver_lem now l none p h = refl
  deliver_lem now l (some a) p h = ground arith

  process_raw_lem :
      (now : ℕ) (raw : LogLine) (p : Pipeline)
      → p.agg ≡ none
      → ((process_raw settings now raw p).written ≡ p.written ++ passing (raw ∷ []))
        × Same (process_raw settings now raw p) p
  unfolding process_raw passing
  process_raw_lem now raw p h =
      let l = parsed settings raw in
      let p' = record p { alerted = p.alerted ++ l ∷ [] } in
      elim (Bool-cases (passes settings l)) [
        | inl passed ↦ rw (passed, deliver_lem now l p.agg p' h) (refl, (h, refl, refl, refl, refl))
        | inr fails ↦ rw fails (sym (append-nil p.written), (h, refl, refl, refl, refl))
      ]

  process_all_lem :
      (now : ℕ) (raws : List LogLine) (p : Pipeline)
      → p.agg ≡ none
      → ((process_all settings now raws p).written ≡ p.written ++ passing raws)
        × Same (process_all settings now raws p) p
  unfolding process_all passing
  process_all_lem now [] p h = (sym (append-nil p.written), (h, refl, refl, refl, refl))
  process_all_lem now (raw ∷ raws) p h =
      let p' = process_raw settings now raw p in
      let (w, (a, c, s, f, b)) = process_raw_lem now raw p h in
      let (w', (a', c', s', f', b')) = process_all_lem now raws p' a in
      (
        w'
            ∙ ap (λ xs. xs ++ passing raws) w
            ∙ append_assoc p.written (passing (raw ∷ [])) (passing raws)
            ∙ ap (λ xs. p.written ++ xs) (sym (passing-append (raw ∷ []) raws)),
        (a', c' ∙ c, s' ∙ s, f' ∙ f, b' ∙ b),
      )

  abbrev pub stopped_by : Event → Bool → Bool
  stopped_by stop_tailers b = true
  stopped_by _ b = b

  -- what is written and what waits to be
  abbrev pub due : Pipeline → List LogLine
  due p = p.written ++ passing p.log_chan

  -- when the pipeline has ended, its channel is empty and the tailers are stopped
  abbrev pub EndsEmpty : Pipeline → Type 0
  EndsEmpty p = p.finished ≡ true → (p.log_chan ≡ []) × (p.stopped ≡ true)

  -- without an aggregator there are no batches
  abbrev pub Plain : Pipeline → Type 0
  Plain p = (p.agg ≡ none) × (p.agg_chan ≡ []) × EndsEmpty p

  abbrev pub Kept : Event → Pipeline → Pipeline → Type 0
  Kept e p' p =
      (due p' ≡ due p ++ passing (emitted p.stopped (e ∷ [])))
      × (p'.stopped ≡ stopped_by e p.stopped)
      × Plain p'

  pub due-nil : (p : Pipeline) → due p ≡ due p ++ passing []
  unfolding passing
  due-nil p = sym (append-nil (due p))

  on_tick-none :
      (now : ℕ) (agg : Option Aggregator) (p : Pipeline)
      → agg ≡ none
      → on_tick settings now agg p ≡ p
  unfolding on_tick
  on_tick-none now none p h = refl
  on_tick-none now (some a) p h = ground arith

  flush_agg-none :
      (agg : Option Aggregator) (p : Pipeline) → agg ≡ none → flush_agg settings agg p ≡ p
  unfolding flush_agg
  flush_agg-none none p h = refl
  flush_agg-none (some a) p h = ground arith

  due-emit :
      (raw : LogLine) (p : Pipeline)
      → p.written ++ passing (p.log_chan ++ raw ∷ []) ≡ due p ++ passing (raw ∷ [])
  due-emit raw p =
      ap (λ xs. p.written ++ xs) (passing-append p.log_chan (raw ∷ []))
      ∙ sym (append_assoc p.written (passing p.log_chan) (passing (raw ∷ [])))

  receive_lem :
      (now : ℕ) (finished : Bool) (chan : List LogLine) (p : Pipeline)
      → p.finished ≡ finished
      → p.log_chan ≡ chan
      → Plain p
      → Kept (receive now) (on_receive_line settings now finished chan p) p
  unfolding on_receive_line emitted
  receive_lem now false (raw ∷ rest) p f c (a, b, d) =
      let p0 = record p { log_chan = rest } in
      let (w, (a', c', s', f', b')) = process_raw_lem now raw p0 a in
      let all : passing (raw ∷ []) ++ passing rest ≡ passing p.log_chan =
        sym (ap passing c ∙ passing-append (raw ∷ []) rest) in
      let due_is : due (process_raw settings now raw p0) ≡ due p =
        ap (λ xs. xs ++ passing (process_raw settings now raw p0).log_chan) w
        ∙ ap (λ xs. (p.written ++ passing (raw ∷ [])) ++ passing xs) c'
        ∙ append_assoc p.written (passing (raw ∷ [])) (passing rest)
        ∙ ap (λ xs. p.written ++ xs) all in
      (due_is ∙ due-nil p, s', (a', b' ∙ b, λ g. ground (arith, g, f', f)))
  receive_lem now false [] p f c plain = (due-nil p, refl, plain)
  receive_lem now true chan p f c plain = (due-nil p, refl, plain)

  batch_lem :
      (draining : Bool) (chan : List (List AggregatedLine)) (p : Pipeline)
      → chan ≡ []
      → on_receive_batch settings draining chan p ≡ p
  unfolding on_receive_batch
  batch_lem false [] p h = refl
  batch_lem false (b ∷ bs) p h = ground arith
  batch_lem true chan p h = refl

  emit_lem :
      (raw : LogLine) (stopped : Bool) (p : Pipeline)
      → p.stopped ≡ stopped
      → Plain p
      → (let p' = if stopped then p else record p { log_chan = p.log_chan ++ raw ∷ [] } in
          (due p' ≡ due p ++ passing (if stopped then [] else raw ∷ []))
          × (p'.stopped ≡ p.stopped)
          × Plain p')
  emit_lem raw true p h plain = (due-nil p, refl, plain)
  emit_lem raw false p h (a, b, d) = (due-emit raw p, refl, (a, b, λ f. ground (arith, (d f).1, h)))

  sweep_lem :
      (now : ℕ) (go : Bool) (p : Pipeline)
      → (p.draining && p.stopped && not p.finished) ≡ go
      → Plain p
      → (let p' =
            if go
            then record (process_all settings now p.log_chan (record p { log_chan = [] })) {
              finished = true;
            }
            else p in
          (due p' ≡ due p ++ passing []) × (p'.stopped ≡ p.stopped) × Plain p')
  sweep_lem now false p h plain = (due-nil p, refl, plain)
  sweep_lem now true p h (a, b, d) =
      let p0 = record p { log_chan = [] } in
      let (w, (a', c', s', f', b')) = process_all_lem now p.log_chan p0 a in
      let was_stopped : p.stopped ≡ true = ground arith in
      (
        ap (λ xs. (process_all settings now p.log_chan p0).written ++ passing xs) c'
            ∙ ap (λ xs. xs ++ passing []) w,
        s',
        (a', b' ∙ b, λ f. (c', s' ∙ was_stopped)),
      )

  pub step-Kept : (e : Event) (p : Pipeline) → Plain p → Kept e (step settings e p) p
  unfolding step emitted
  step-Kept (emit raw) p plain = emit_lem raw p.stopped p refl plain
  step-Kept (tick now) p (a, b, d) = rw (on_tick-none now p.agg p a) (due-nil p, refl, (a, b, d))
  step-Kept cancel p (a, b, d) =
      rw (flush_agg-none p.agg (record p { draining = true }) a) (elim (Bool-cases p.draining) [
        | inl s ↦ rw s (due-nil p, refl, (a, b, d))
        | inr s ↦ rw s (due-nil p, refl, (a, b, d))
      ])
  step-Kept stop_tailers p (a, b, d) = (due-nil p, refl, (a, b, λ f. ((d f).0, refl)))
  step-Kept (receive now) p plain = receive_lem now p.finished p.log_chan p refl refl plain
  step-Kept receive_batch p (a, b, d) =
      rw (batch_lem p.draining p.agg_chan p b) (due-nil p, refl, (a, b, d))
  step-Kept (sweep now) p plain =
      sweep_lem now (p.draining && p.stopped && not p.finished) p refl plain
