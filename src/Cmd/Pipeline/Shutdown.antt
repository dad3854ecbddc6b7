-- ===== src/Cmd/Pipeline/Shutdown.antt =====
-- cmd/pipeline.go: which lines are written until the pipeline ends.
use logtailr.Base.{
  ℕ, ◌≡◌, refl, sym, ap, ◌∙◌, Bool, true, false, not, ◌&&◌, Option, none, some, List, [], ◌∷◌, ◌++◌,
  if◌then◌else◌, arith,
}
use logtailr.Base.Int.{ℤ}
use logtailr.Base.Dict.{get}
use logtailr.Logline.{LogLine}
use logtailr.Aggregator.{Aggregator, process, collect_expired, record_line, new, flush}
use logtailr.Cmd.Pipeline.Steps.{
  append_assoc, append-nil, passing, emitted, passing-append, due, due-nil, EndsEmpty, Plain,
  stopped_by, step-Kept,
}
use logtailr.Cmd.Pipeline.{
  Settings, Pipeline, Event, emit, tick, cancel, stop_tailers, receive, receive_batch, sweep, start,
  parsed, passes, deliver, process_raw, process_all, flush_agg, step, run,
}

-- the end of the context, the stop of the tailers, and the final sweep
abbrev pub shutdown : ℕ → List Event
shutdown now = cancel ∷ stop_tailers ∷ sweep now ∷ []

module _ (settings : Settings) where
  emitted-cons :
      (e : Event) (es : List Event) (b : Bool)
      → passing settings (emitted settings b (e ∷ []))
          ++ passing settings (emitted settings (stopped_by settings e b) es)
        ≡ passing settings (emitted settings b (e ∷ es))
  unfolding emitted passing
  emitted-cons (emit raw) es true = refl
  emitted-cons (emit raw) es false =
      sym (passing-append settings (raw ∷ []) (emitted settings false es))
  emitted-cons (tick now) es b = refl
  emitted-cons cancel es b = refl
  emitted-cons stop_tailers es b = refl
  emitted-cons (receive now) es b = refl
  emitted-cons receive_batch es b = refl
  emitted-cons (sweep now) es b = refl

  run-due :
      (es : List Event) (p : Pipeline)
      → Plain settings p
      → (due settings (run settings es p)
          ≡ due settings p ++ passing settings (emitted settings p.stopped es))
        × EndsEmpty settings (run settings es p)
  unfolding run emitted
  run-due [] p (a, b, d) = (due-nil settings p, d)
  run-due (e ∷ es) p plain =
      let p' = step settings e p in
      let (q, s, plain') = step-Kept settings e p plain in
      let (r, d) = run-due es p' plain' in
      (
        r
            ∙ ap (λ xs. xs ++ passing settings (emitted settings p'.stopped es)) q
            ∙ append_assoc (due settings p) (passing settings (emitted settings p.stopped (e ∷ [])))
                (passing settings (emitted settings p'.stopped es))
            ∙ ap
                (λ b.
                  due settings p
                  ++ (passing settings (emitted settings p.stopped (e ∷ []))
                      ++ passing settings (emitted settings b es)))
                s
            ∙ ap (λ xs. due settings p ++ xs) (emitted-cons e es p.stopped),
        d,
      )

  pub finished-written :
      (es : List Event)
      → (run settings es (start none)).finished ≡ true
      → (run settings es (start none)).written ≡ passing settings (emitted settings false es)
  unfolding passing
  finished-written es f =
      let none_finished : EndsEmpty settings (start none) = λ g. ground arith in
      let (r, d) = run-due es (start none) (refl, refl, none_finished) in
      let (c, _) = d f in
      let p = run settings es (start none) in
      sym (append-nil p.written) ∙ ap (λ xs. p.written ++ passing settings xs) (sym c) ∙ r

  run-append :
      (es fs : List Event) (p : Pipeline)
      → run settings (es ++ fs) p ≡ run settings fs (run settings es p)
  unfolding run
  run-append [] fs p = refl
  run-append (e ∷ es) fs p = run-append es fs (step settings e p)

  emitted-shutdown :
      (es : List Event) (now : ℕ) (b : Bool)
      → emitted settings b (es ++ shutdown now) ≡ emitted settings b es
  unfolding emitted
  emitted-shutdown [] now b = refl
  emitted-shutdown (emit raw ∷ es) now b = rw (emitted-shutdown es now b) refl
  emitted-shutdown (tick t ∷ es) now b = emitted-shutdown es now b
  emitted-shutdown (cancel ∷ es) now b = emitted-shutdown es now b
  emitted-shutdown (stop_tailers ∷ es) now b = emitted-shutdown es now true
  emitted-shutdown (receive t ∷ es) now b = emitted-shutdown es now b
  emitted-shutdown (receive_batch ∷ es) now b = emitted-shutdown es now b
  emitted-shutdown (sweep t ∷ es) now b = emitted-shutdown es now b

  draining-flush_agg :
      (agg : Option Aggregator) (p : Pipeline) → (flush_agg settings agg p).draining ≡ p.draining
  unfolding flush_agg
  draining-flush_agg none p = refl
  draining-flush_agg (some a) p = refl

  either_draining :
      (draining : Bool) (p q : Pipeline)
      → p.draining ≡ draining
      → q.draining ≡ true
      → (if draining then p else q).draining ≡ true
  either_draining true p q h g = h
  either_draining false p q h g = g

  draining-cancel : (p : Pipeline) → (step settings cancel p).draining ≡ true
  unfolding step
  draining-cancel p =
      let q = record p { draining = true } in
      either_draining p.draining p (flush_agg settings p.agg q) refl (draining-flush_agg p.agg q)

  either_finished :
      (go : Bool) (p q : Pipeline)
      → p.finished ≡ true
      → (go ≡ false → q.finished ≡ true)
      → (if go then p else q).finished ≡ true
  either_finished true p q f g = f
  either_finished false p q f g = g refl

  finished-sweep :
      (now : ℕ) (p : Pipeline)
      → p.draining ≡ true
      → p.stopped ≡ true
      → (step settings (sweep now) p).finished ≡ true
  unfolding step
  finished-sweep now p d s =
      either_finished (p.draining && p.stopped && not p.finished)
        (record (process_all settings now p.log_chan (record p { log_chan = [] })) {
          finished = true;
        })
        p refl (λ g. ground (arith, d, s, g))

  finished-shutdown : (now : ℕ) (p : Pipeline) → (run settings (shutdown now) p).finished ≡ true
  unfolding run step
  finished-shutdown now p =
      finished-sweep now (step settings stop_tailers (step settings cancel p)) (draining-cancel p)
        refl

  -- Without an aggregator no line is lost on shutdown: whatever happened before, in any order, the
  -- pipeline ends once the context has ended and the tailers are stopped, and then it has written
  -- exactly the lines that the tailers emitted until they were stopped and that pass the level
  -- and the pattern, as they are parsed, in the order in which they were emitted.
  pub written-shutdown :
      (es : List Event) (now : ℕ)
      → (let p = run settings (es ++ shutdown now) (start none) in
          (p.finished ≡ true) × (p.written ≡ passing settings (emitted settings false es)))
  written-shutdown es now =
      let ended : (run settings (es ++ shutdown now) (start none)).finished ≡ true =
        ap (λ p. p.finished) (run-append es (shutdown now) (start none))
        ∙ finished-shutdown now (run settings es (start none)) in
      (
        ended,
        finished-written (es ++ shutdown now) ended
            ∙ ap (λ xs. passing settings xs) (emitted-shutdown es now false),
      )

  -- With an aggregator a line can be lost on shutdown: one that is emitted before the context ends,
  -- passes the level and the pattern, and is received while draining, is put in the aggregator
  -- after its last flush. The pipeline ends without having written it.
  pub draining-written :
      (raw : LogLine) (now : ℕ) (window min_count : ℤ)
      → passes settings (parsed settings raw) ≡ true
      → (let p =
            run settings
              (emit raw ∷ cancel ∷ stop_tailers ∷ sweep now ∷ [])
              (start (some (new window min_count))) in
          (p.finished ≡ true) × (p.written ≡ []))
  unfolding run step flush_agg process_all process_raw deliver flush process collect_expired new get
      record_line
  draining-written raw now window min_count h = rw h (refl, refl)
