-- ===== src/Cmd/Tailers/Running.antt =====
-- cmd/tailer_manager.go: which tailers Reconcile starts, keeps and stops.
use mathlib.Core.List.{append_assoc, append-nil, map-append}
use logtailr.Base.{
  String, ◌≡◌, refl, sym, ap, ◌∙◌, Bool, true, false, not, ◌&&◌, Option, none, some, is_some, List,
  [], ◌∷◌, ◌++◌, map, if◌then◌else◌, str_eq, eq_iff, eq_refl, arith, Bool-cases, inl, inr,
}
use logtailr.Base.Dict.{Dict, get, get-put}
use logtailr.Base.Dict.Distinct.{IsDistinct}
use logtailr.Base.Result.{Result, ok, err}
use logtailr.Config.{SourceConfig}
use logtailr.Cmd.Tailers.{
  Tailing, TailerError, TailerManager, source_changed, create_tailer, add_created, add_source,
  remove_found, remove_source, by_name, remove_missing, visit, visit_all, reconcile,
}
use logtailr.Cmd.Tailers.Reconcile.{
  Keyed, by_name-Keyed, Paired, remove_source_lem, remove_source-Paired, remove_missing_lem,
  visit_lem, target, get-reconcile,
}

-- is a source that is there changed?
unfoldable pub is_changed : SourceConfig → Option SourceConfig → Bool
is_changed src none = false
is_changed src (some old) = source_changed old src

module _ (lib : Tailing) where
  open lib use {Tailer, Error, start, stop}

  unfoldable pub started : Result (TailerError Error) Tailer → Option Tailer
  started (ok t) = some (start t)
  started (err e) = none

  -- the tailer that runs under a name, by the source that is wanted, the one that is there and its tailer
  unfoldable pub tailer_for : SourceConfig → Option SourceConfig → Option Tailer → Option Tailer
  unfolding started
  tailer_for src none t = started (create_tailer lib src)
  tailer_for src (some old) t =
      if source_changed old src then started (create_tailer lib src) else t

  unfoldable pub tailer_target :
      Option SourceConfig → Option SourceConfig → Option Tailer → Option Tailer
  unfolding tailer_for
  tailer_target none current t = none
  tailer_target (some src) current t = tailer_for src current t

  abbrev of_option : Option Tailer → List Tailer
  of_option none = []
  of_option (some t) = t ∷ []

  -- the tailers whose sources are no longer wanted
  unfoldable pub missing : Dict SourceConfig → Dict SourceConfig → Dict Tailer → List Tailer
  missing [] wanted tailers = []
  missing ((n, src) ∷ current) wanted tailers =
      (if is_some (get wanted n) then [] else of_option (get tailers n))
      ++ missing current wanted tailers

  -- the tailers whose sources are wanted in another form
  unfoldable pub changed : Dict SourceConfig → Dict SourceConfig → Dict Tailer → List Tailer
  unfolding is_changed
  changed [] current tailers = []
  changed ((n, src) ∷ wanted) current tailers =
      (if is_changed src (get current n) then of_option (get tailers n) else [])
      ++ changed wanted current tailers

  -- the same tailers under the names of a dictionary
  abbrev AgreeOn : Dict SourceConfig → Dict Tailer → Dict Tailer → Type 0
  AgreeOn names a b = (k : String) → is_some (get names k) ≡ true → get a k ≡ get b k

  agree_first :
      (n : String) (src : SourceConfig) (names : Dict SourceConfig) (a b : Dict Tailer)
      → AgreeOn ((n, src) ∷ names) a b
      → (get a n ≡ get b n) × AgreeOn names a b
  unfolding get
  agree_first n src names a b h = (h n (rw (eq_refl n) refl), λ k is. h k (ground arith))

  missing-frame :
      (current wanted : Dict SourceConfig) (a b : Dict Tailer)
      → AgreeOn current a b
      → missing current wanted a ≡ missing current wanted b
  unfolding missing
  missing-frame [] wanted a b h = refl
  missing-frame ((n, src) ∷ current) wanted a b h =
      let (e, h') = agree_first n src current a b h in
      rw (e, missing-frame current wanted a b h') refl

  changed-frame :
      (wanted current : Dict SourceConfig) (a b : Dict Tailer)
      → AgreeOn wanted a b
      → changed wanted current a ≡ changed wanted current b
  unfolding changed
  changed-frame [] current a b h = refl
  changed-frame ((n, src) ∷ wanted) current a b h =
      let (e, h') = agree_first n src wanted a b h in
      rw (e, changed-frame wanted current a b h') refl

  retired-remove_found :
      (n : String) (o : Option Tailer) (m : TailerManager lib)
      → (remove_found lib n o m).retired ≡ m.retired ++ map stop (of_option o)
  unfolding remove_found
  retired-remove_found n none m = sym (append-nil m.retired)
  retired-remove_found n (some t) m = refl

  retired-add_created :
      (src : SourceConfig) (r : Result (TailerError Error) Tailer) (m : TailerManager lib)
      → (add_created lib src r m).1.retired ≡ m.retired
  unfolding add_created
  retired-add_created src (ok t) m = refl
  retired-add_created src (err e) m = refl

  no_tailer :
      (o : Option Tailer) (s : Option SourceConfig) → is_some o ≡ is_some s → s ≡ none → o ≡ none
  no_tailer none s h e = refl
  no_tailer (some t) s h e = ground arith

  tailers-add_created :
      (src : SourceConfig) (r : Result (TailerError Error) Tailer) (m : TailerManager lib)
      → get m.tailers src.name ≡ none
      → (k : String)
      → get (add_created lib src r m).1.tailers k
        ≡ (if str_eq src.name k then started r else get m.tailers k)
  unfolding add_created started
  tailers-add_created src (ok t) m h k = get-put m.tailers src.name k (start t)
  tailers-add_created src (err e) m h k = ground (arith, eq_iff src.name k)

  -- two lists of stopped tailers, one after the other
  joined :
      (before a b after : List Tailer) (m : List Tailer)
      → m ≡ before ++ map stop a
      → after ≡ m ++ map stop b
      → after ≡ before ++ map stop (a ++ b)
  joined before a b after m h h' =
      h'
      ∙ ap (λ l. l ++ map stop b) h
      ∙ append_assoc before (map stop a) (map stop b)
      ∙ ap (λ l. before ++ l) (sym (map-append stop a b))

  remove_missing_running :
      (current wanted : Dict SourceConfig) (m : TailerManager lib)
      → IsDistinct current
      → Paired lib m
      → ((k : String)
          → get (remove_missing lib current wanted m).tailers k ≡ (
              if is_some (get current k) && not (is_some (get wanted k))
              then none
              else get m.tailers k))
        × ((remove_missing lib current wanted m).retired
            ≡ m.retired ++ map stop (missing current wanted m.tailers))
  unfolding remove_missing get missing
  remove_missing_running [] wanted m d p = (λ k. refl, sym (append-nil m.retired))
  remove_missing_running ((n, src) ∷ current) wanted m (new, d) p =
      elim (Bool-cases (is_some (get wanted n))) [
        | inl kept ↦
            let (f, stopped) = remove_missing_running current wanted m d p in
            rw (kept, remove_missing, missing) (λ k. ground (arith, f k, eq_iff n k), stopped)
        | inr gone ↦
            let m' = remove_source lib n m in
            let found = remove_source_lem lib n m p in
            let (f, stopped) =
              remove_missing_running current wanted m' d (remove_source-Paired lib n m p) in
            let agree : AgreeOn current m'.tailers m.tailers =
              λ k is. ground (arith, (found k).1, eq_iff n k) in
            let first : m'.retired ≡ m.retired ++ map stop (of_option (get m.tailers n)) =
              unfold remove_source in retired-remove_found n (get m.tailers n) m in
            rw (gone, remove_missing, missing)
              (
                λ k. ground (arith, f k, (found k).1, eq_iff n k),
                joined m.retired (of_option (get m.tailers n)) (missing current wanted m.tailers) _
                    m'.retired first
                    (stopped
                      ∙ ap (λ l. m'.retired ++ map stop l)
                          (missing-frame current wanted m'.tailers m.tailers agree)),
              )
      ]

  visit_running :
      (src : SourceConfig) (current : Option SourceConfig) (m : TailerManager lib)
      → Paired lib m
      → get m.sources src.name ≡ current
      → ((k : String)
          → get (visit lib src current m).tailers k ≡ (
              if str_eq src.name k
              then tailer_for src current (get m.tailers src.name)
              else get m.tailers k))
        × ((visit lib src current m).retired
            ≡ m.retired
              ++ map stop
                  (if is_changed src current then of_option (get m.tailers src.name) else []))
  unfolding visit tailer_for is_changed add_source
  visit_running src none m p h = (
    tailers-add_created src (create_tailer lib src) m
        (no_tailer (get m.tailers src.name) (get m.sources src.name) (p src.name) h),
    retired-add_created src (create_tailer lib src) m ∙ sym (append-nil m.retired),
  )
  visit_running src (some old) m p h = elim (Bool-cases (source_changed old src)) [
    | inl c ↦
        let m' = remove_source lib src.name m in
        let found = remove_source_lem lib src.name m p in
        let gone : get m'.tailers src.name ≡ none =
          (found src.name).1 ∙ (rw (eq_refl src.name) refl) in
        let r = create_tailer lib src in
        let first : m'.retired ≡ m.retired ++ map stop (of_option (get m.tailers src.name)) =
          unfold remove_source in retired-remove_found src.name (get m.tailers src.name) m in
        rw c (
          λ k. ground (arith, tailers-add_created src r m' gone k, (found k).1, eq_iff src.name k),
          retired-add_created src r m' ∙ first,
        )
    | inr c ↦ rw c (λ k. ground (arith, eq_iff src.name k), sym (append-nil m.retired))
  ]

  visit_all_running :
      (wanted current : Dict SourceConfig) (m : TailerManager lib)
      → Keyed wanted
      → IsDistinct wanted
      → Paired lib m
      → ((k : String) → is_some (get wanted k) ≡ true → get m.sources k ≡ get current k)
      → ((k : String)
          → get (visit_all lib wanted current m).tailers k ≡ (
              if is_some (get wanted k)
              then tailer_target (get wanted k) (get current k) (get m.tailers k)
              else get m.tailers k))
        × ((visit_all lib wanted current m).retired
            ≡ m.retired ++ map stop (changed wanted current m.tailers))
  unfolding visit_all get tailer_target changed
  visit_all_running [] current m keyed distinct p same = (λ k. refl, sym (append-nil m.retired))
  visit_all_running ((n, src) ∷ wanted) current m (e, keyed) (new, distinct) p same =
      let here : get m.sources src.name ≡ get current n = rw e (same n (rw (eq_refl n) refl)) in
      let (p', v) = visit_lem lib src (get current n) m p here in
      let (t, first) = visit_running src (get current n) m p here in
      let m' = visit lib src (get current n) m in
      let same' : (j : String) → is_some (get wanted j) ≡ true → get m'.sources j ≡ get current j =
        λ j w. ground (arith, v j, e, same j, eq_iff n j, eq_iff src.name j) in
      let (rest, last) = visit_all_running wanted current m' keyed distinct p' same' in
      let agree : AgreeOn wanted m'.tailers m.tailers =
        λ j w. ground (arith, t j, e, eq_iff n j, eq_iff src.name j) in
      let named : get m.tailers src.name ≡ get m.tailers n = ap (λ j. get m.tailers j) e in
      (
        λ k. elim (Bool-cases (str_eq n k)) [
          | inl now ↦
              let it : n ≡ k = (eq_iff n k).0 now in
              let absent_later : get wanted k ≡ none = sym (ap (λ j. get wanted j) it) ∙ new in
              let current_at = ap (λ j. get current j) it in
              let tailer_at = ap (λ j. get m.tailers j) it in
              ground (arith, rest k, t k, e, named, eq_iff src.name k)
          | inr later ↦ ground (arith, rest k, t k, e, eq_iff src.name k)
        ],
        joined m.retired _ (changed wanted current m.tailers) _ m'.retired
            (first
              ∙ ap
                  (λ o.
                    m.retired
                    ++ map stop (if is_changed src (get current n) then of_option o else []))
                  named)
            (last
              ∙ ap (λ l. m'.retired ++ map stop l)
                  (changed-frame wanted current m'.tailers m.tailers agree)),
      )

  -- After Reconcile, under each name: where no source is wanted, or its tailer cannot be created, there
  -- is no tailer; a source that is unchanged keeps the tailer that it had; a new or changed one has a
  -- tailer made for it and started. And the tailers that were stopped are exactly those of the sources
  -- that are no longer wanted and then those of the changed ones, each once. It is supposed that before,
  -- the same names have a tailer and a source, and no name stands twice in the map of the sources.
  pub tailers-reconcile :
      (new_sources : List SourceConfig) (m : TailerManager lib) (k : String)
      → Paired lib m
      → IsDistinct m.sources
      → (get (reconcile lib new_sources m).sources k
          ≡ target lib (get (by_name new_sources []) k) (get m.sources k))
        × (get (reconcile lib new_sources m).tailers k
            ≡ tailer_target (get (by_name new_sources []) k) (get m.sources k) (get m.tailers k))
        × ((reconcile lib new_sources m).retired
            ≡ m.retired
              ++ map stop (
                  missing m.sources (by_name new_sources []) m.tailers
                  ++ changed (by_name new_sources []) m.sources m.tailers))
  unfolding reconcile tailer_target
  tailers-reconcile new_sources m k p d =
      let wanted = by_name new_sources [] in
      let (keyed, distinct) = by_name-Keyed new_sources [] tt tt in
      let (p', kept) = remove_missing_lem lib m.sources wanted m p in
      let (t, first) = remove_missing_running m.sources wanted m d p in
      let m' = remove_missing lib m.sources wanted m in
      let same : (j : String) → is_some (get wanted j) ≡ true → get m'.sources j ≡ get m.sources j =
        λ j w. ground (arith, kept j) in
      let (found, last) = visit_all_running wanted m.sources m' keyed distinct p' same in
      let agree : AgreeOn wanted m'.tailers m.tailers = λ j w. ground (arith, t j) in
      (
        get-reconcile lib new_sources m p k,
        ground (arith, found k, t k, p k),
        joined m.retired (missing m.sources wanted m.tailers) (changed wanted m.sources m.tailers) _
            m'.retired first
            (last
              ∙ ap (λ l. m'.retired ++ map stop l)
                  (changed-frame wanted m.sources m'.tailers m.tailers agree)),
      )
