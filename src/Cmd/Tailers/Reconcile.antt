-- ===== src/Cmd/Tailers/Reconcile.antt =====
-- cmd/tailer_manager.go: which sources run after Reconcile.
use logtailr.Base.{
  String, ◌≡◌, refl, sym, ap, ◌∙◌, true, false, not, ◌&&◌, Option, none, some, is_some, List, [],
  ◌∷◌, if◌then◌else◌, str_eq, eq_iff, eq_refl, arith, Bool-cases, inl, inr,
}
use logtailr.Base.Dict.{Dict, get, put, get-put, get-remove}
use logtailr.Base.Dict.Distinct.{IsDistinct, put-IsDistinct}
use logtailr.Base.Result.{Result, ok, err}
use logtailr.Config.{SourceConfig}
use logtailr.Cmd.Tailers.{
  Tailing, TailerError, TailerManager, source_changed, create_tailer, add_created, add_source,
  remove_found, remove_source, by_name, remove_missing, visit, visit_all, reconcile,
}

-- each source stands under its name
abbrev pub Keyed : Dict SourceConfig → Type 0
Keyed [] = Unit
Keyed ((k, s) ∷ d) = (s.name ≡ k) × Keyed d

put-Keyed : (d : Dict SourceConfig) (s : SourceConfig) → Keyed d → Keyed (put d s.name s)
unfolding put
put-Keyed [] s h = (refl, tt)
put-Keyed ((k, t) ∷ d) s (e, h) = elim (Bool-cases (str_eq k s.name)) [
  | inl same ↦ rw same (refl, h)
  | inr other ↦ rw other (e, put-Keyed d s h)
]

pub by_name-Keyed :
    (ss : List SourceConfig) (d : Dict SourceConfig)
    → Keyed d
    → IsDistinct d
    → Keyed (by_name ss d) × IsDistinct (by_name ss d)
unfolding by_name
by_name-Keyed [] d h u = (h, u)
by_name-Keyed (s ∷ ss) d h u =
    by_name-Keyed ss (put d s.name s) (put-Keyed d s h) (put-IsDistinct d s.name s u)

absent : (o : Option SourceConfig) → is_some o ≡ false → o ≡ none
absent none h = refl
absent (some s) h = ground arith

module _ (lib : Tailing) where
  open lib use {Tailer, Error}

  -- a name has a tailer exactly when it has a source
  abbrev pub Paired : TailerManager lib → Type 0
  Paired m = (k : String) → is_some (get m.tailers k) ≡ is_some (get m.sources k)

  if_created : Result (TailerError Error) Tailer → SourceConfig → Option SourceConfig
  if_created (ok t) src = some src
  if_created (err e) src = none

  -- the source that runs under a name: what is wanted there, if its tailer can be created; the
  -- running source stays where nothing has changed
  unfoldable pub wanted_for : SourceConfig → Option SourceConfig → Option SourceConfig
  unfolding if_created
  wanted_for src none = if_created (create_tailer lib src) src
  wanted_for src (some old) =
      if source_changed old src then if_created (create_tailer lib src) src else some old

  unfoldable pub target : Option SourceConfig → Option SourceConfig → Option SourceConfig
  unfolding wanted_for
  target none current = none
  target (some src) current = wanted_for src current

  remove_found_lem :
      (n : String) (t : Option Tailer) (m : TailerManager lib)
      → get m.tailers n ≡ t
      → Paired m
      → (k : String)
      → (get (remove_found lib n t m).sources k ≡ (if str_eq n k then none else get m.sources k))
        × (get (remove_found lib n t m).tailers k ≡ (if str_eq n k then none else get m.tailers k))
  unfolding remove_found
  remove_found_lem n none m h p k =
      let q : get m.sources n ≡ none = absent (get m.sources n) (ground (arith, p n)) in
      ground (arith, eq_iff n k)
  remove_found_lem n (some t) m h p k = (get-remove m.sources n k, get-remove m.tailers n k)

  pub remove_source_lem :
      (n : String) (m : TailerManager lib)
      → Paired m
      → (k : String)
      → (get (remove_source lib n m).sources k ≡ (if str_eq n k then none else get m.sources k))
        × (get (remove_source lib n m).tailers k ≡ (if str_eq n k then none else get m.tailers k))
  unfolding remove_source
  remove_source_lem n m p k = remove_found_lem n (get m.tailers n) m refl p k

  pub remove_source-Paired :
      (n : String) (m : TailerManager lib) → Paired m → Paired (remove_source lib n m)
  remove_source-Paired n m p k = let (s, t) = remove_source_lem n m p k in ground (arith, s, t, p k)

  add_created_lem :
      (src : SourceConfig) (r : Result (TailerError Error) Tailer) (m : TailerManager lib)
      → get m.sources src.name ≡ none
      → (k : String)
      → get (add_created lib src r m).1.sources k
        ≡ (if str_eq src.name k then if_created r src else get m.sources k)
  unfolding add_created if_created
  add_created_lem src (ok t) m h k = get-put m.sources src.name k src
  add_created_lem src (err e) m h k = ground (arith, eq_iff src.name k)

  add_created-Paired :
      (src : SourceConfig) (r : Result (TailerError Error) Tailer) (m : TailerManager lib)
      → Paired m
      → Paired (add_created lib src r m).1
  unfolding add_created
  add_created-Paired src (ok t) m p k =
      ground
        (arith, get-put m.sources src.name k src, get-put m.tailers src.name k (lib.start t), p k)
  add_created-Paired src (err e) m p k = p k

  pub remove_missing_lem :
      (current wanted : Dict SourceConfig) (m : TailerManager lib)
      → Paired m
      → Paired (remove_missing lib current wanted m)
        × ((k : String)
            → get (remove_missing lib current wanted m).sources k ≡ (
                if is_some (get current k) && not (is_some (get wanted k))
                then none
                else get m.sources k))
  unfolding remove_missing get
  remove_missing_lem [] wanted m p = (p, λ k. refl)
  remove_missing_lem ((n, src) ∷ current) wanted m p = elim (Bool-cases (is_some (get wanted n))) [
    | inl kept ↦
        let (q, f) = remove_missing_lem current wanted m p in
        rw (kept, remove_missing) (q, λ k. ground (arith, f k, eq_iff n k))
    | inr gone ↦
        let (q, f) =
          remove_missing_lem current wanted (remove_source lib n m) (remove_source-Paired n m p) in
        rw (gone, remove_missing)
          (q, λ k. ground (arith, f k, (remove_source_lem n m p k).0, eq_iff n k))
  ]

  pub visit_lem :
      (src : SourceConfig) (current : Option SourceConfig) (m : TailerManager lib)
      → Paired m
      → get m.sources src.name ≡ current
      → Paired (visit lib src current m)
        × ((k : String)
            → get (visit lib src current m).sources k
              ≡ (if str_eq src.name k then wanted_for src current else get m.sources k))
  unfolding visit wanted_for add_source
  visit_lem src none m p h = (
    add_created-Paired src (create_tailer lib src) m p,
    add_created_lem src (create_tailer lib src) m h,
  )
  visit_lem src (some old) m p h = elim (Bool-cases (source_changed old src)) [
    | inl c ↦
        let m' = remove_source lib src.name m in
        let gone = remove_source_lem src.name m p in
        let new : get m'.sources src.name ≡ none =
          (gone src.name).0 ∙ (rw (eq_refl src.name) refl) in
        let r = create_tailer lib src in
        rw c (
          add_created-Paired src r m' (remove_source-Paired src.name m p),
          λ k. ground (arith, add_created_lem src r m' new k, (gone k).0, eq_iff src.name k),
        )
    | inr c ↦ rw c (p, λ k. ground (arith, eq_iff src.name k))
  ]

  visit_all_lem :
      (wanted current : Dict SourceConfig) (m : TailerManager lib)
      → Keyed wanted
      → IsDistinct wanted
      → Paired m
      → ((k : String) → is_some (get wanted k) ≡ true → get m.sources k ≡ get current k)
      → (k : String)
      → get (visit_all lib wanted current m).sources k ≡ (
          if is_some (get wanted k) then target (get wanted k) (get current k) else get m.sources k)
  unfolding visit_all get target
  visit_all_lem [] current m keyed distinct p same k = refl
  visit_all_lem ((n, src) ∷ wanted) current m (e, keyed) (new, distinct) p same k =
      let here : get m.sources src.name ≡ get current n = rw e (same n (rw (eq_refl n) refl)) in
      let (p', v) = visit_lem src (get current n) m p here in
      let m' = visit lib src (get current n) m in
      let same' : (j : String) → is_some (get wanted j) ≡ true → get m'.sources j ≡ get current j =
        λ j w. ground (arith, v j, e, same j, eq_iff n j, eq_iff src.name j) in
      let rest = visit_all_lem wanted current m' keyed distinct p' same' k in
      elim (Bool-cases (str_eq n k)) [
        | inl now ↦
            let at : n ≡ k = (eq_iff n k).0 now in
            let absent_later : get wanted k ≡ none = sym (ap (λ j. get wanted j) at) ∙ new in
            let current_at = ap (λ j. get current j) at in
            ground (arith, rest, v k, e, eq_iff src.name k)
        | inr later ↦ ground (arith, rest, v k, e, eq_iff src.name k)
      ]

  -- After Reconcile the sources are those of the new configuration, as far as their tailers can be created.
  pub get-reconcile :
      (new_sources : List SourceConfig) (m : TailerManager lib)
      → Paired m
      → (k : String)
      → get (reconcile lib new_sources m).sources k
        ≡ target (get (by_name new_sources []) k) (get m.sources k)
  unfolding reconcile target
  get-reconcile new_sources m p k =
      let wanted = by_name new_sources [] in
      let (keyed, distinct) = by_name-Keyed new_sources [] tt tt in
      let (p', kept) = remove_missing_lem m.sources wanted m p in
      let m' = remove_missing lib m.sources wanted m in
      let same : (j : String) → is_some (get wanted j) ≡ true → get m'.sources j ≡ get m.sources j =
        λ j w. ground (arith, kept j) in
      let found = visit_all_lem wanted m.sources m' keyed distinct p' same k in
      ground (arith, found, kept k)
