-- ===== src/Health/Updates.antt =====
-- The changes that internal/health/health.go reports to its listener.
use logtailr.Base.{
  ℕ, ◌+◌, String, ◌≡◌, refl, sym, ap, ◌∙◌, true, false, not, ◌&&◌, Option, none, some, List, [],
  ◌∷◌, ◌++◌, arith, str_eq, eq_iff, eq_refl, if◌then◌else◌, inl, inr, Bool-cases,
}
use logtailr.Base.Dict.{get, get-put}
use logtailr.Health.{
  Status, unset, healthy, degraded, failed, stopped, starting, same_status, SourceHealth, Monitor,
  Change, with_error, get_or_create_source, update_status,
}

pub same_status_refl : (s : Status) → same_status s s ≡ true
unfolding same_status
same_status_refl unset = refl
same_status_refl healthy = refl
same_status_refl degraded = refl
same_status_refl failed = refl
same_status_refl stopped = refl
same_status_refl starting = refl

pub eq_of_same_status : (s t : Status) → same_status s t ≡ true → s ≡ t
unfolding same_status
eq_of_same_status unset t h = ground arith
eq_of_same_status healthy t h = ground arith
eq_of_same_status degraded t h = ground arith
eq_of_same_status failed t h = ground arith
eq_of_same_status stopped t h = ground arith
eq_of_same_status starting t h = ground arith

abbrev status_in : Option SourceHealth → Status
status_in none = unset
status_in (some s) = s.status

abbrev errors_in : Option SourceHealth → ℕ
errors_in none = 0
errors_in (some s) = s.error_count

-- the status of a source; of one that is not known, the empty one
abbrev pub status_of : String → Monitor → Status
status_of name m = status_in (get m.sources name)

abbrev pub errors_of : String → Monitor → ℕ
errors_of name m = errors_in (get m.sources name)

abbrev has_error : Option String → ℕ
has_error none = 0
has_error (some e) = 1

module _ (now : ℕ) (name : String) (status : Status) (error : Option String) (m : Monitor) where
  before : SourceHealth
  unfolding get_or_create_source
  before = get_or_create_source now name (get m.sources name)

  after : SourceHealth
  unfolding before with_error
  after = with_error error (record before { status = status; last_update = now })

  after_fields :
      (after.status ≡ status)
      × (after.error_count ≡ errors_of name m + has_error error)
      × (before.status ≡ status_of name m)
  unfolding after
  after_fields = ground arith

  -- An update sets the status of its source and counts its error, and leaves every other source
  -- as it was; the listener is told of it exactly when there is one and the status was another.
  pub update_status_lem :
      (status_of name (update_status now name status error m).0 ≡ status)
      × (errors_of name (update_status now name status error m).0
          ≡ errors_of name m + has_error error)
      × ((k : String)
          → str_eq name k ≡ false
          → get (update_status now name status error m).0.sources k ≡ get m.sources k)
      × ((update_status now name status error m).1 ≡ (
          if m.listening && not (same_status (status_of name m) status)
          then some (record { source = name; old_status = status_of name m; new_status = status })
          else none))
  unfolding update_status after
  update_status_lem = (
    rw (get-put m.sources name name after, eq_refl name) (after_fields.0),
    rw (get-put m.sources name name after, eq_refl name) (after_fields.1),
    λ k other. rw (get-put m.sources name k after, other),
    rw (after_fields.2),
  )

pub record Update : Type 0 where
  pub now : ℕ
  pub name : String
  pub status : Status
  pub error : Option String

abbrev listed : Option Change → List Change
listed none = []
listed (some c) = c ∷ []

-- the monitor after some updates, and the changes that the listener was told of
unfoldable pub run : List Update → Monitor → Monitor × List Change
run [] m = (m, [])
run (u ∷ us) m =
    let (m', change) = update_status u.now u.name u.status u.error m in
    let (m'', changes) = run us m' in (m'', listed change ++ changes)

-- The status of a source as the changes tell it: each starts where the one before it ended.
pub follow : String → Status → List Change → Option Status
follow name status [] = some status
follow name status (c ∷ cs) =
    let here = (if same_status c.old_status status then follow name c.new_status cs else none) in
    let there = follow name status cs in if str_eq c.source name then here else there

listening-update_status :
    (u : Update) (m : Monitor)
    → (update_status u.now u.name u.status u.error m).0.listening ≡ m.listening
unfolding update_status
listening-update_status u m = refl

follow-listed_same :
    (name : String) (o : Option Change) (cs : List Change) (old new : Status)
    → o ≡ (
        if not (same_status old new)
        then some (record { source = name; old_status = old; new_status = new })
        else none)
    → follow name old (listed o ++ cs) ≡ follow name new cs
unfolding follow
follow-listed_same name o cs old new h =
    ground (arith, eq_refl name, same_status_refl old, eq_of_same_status old new)

follow-listed_other :
    (name source : String) (o : Option Change) (cs : List Change) (old new start : Status)
    → str_eq source name ≡ false
    → o ≡ (
        if not (same_status old new)
        then some (record { source = source; old_status = old; new_status = new })
        else none)
    → follow name start (listed o ++ cs) ≡ follow name start cs
unfolding follow
follow-listed_other name source o cs old new start other h = ground arith

-- With a listener, whatever the updates, the changes that it is told of lead each source from its
-- status before to its status after, each starting where the one before it ended.
pub follow-run :
    (us : List Update) (m : Monitor) (name : String)
    → m.listening ≡ true
    → follow name (status_of name m) (run us m).1 ≡ some (status_of name (run us m).0)
unfolding run
follow-run [] m name l = unfold follow in refl
follow-run (u ∷ us) m name l =
    let (set, counted, kept, told) = update_status_lem u.now u.name u.status u.error m in
    let m' = (update_status u.now u.name u.status u.error m).0 in
    let told' = simp l at told in
    elim (Bool-cases (str_eq u.name name)) [
      | inl same ↦
          let e = (eq_iff u.name name).0 same in
          rw (← e) (
            follow-listed_same u.name _ (run us m').1 _ _ told'
            ∙ ap (λ st. follow u.name st (run us m').1) (sym set)
            ∙ follow-run us m' u.name (listening-update_status u m ∙ l))
      | inr other ↦
          follow-listed_other name u.name _ (run us m').1 _ _ (status_of name m) other told'
          ∙ ap (λ o. follow name (status_in o) (run us m').1) (sym (kept name other))
          ∙ follow-run us m' name (listening-update_status u m ∙ l)
    ]
