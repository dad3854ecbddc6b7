-- ===== src/Config/Sources/Checked.antt =====
-- internal/config/config.go: what the checks of the sources leave.
use logtailr.Base.{
  ℕ, ◌+◌, String, ◌≡◌, refl, Bool, true, false, not, ◌||◌, ◌&&◌, List, [], ◌∷◌, if◌then◌else◌,
  str_eq, arith, All, All-map,
}
use logtailr.Base.Result.{Result, ok, ◌>>◌}
use logtailr.Config.{SourceConfig, Checkers, check, one_of, passed, unchecked}
use logtailr.Config.Sources.{
  SourceError, missing_name, duplicate_name, invalid_type, invalid_parser, missing_path,
  missing_container, missing_unit, missing_pod, pod_and_selector, is_set, valid_source_types,
  valid_parsers, check_stat, validate_label_selector, check_kubernetes, check_required,
  check_journalctl, check_misplaced, validate_source, validate_sources,
}

-- a source names what it reads: a path, a container, a unit, or one of a pod and a selector
abbrev pub has_target : SourceConfig → Bool
has_target src =
    if str_eq src.kind "file"
    then is_set src.path
    else if str_eq src.kind "docker"
    then is_set src.container
    else if str_eq src.kind "journalctl"
    then is_set src.unit
    else if str_eq src.kind "kubernetes"
    then (is_set src.pod && not (is_set src.label_selector))
      || (not (is_set src.pod) && is_set src.label_selector)
    else true

abbrev pub IsValid : SourceConfig → Type 0
IsValid src =
    (is_set src.name ≡ true)
    × (one_of valid_source_types src.kind ≡ true)
    × (one_of valid_parsers src.parser ≡ true)
    × (has_target src ≡ true)

-- no source has the name of an earlier one
abbrev pub NamesDiffer : List SourceConfig → Type 0
NamesDiffer [] = Unit
NamesDiffer (s ∷ ss) = All (λ t. str_eq t.name s.name ≡ false) ss × NamesDiffer ss

module _ (lib : Checkers) where
  open lib use {StatError, stat}

  abbrev Checked : Type 0
  Checked = Result (SourceError StatError) Unit

  one_target :
      (p l : Bool)
      → (p && l) ≡ false
      → (not p && not l) ≡ false
      → ((p && not l) || (not p && l)) ≡ true
  one_target true true h k = ground arith
  one_target true false h k = refl
  one_target false true h k = refl
  one_target false false h k = ground arith

  check_kubernetes-target :
      (src : SourceConfig)
      → check_kubernetes lib src ≡ ok tt
      → ((is_set src.pod && not (is_set src.label_selector))
          || (not (is_set src.pod) && is_set src.label_selector))
        ≡ true
  unfolding check_kubernetes
  check_kubernetes-target src h =
      let none_set = str_eq src.pod "" && str_eq src.label_selector "" in
      let both_set = is_set src.pod && is_set src.label_selector in
      let c1 : Checked = check none_set (missing_pod src.name) in
      let c2 : Checked = check both_set (pod_and_selector src.name) in
      let c3 : Checked =
        if is_set src.label_selector
        then validate_label_selector lib src.label_selector
        else ok tt in
      let c4 : Checked =
        if is_set src.kubeconfig then check_stat lib src.name (stat src.kubeconfig) else ok tt in
      let (h3, _) = passed (c1 >> c2 >> c3) c4 h in
      let (h2, _) = passed (c1 >> c2) c3 h3 in
      let (h1, k) = passed c1 c2 h2 in
      let a = unchecked none_set (missing_pod src.name) h1 in
      let b = unchecked both_set (pod_and_selector src.name) k in
      one_target (is_set src.pod) (is_set src.label_selector) b (ground arith)

  check_required-has_target :
      (src : SourceConfig) → check_required lib src ≡ ok tt → has_target src ≡ true
  unfolding check_required
  check_required-has_target src h =
      let no_path = str_eq src.kind "file" && str_eq src.path "" in
      let no_container = str_eq src.kind "docker" && str_eq src.container "" in
      let no_unit = str_eq src.kind "journalctl" && str_eq src.unit "" in
      let c1 : Checked = check no_path (missing_path src.name) in
      let c2 : Checked = check no_container (missing_container src.name) in
      let c3 : Checked = check no_unit (missing_unit src.name) in
      let c4 : Checked = if str_eq src.kind "kubernetes" then check_kubernetes lib src else ok tt in
      let (h3, k4) = passed (c1 >> c2 >> c3) c4 h in
      let (h2, k3) = passed (c1 >> c2) c3 h3 in
      let (k1, k2) = passed c1 c2 h2 in
      let a = unchecked no_path (missing_path src.name) k1 in
      let b = unchecked no_container (missing_container src.name) k2 in
      let c = unchecked no_unit (missing_unit src.name) k3 in
      ground (arith, check_kubernetes-target src)

  validate_source-IsValid :
      (i : ℕ) (seen : List String) (src : SourceConfig)
      → validate_source lib i seen src ≡ ok tt
      → (one_of seen src.name ≡ false) × IsValid src
  unfolding validate_source
  validate_source-IsValid i seen src h =
      let no_type = not (one_of valid_source_types src.kind) in
      let no_parser = not (one_of valid_parsers src.parser) in
      let c1 : Checked = check (str_eq src.name "") (missing_name i) in
      let c2 : Checked = check (one_of seen src.name) (duplicate_name src.name) in
      let c3 : Checked = check no_type (invalid_type src.name src.kind) in
      let c4 = check_required lib src in
      let c5 = check_journalctl lib src in
      let c6 = check_misplaced lib src in
      let c7 : Checked = check no_parser (invalid_parser src.name src.parser) in
      let (h6, k7) = passed (c1 >> c2 >> c3 >> c4 >> c5 >> c6) c7 h in
      let (h5, _) = passed (c1 >> c2 >> c3 >> c4 >> c5) c6 h6 in
      let (h4, _) = passed (c1 >> c2 >> c3 >> c4) c5 h5 in
      let (h3, k4) = passed (c1 >> c2 >> c3) c4 h4 in
      let (h2, k3) = passed (c1 >> c2) c3 h3 in
      let (k1, k2) = passed c1 c2 h2 in
      let named = unchecked (str_eq src.name "") (missing_name i) k1 in
      let fresh = unchecked (one_of seen src.name) (duplicate_name src.name) k2 in
      let typed = unchecked no_type (invalid_type src.name src.kind) k3 in
      let parsed = unchecked no_parser (invalid_parser src.name src.parser) k7 in
      (fresh, (ground arith, ground arith, ground arith, check_required-has_target src k4))

  validate_sources-fresh :
      (i : ℕ) (seen : List String) (srcs : List SourceConfig)
      → validate_sources lib i seen srcs ≡ ok tt
      → All (λ s. one_of seen s.name ≡ false) srcs
  unfolding validate_sources
  validate_sources-fresh i seen [] h = tt
  validate_sources-fresh i seen (s ∷ ss) h =
      let (first, rest) = passed (validate_source lib i seen s) _ h in
      let later = validate_sources-fresh (i + 1) (s.name ∷ seen) ss rest in
      ((validate_source-IsValid i seen s first).0, All-map (λ t k. ground arith) ss later)

  pub validate_sources-IsValid :
      (i : ℕ) (seen : List String) (srcs : List SourceConfig)
      → validate_sources lib i seen srcs ≡ ok tt
      → All IsValid srcs × NamesDiffer srcs
  unfolding validate_sources
  validate_sources-IsValid i seen [] h = (tt, tt)
  validate_sources-IsValid i seen (s ∷ ss) h =
      let (first, rest) = passed (validate_source lib i seen s) _ h in
      let (valid, differ) = validate_sources-IsValid (i + 1) (s.name ∷ seen) ss rest in
      let later = validate_sources-fresh (i + 1) (s.name ∷ seen) ss rest in
      (
        ((validate_source-IsValid i seen s first).1, valid),
        (All-map (λ t k. ground arith) ss later, differ),
      )
