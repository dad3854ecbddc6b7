-- ===== src/Aggregator/Collect.antt =====
-- What the loops of internal/aggregator/aggregator.go that delete entries leave behind.
use logtailr.Base.{
  ℕ, ◌+◌, String, ◌≡◌, refl, Option, none, some, List, [], ◌∷◌, ◌++◌, arith, eq_iff, eq_refl, inl,
  inr, if◌then◌else◌, Bool-cases, str_eq, is_some, ◌∙◌,
}
use logtailr.Base.Int.{ℤ}
use logtailr.Base.Dict.{Dict, get, remove, get-remove}
use logtailr.Base.Dict.Distinct.{IsDistinct, sum_by, sum_by-remove, remove-IsDistinct}
use logtailr.Aggregator.{
  Aggregator, AggregatedLine, Entry, is_expired, collect_from, collect_expired, emitted, flush_from,
  flush, total,
}

pub total-append : (xs ys : List AggregatedLine) → total (xs ++ ys) ≡ total xs + total ys
unfolding total
total-append [] ys = omega arith
total-append (x ∷ xs) ys = omega (arith, total-append xs ys)

-- the lines that the entries stand for
abbrev pub pending : Aggregator → ℕ
pending a = sum_by (λ e. e.count) a.entries

-- what a key holds once the expired entries are gone
abbrev pub live : ℤ → ℕ → Option Entry → Option Entry
live window now none = none
live window now (some e) = if is_expired window now e then none else some e

-- the entries still to be visited are in the map
abbrev Covers : Dict Entry → Dict Entry → Type 0
Covers [] m = Unit
Covers ((k, e) ∷ es) m = (get m k ≡ some e) × Covers es m

Covers-remove :
    (es m : Dict Entry) (k : String) → get es k ≡ none → Covers es m → Covers es (remove m k)
unfolding get
Covers-remove [] m k a c = tt
Covers-remove ((j, e) ∷ es) m k a c = elim (Bool-cases (str_eq j k)) [
  | inl same ↦ ground arith
  | inr other ↦ (
    rw (get-remove m k j) (ground (arith, eq_iff j k, eq_iff k j)),
    Covers-remove es m k (ground arith) c.1,
  )
]

Covers-cons :
    (es m : Dict Entry) (k : String) (e : Entry)
    → get es k ≡ none
    → Covers es m
    → Covers es ((k, e) ∷ m)
unfolding get
Covers-cons [] m k e a c = tt
Covers-cons ((j, d) ∷ es) m k e a c =
    (ground (arith, eq_iff j k, eq_iff k j), Covers-cons es m k e (ground arith) c.1)

get-cons_self : (k : String) (e : Entry) (m : Dict Entry) → get ((k, e) ∷ m) k ≡ some e
unfolding get
get-cons_self k e m = ground (arith, eq_refl k)

Covers-self : (m : Dict Entry) → IsDistinct m → Covers m m
Covers-self [] h = tt
Covers-self ((k, e) ∷ m) (a, h) = (get-cons_self k e m, Covers-cons m m k e a (Covers-self m h))

-- what a key holds after the rounds over `es`
abbrev swept : ℤ → ℕ → Option Entry → Option Entry → Option Entry
swept window now none old = old
swept window now (some e) old = live window now (some e)

swept_self : (window : ℤ) (now : ℕ) (o : Option Entry) → swept window now o o ≡ live window now o
swept_self window now none = refl
swept_self window now (some e) = refl

get-collect_from :
    (now : ℕ) (es : Dict Entry) (a : Aggregator) (k : String)
    → IsDistinct es
    → Covers es a.entries
    → get (collect_from now es a).1.entries k ≡ swept a.window now (get es k) (get a.entries k)
unfolding get collect_from
get-collect_from now [] a k d c = refl
get-collect_from now ((key, e) ∷ es) a k (absent, d) (here, c) =
    let a' = record a { entries = remove a.entries key } in
    ground (
      arith,
      get-collect_from now es a' k d (Covers-remove es a.entries key absent c),
      get-collect_from now es a k d c,
      get-remove a.entries key k,
      eq_iff key k,
    )

IsDistinct-collect_from :
    (now : ℕ) (es : Dict Entry) (a : Aggregator)
    → IsDistinct a.entries
    → IsDistinct (collect_from now es a).1.entries
unfolding collect_from
IsDistinct-collect_from now [] a h = h
IsDistinct-collect_from now ((key, e) ∷ es) a h =
    let a' = record a { entries = remove a.entries key } in
    ground (
      arith,
      IsDistinct-collect_from now es a' (remove-IsDistinct a.entries key h),
      IsDistinct-collect_from now es a h,
    )

total-collect_from :
    (now : ℕ) (es : Dict Entry) (a : Aggregator)
    → IsDistinct a.entries
    → IsDistinct es
    → Covers es a.entries
    → total (collect_from now es a).0 + pending (collect_from now es a).1 ≡ pending a
unfolding collect_from total
total-collect_from now [] a h d c = omega arith
total-collect_from now ((key, e) ∷ es) a h (absent, d) (here, c) =
    let a' = record a { entries = remove a.entries key } in
    ground (
      arith,
      total-collect_from now es a' (remove-IsDistinct a.entries key h) d
          (Covers-remove es a.entries key absent c),
      total-collect_from now es a h d c,
      sum_by-remove (λ (x : Entry). x.count) a.entries key e h here,
    )

-- the lines of the expired ones among `es`
abbrev pub expired_lines : ℤ → ℕ → ℕ → Dict Entry → List AggregatedLine
expired_lines window min_count now [] = []
expired_lines window min_count now ((key, e) ∷ es) =
    (if is_expired window now e then emitted min_count e ∷ [] else [])
    ++ expired_lines window min_count now es

collect_from-expired_lines :
    (now : ℕ) (es : Dict Entry) (a : Aggregator)
    → (collect_from now es a).0 ≡ expired_lines a.window a.min_count now es
unfolding collect_from
collect_from-expired_lines now [] a = refl
collect_from-expired_lines now ((key, e) ∷ es) a =
    let a' = record a { entries = remove a.entries key } in
    ground (arith, collect_from-expired_lines now es a', collect_from-expired_lines now es a)

window-collect_from :
    (now : ℕ) (es : Dict Entry) (a : Aggregator)
    → ((collect_from now es a).1.window ≡ a.window)
      × ((collect_from now es a).1.min_count ≡ a.min_count)
unfolding collect_from
window-collect_from now [] a = (refl, refl)
window-collect_from now ((key, e) ∷ es) a =
    let a' = record a { entries = remove a.entries key } in
    ground (arith, window-collect_from now es a', window-collect_from now es a)

module _ (now : ℕ) (a : Aggregator) where
  pub window-collect_expired :
      ((collect_expired now a).1.window ≡ a.window)
      × ((collect_expired now a).1.min_count ≡ a.min_count)
  unfolding collect_expired
  window-collect_expired = window-collect_from now a.entries a

  -- What is emitted, in the order of the entries: the expired ones, each with its count.
  pub collect_expired-expired_lines :
      (collect_expired now a).0 ≡ expired_lines a.window a.min_count now a.entries
  unfolding collect_expired
  collect_expired-expired_lines = collect_from-expired_lines now a.entries a

  module _ (d : IsDistinct a.entries) where
    pub IsDistinct-collect_expired : IsDistinct (collect_expired now a).1.entries
    unfolding collect_expired
    IsDistinct-collect_expired = IsDistinct-collect_from now a.entries a d

    pub get-collect_expired :
        (k : String) → get (collect_expired now a).1.entries k ≡ live a.window now (get a.entries k)
    unfolding collect_expired
    get-collect_expired k =
        get-collect_from now a.entries a k d (Covers-self a.entries d)
        ∙ swept_self a.window now (get a.entries k)

    pub total-collect_expired :
        total (collect_expired now a).0 + pending (collect_expired now a).1 ≡ pending a
    unfolding collect_expired
    total-collect_expired = total-collect_from now a.entries a d d (Covers-self a.entries d)

-- the loop of `flushAllLocked` removes every entry that it visits
get-flush_from :
    (es : Dict Entry) (a : Aggregator) (k : String)
    → get (flush_from es a).1.entries k ≡ (if is_some (get es k) then none else get a.entries k)
unfolding get flush_from
get-flush_from [] a k = refl
get-flush_from ((key, e) ∷ es) a k =
    let a' = record a { entries = remove a.entries key } in
    ground (arith, get-flush_from es a' k, get-remove a.entries key k, eq_iff key k)

total-flush_from :
    (es : Dict Entry) (a : Aggregator)
    → IsDistinct a.entries
    → IsDistinct es
    → Covers es a.entries
    → total (flush_from es a).0 + pending (flush_from es a).1 ≡ pending a
unfolding flush_from total
total-flush_from [] a h d c = omega arith
total-flush_from ((key, e) ∷ es) a h (absent, d) (here, c) =
    let a' = record a { entries = remove a.entries key } in
    ground (
      arith,
      total-flush_from es a' (remove-IsDistinct a.entries key h) d
          (Covers-remove es a.entries key absent c),
      sum_by-remove (λ (x : Entry). x.count) a.entries key e h here,
    )

gone : (o : Option Entry) → (if is_some o then none else o) ≡ none
gone none = refl
gone (some e) = refl

pub get-flush : (a : Aggregator) (k : String) → get (flush a).1.entries k ≡ none
unfolding flush
get-flush a k = get-flush_from a.entries a k ∙ gone (get a.entries k)

pub total-flush :
    (a : Aggregator) → IsDistinct a.entries → total (flush a).0 + pending (flush a).1 ≡ pending a
unfolding flush
total-flush a d = total-flush_from a.entries a d d (Covers-self a.entries d)

IsDistinct-flush_from :
    (es : Dict Entry) (a : Aggregator)
    → IsDistinct a.entries
    → IsDistinct (flush_from es a).1.entries
unfolding flush_from
IsDistinct-flush_from [] a h = h
IsDistinct-flush_from ((key, e) ∷ es) a h =
    IsDistinct-flush_from es (record a { entries = remove a.entries key })
      (remove-IsDistinct a.entries key h)

pub IsDistinct-flush : (a : Aggregator) → IsDistinct a.entries → IsDistinct (flush a).1.entries
unfolding flush
IsDistinct-flush a d = IsDistinct-flush_from a.entries a d
