-- ===== src/Parser/Pairs.antt =====
-- internal/parser: ParseLogfmt reads the pairs of a line as ParseJSON reads an object of strings.
use logtailr.Base.{
  All, ℕ, suc, String, ◌≡◌, refl, ap, sym, ◌∙◌, arith, str_eq, eq_iff, inl, inr, Bool-cases,
  if◌then◌else◌, length, ltb, Option-cases, Option, none, some, List, [], ◌∷◌, ◌++◌,
}
use logtailr.Base.Dict.{Dict, get, put, remove, get-put}
use logtailr.Base.Dict.Distinct.{IsDistinct, put-IsDistinct, remove-IsDistinct}
use mathlib.Core.List.{append_assoc, append-nil}
use logtailr.Base.Result.{ok, err}
use logtailr.Logline.{Json, str}
use logtailr.Parser.{
  Library, Parser, validate_line, extract_timestamp, extract_level, extract_message, take_time,
  time_of, take_value, too_many_fields, parse_timestamp_string, new_log_line, parse_timestamp,
  to_string, normalize_level, max_fields_count, timestamp_keys, level_keys, message_keys,
}
use logtailr.Parser.Object.{parse_json, json_part, with_object, line_of}
use logtailr.Parser.Logfmt.{
  parse_logfmt, parse_logfmt_pairs, put_matches, line_of_pairs, copy_pairs,
  extract_timestamp_from_pairs, extract_level_from_pairs, extract_message_from_pairs,
  take_time_pair, pair_time, take_pair,
}

-- the object whose members are the pairs, each value a string
unfoldable pub as_strings : Dict String → Dict Json
as_strings [] = []
as_strings ((k, v) ∷ m) = (k, str v) ∷ as_strings m

as_string : Option String → Option Json
as_string none = none
as_string (some v) = some (str v)

get-as_strings : (m : Dict String) (k : String) → get (as_strings m) k ≡ as_string (get m k)
unfolding get as_strings as_string
get-as_strings [] k = refl
get-as_strings ((j, v) ∷ m) k = elim (Bool-cases (str_eq j k)) [
  | inl same ↦ rw same refl
  | inr other ↦ rw other (get-as_strings m k)
]

remove-as_strings :
    (m : Dict String) (k : String) → remove (as_strings m) k ≡ as_strings (remove m k)
unfolding remove as_strings
remove-as_strings [] k = refl
remove-as_strings ((j, v) ∷ m) k = elim (Bool-cases (str_eq j k)) [
  | inl same ↦ rw same (remove-as_strings m k)
  | inr other ↦ rw other (ap (λ r. (j, str v) ∷ r) (remove-as_strings m k))
]

length-as_strings : (m : Dict String) → length (as_strings m) ≡ length m
unfolding as_strings
length-as_strings [] = refl
length-as_strings ((j, v) ∷ m) = ap suc (length-as_strings m)

-- a result of an extraction from the pairs, as one from the object
abbrev lifted : {A : Type 0} → A × Dict String → A × Dict Json
lifted (a, m) = (a, as_strings m)

put_last : (m : Dict Json) (k : String) (v : Json) → get m k ≡ none → put m k v ≡ m ++ (k, v) ∷ []
unfolding get put
put_last [] k v h = refl
put_last ((j, w) ∷ m) k v h = elim (Bool-cases (str_eq j k)) [
  | inl same ↦ let h' : some w ≡ none = rw same at h in ground arith
  | inr other ↦ rw other (ap (λ r. (j, w) ∷ r) (put_last m k v (rw other at h)))
]

-- no key of the pairs is in the object
abbrev IsFresh : Dict Json → Dict String → Type 0
IsFresh acc = All (λ e. get acc e.0 ≡ none)

put-IsFresh :
    (acc : Dict Json) (m : Dict String) (k : String) (v : Json)
    → get m k ≡ none
    → IsFresh acc m
    → IsFresh (put acc k v) m
unfolding get
put-IsFresh acc [] k v h f = tt
put-IsFresh acc ((j, w) ∷ m) k v h (fj, f) = elim (Bool-cases (str_eq j k)) [
  | inl same ↦ let h' : some w ≡ none = rw same at h in ground arith
  | inr other ↦ (
    rw (get-put acc k j v) (ground (arith, eq_iff j k, eq_iff k j)),
    put-IsFresh acc m k v (rw other at h) f,
  )
]

module _ (lib : Library) where
  timed_of_pairs :
      (key : String) (m : Dict String) (t : Option ℕ) (r : ℕ × Dict Json) (r' : ℕ × Dict String)
      → r ≡ lifted r'
      → take_time lib key (as_strings m) t r ≡ lifted (take_time_pair lib key m t r')
  unfolding take_time take_time_pair
  timed_of_pairs key m none r r' h = h
  timed_of_pairs key m (some t) r r' h = ap (λ x. (t, x)) (remove-as_strings m key)

  extract_timestamp_of_pairs :
      (now : ℕ) (m : Dict String) (keys : List String)
      → extract_timestamp lib now (as_strings m) keys
        ≡ lifted (extract_timestamp_from_pairs lib now m keys)
  unfolding extract_timestamp extract_timestamp_from_pairs as_string time_of pair_time
      parse_timestamp
  extract_timestamp_of_pairs now m [] = refl
  extract_timestamp_of_pairs now m (key ∷ keys) = elim (Option-cases (get m key)) [
    | inl absent ↦ rw (get-as_strings, absent) (extract_timestamp_of_pairs now m keys)
    | inr (v, found) ↦
        rw (get-as_strings, found)
          (timed_of_pairs key m (parse_timestamp_string lib v) _ _
            (extract_timestamp_of_pairs now m keys))
  ]

  extract_level_of_pairs :
      (m : Dict String) (keys : List String)
      → extract_level lib (as_strings m) keys ≡ lifted (extract_level_from_pairs lib m keys)
  unfolding extract_level extract_level_from_pairs as_string take_value take_pair to_string
  extract_level_of_pairs m [] = refl
  extract_level_of_pairs m (key ∷ keys) = elim (Option-cases (get m key)) [
    | inl absent ↦ rw (get-as_strings, absent) (extract_level_of_pairs m keys)
    | inr (v, found) ↦
        rw (get-as_strings, found) (ap (λ r. (normalize_level v, r)) (remove-as_strings m key))
  ]

  extract_message_of_pairs :
      (m : Dict String) (keys : List String)
      → extract_message lib (as_strings m) keys ≡ lifted (extract_message_from_pairs lib m keys)
  unfolding extract_message extract_message_from_pairs as_string take_value take_pair to_string
  extract_message_of_pairs m [] = refl
  extract_message_of_pairs m (key ∷ keys) = elim (Option-cases (get m key)) [
    | inl absent ↦ rw (get-as_strings, absent) (extract_message_of_pairs m keys)
    | inr (v, found) ↦ rw (get-as_strings, found) (ap (λ r. (v, r)) (remove-as_strings m key))
  ]

  copy_pairs_append :
      (m : Dict String) (acc : Dict Json)
      → IsDistinct m
      → IsFresh acc m
      → copy_pairs lib m acc ≡ acc ++ as_strings m
  unfolding copy_pairs as_strings
  copy_pairs_append [] acc d f = sym (append-nil acc)
  copy_pairs_append ((k, v) ∷ m) acc (a, d) (fk, f) =
      copy_pairs_append m (put acc k (str v)) d (put-IsFresh acc m k (str v) a f)
      ∙ ap (λ r. r ++ as_strings m) (put_last acc k (str v) fk)
      ∙ append_assoc acc ((k, str v) ∷ []) (as_strings m)

  IsFresh-in_empty : (m : Dict String) → IsFresh [] m
  unfolding get
  IsFresh-in_empty [] = tt
  IsFresh-in_empty (e ∷ m) = (refl, IsFresh-in_empty m)

  put_matches-IsDistinct :
      (matches : List (String × String × String)) (m : Dict String)
      → IsDistinct m
      → IsDistinct (put_matches lib matches m)
  unfolding put_matches
  put_matches-IsDistinct [] m h = h
  put_matches-IsDistinct ((k, q, v) ∷ matches) m h =
      put_matches-IsDistinct matches _ (put-IsDistinct m k _ h)

  timed_IsDistinct :
      (key : String) (m : Dict String) (t : Option ℕ) (r : ℕ × Dict String)
      → IsDistinct m
      → IsDistinct r.1
      → IsDistinct (take_time_pair lib key m t r).1
  unfolding take_time_pair
  timed_IsDistinct key m none r h h' = h'
  timed_IsDistinct key m (some t) r h h' = remove-IsDistinct m key h

  extract_timestamp_IsDistinct :
      (now : ℕ) (m : Dict String) (keys : List String)
      → IsDistinct m
      → IsDistinct (extract_timestamp_from_pairs lib now m keys).1
  unfolding extract_timestamp_from_pairs
  extract_timestamp_IsDistinct now m [] h = h
  extract_timestamp_IsDistinct now m (key ∷ keys) h =
      timed_IsDistinct key m (pair_time lib (get m key)) _ h
        (extract_timestamp_IsDistinct now m keys h)

  taken_IsDistinct :
      (f : String → String) (key : String) (m : Dict String) (o : Option String)
      (r : String × Dict String)
      → IsDistinct m
      → IsDistinct r.1
      → IsDistinct (take_pair lib f key m o r).1
  unfolding take_pair
  taken_IsDistinct f key m none r h h' = h'
  taken_IsDistinct f key m (some v) r h h' = remove-IsDistinct m key h

  extract_level_IsDistinct :
      (m : Dict String) (keys : List String)
      → IsDistinct m
      → IsDistinct (extract_level_from_pairs lib m keys).1
  unfolding extract_level_from_pairs
  extract_level_IsDistinct m [] h = h
  extract_level_IsDistinct m (key ∷ keys) h =
      taken_IsDistinct normalize_level key m (get m key) _ h (extract_level_IsDistinct m keys h)

  extract_message_IsDistinct :
      (m : Dict String) (keys : List String)
      → IsDistinct m
      → IsDistinct (extract_message_from_pairs lib m keys).1
  unfolding extract_message_from_pairs
  extract_message_IsDistinct m [] h = h
  extract_message_IsDistinct m (key ∷ keys) h =
      taken_IsDistinct (λ v. v) key m (get m key) _ h (extract_message_IsDistinct m keys h)

  line_of-as_strings :
      (p : Parser) (now : ℕ) (m : Dict String)
      → IsDistinct m
      → line_of lib p now (as_strings m) ≡ line_of_pairs lib p now m
  unfolding line_of line_of_pairs new_log_line
  line_of-as_strings p now m h =
      let time = extract_timestamp_of_pairs now m timestamp_keys in
      let m1 = (extract_timestamp_from_pairs lib now m timestamp_keys).1 in
      let level = extract_level_of_pairs m1 level_keys in
      let m2 = (extract_level_from_pairs lib m1 level_keys).1 in
      let message = extract_message_of_pairs m2 message_keys in
      let m3 = (extract_message_from_pairs lib m2 message_keys).1 in
      let d3 = extract_message_IsDistinct m2 message_keys (
        extract_level_IsDistinct m1 level_keys
          (extract_timestamp_IsDistinct now m timestamp_keys h)) in
      let copied = copy_pairs_append m3 [] d3 (IsFresh-in_empty m3) in
      rw (time, level, message, copied)

  pairs_IsDistinct : (line : String) → IsDistinct (parse_logfmt_pairs lib line)
  unfolding parse_logfmt_pairs
  pairs_IsDistinct line = put_matches-IsDistinct (lib.logfmt_matches line) [] tt

  counted :
      (p : Parser) (now : ℕ) (m : Dict String)
      → IsDistinct m
      → with_object lib p now (ok (as_strings m)) ≡ (
          if ltb max_fields_count (length m)
          then err (too_many_fields (length m))
          else ok (line_of_pairs lib p now m))
  unfolding with_object
  counted p now m d = rw (length-as_strings, line_of-as_strings p now m d)

  -- Of a line that is accepted, ParseLogfmt makes the same log line, or fails for the same number
  -- of fields, as ParseJSON of an object whose members are the line's pairs, as strings.
  pub parse_json-parse_logfmt :
      (p : Parser) (now : ℕ) (line object text : String)
      → validate_line {D = lib.DecodeError} line ≡ ok tt
      → validate_line {D = lib.DecodeError} object ≡ ok tt
      → json_part lib object ≡ ok text
      → lib.decode text ≡ ok (as_strings (parse_logfmt_pairs lib line))
      → parse_json lib p now object ≡ parse_logfmt lib p now line
  unfolding parse_json parse_logfmt
  parse_json-parse_logfmt p now line object text valid valid' part decoded =
      rw (valid, valid', part, decoded)
        (counted p now (parse_logfmt_pairs lib line) (pairs_IsDistinct line))
