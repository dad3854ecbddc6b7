-- ===== src/Parser/Logfmt.antt =====
-- internal/parser/logfmt.go: ParseLogfmt.
use logtailr.Base.{
  ℕ, String, Bool, ◌&&◌, Option, none, some, List, [], ◌∷◌, ltb, leb, str_eq, if◌then◌else◌, length,
}
use logtailr.Base.Dict.{Dict, get, put, remove}
use logtailr.Base.Space.{has_letter}
use logtailr.Base.Result.{ok, err, ◌>>◌}
use logtailr.Logline.{Json, str, LogLine}
use logtailr.Parser.{
  Library, Parser, too_many_fields, max_fields_count, timestamp_keys, level_keys, message_keys,
  validate_line, normalize_level, parse_timestamp_string, new_log_line, Parsed,
}

module _ (lib : Library) where
  open lib use {logfmt_matches, logfmt_count}

  -- the loop of parseLogfmtPairs
  unfoldable pub put_matches : List (String × String × String) → Dict String → Dict String
  put_matches [] pairs = pairs
  put_matches ((key, quoted, plain) ∷ matches) pairs =
      put_matches matches (put pairs key (if str_eq quoted "" then plain else quoted))

  -- parseLogfmtPairs
  unfoldable pub parse_logfmt_pairs : String → Dict String
  unfolding put_matches
  parse_logfmt_pairs line = put_matches (logfmt_matches line) []

  -- isLogfmt
  unfoldable pub is_logfmt : String → Bool
  is_logfmt line = has_letter "=" line && leb 2 (logfmt_count line)

  unfoldable pub take_time_pair :
      String → Dict String → Option ℕ → ℕ × Dict String → ℕ × Dict String
  take_time_pair key pairs (some t) later = (t, remove pairs key)
  take_time_pair key pairs none later = later

  unfoldable pub pair_time : Option String → Option ℕ
  unfolding parse_timestamp_string
  pair_time none = none
  pair_time (some text) = parse_timestamp_string lib text

  -- extractTimestampFromPairs
  unfoldable pub extract_timestamp_from_pairs : ℕ → Dict String → List String → ℕ × Dict String
  unfolding take_time_pair pair_time
  extract_timestamp_from_pairs now pairs [] = (now, pairs)
  extract_timestamp_from_pairs now pairs (key ∷ keys) =
      take_time_pair key pairs (pair_time (get pairs key))
        (extract_timestamp_from_pairs now pairs keys)

  unfoldable pub take_pair :
      (String → String)
      → String
      → Dict String
      → Option String
      → String × Dict String
      → String × Dict String
  take_pair f key pairs (some value) later = (f value, remove pairs key)
  take_pair f key pairs none later = later

  -- extractLevelFromPairs
  unfoldable pub extract_level_from_pairs : Dict String → List String → String × Dict String
  unfolding take_pair normalize_level
  extract_level_from_pairs pairs [] = ("info", pairs)
  extract_level_from_pairs pairs (key ∷ keys) =
      take_pair normalize_level key pairs (get pairs key) (extract_level_from_pairs pairs keys)

  -- extractMessageFromPairs
  unfoldable pub extract_message_from_pairs : Dict String → List String → String × Dict String
  unfolding take_pair
  extract_message_from_pairs pairs [] = ("", pairs)
  extract_message_from_pairs pairs (key ∷ keys) =
      take_pair (λ value. value) key pairs (get pairs key) (extract_message_from_pairs pairs keys)

  -- the loop over the pairs that are left
  unfoldable pub copy_pairs : Dict String → Dict Json → Dict Json
  copy_pairs [] fields = fields
  copy_pairs ((k, v) ∷ pairs) fields = copy_pairs pairs (put fields k (str v))

  unfoldable pub line_of_pairs : Parser → ℕ → Dict String → LogLine
  unfolding new_log_line extract_timestamp_from_pairs extract_level_from_pairs
      extract_message_from_pairs copy_pairs
  line_of_pairs p now pairs =
      let (t, pairs1) = extract_timestamp_from_pairs now pairs timestamp_keys in
      let (l, pairs2) = extract_level_from_pairs pairs1 level_keys in
      let (m, pairs3) = extract_message_from_pairs pairs2 message_keys in
      record (new_log_line p now) {
        timestamp = t;
        level = l;
        message = m;
        fields = copy_pairs pairs3 [];
      }

  -- ParseLogfmt
  unfoldable pub parse_logfmt : Parser → ℕ → String → Parsed lib
  unfolding validate_line parse_logfmt_pairs line_of_pairs
  parse_logfmt p now line =
      let pairs = parse_logfmt_pairs line in
      validate_line line
      >> (if ltb max_fields_count (length pairs)
          then err (too_many_fields (length pairs))
          else ok (line_of_pairs p now pairs))
