-- ===== src/Config/Tests.antt =====
-- The theorems about internal/config, tried on a configuration.
use logtailr.Base.{◌≡◌, ◌≢◌, refl, some, [], All, arith}
use logtailr.Base.Int.{pos, ◌≤ℤ◌, to_int64}
use logtailr.Base.Text.{to_lower, to_upper, has_prefix}
use logtailr.Base.Space.{byte_length}
use logtailr.Base.Result.{ok}
use logtailr.Logline.{level_of}
use logtailr.Config.Sources.Checked.{IsValid, NamesDiffer}
use logtailr.Ssrf.{validate_external_url, is_disallowed_ip}
use logtailr.Config.Valid.{validate_config}
use logtailr.Config.Valid.Laws.{validate_config-IsValid}
use logtailr.Config.ByteSize.{parse_byte_size, written_size}
use logtailr.Config.ByteSize.Overflow.{parse_byte_size-overflow}
use logtailr.Config.Samples.{checkers, config}

accepted : validate_config checkers config ≡ ok tt
unfolding byte_length validate_config level_of to_lower validate_external_url has_prefix
    is_disallowed_ip
accepted = refl

validate_config-IsValid_example :
    (config.sources ≢ []) × All IsValid config.sources × NamesDiffer config.sources
validate_config-IsValid_example = validate_config-IsValid checkers config accepted

written : written_size " 10mb " ≡ some (pos 10, 1048576)
unfolding written_size to_upper
written = refl

written_large : written_size "8589934592GB" ≡ some (pos 8589934592, 1073741824)
unfolding written_size to_upper
written_large = refl

parse_byte_size-overflow_example :
    (parse_byte_size "8589934592GB" ≡ ok (to_int64 9223372036854775808))
    × (to_int64 9223372036854775808 ≤ℤ pos 0)
parse_byte_size-overflow_example =
    parse_byte_size-overflow "8589934592GB" 8589934592 1073741824 written_large (omega arith)
      (omega arith) (omega arith)
