-- ===== src/Logline.antt =====
-- pkg/logline/logline.go: the log line, and the severities of the levels.
use logtailr.Base.{ℕ, String, ◌≡◌, refl, Bool, Option, none, some, [], ◌∷◌}
use logtailr.Base.Dict.{Dict, get}
use logtailr.Base.Text.{to_lower}

-- What `encoding/json` decodes into an `interface{}`. A number is a float64, given by its bits.
mutual
  pub data Json : Type 0 where
    null : Json
    bool : Bool → Json
    num : ℕ → Json
    str : String → Json
    arr : Elems → Json
    obj : Members → Json

  pub data Elems : Type 0 where
    nil : Elems
    cons : Json → Elems → Elems

  pub data Members : Type 0 where
    end : Members
    member : String → Json → Members → Members

-- `timestamp` is an instant in nanoseconds.
pub record LogLine : Type 0 where
  pub timestamp : ℕ
  pub level : String
  pub message : String
  pub source : String
  pub fields : Dict Json

-- LogLevels[level]
unfoldable pub log_levels : String → Option ℕ
unfolding get
log_levels level =
    get (("debug", 0) ∷ ("info", 1) ∷ ("warn", 2) ∷ ("error", 3) ∷ ("fatal", 4) ∷ []) level

-- LogLevels[strings.ToLower(level)]
unfoldable pub level_of : String → Option ℕ
unfolding log_levels to_lower
level_of level = log_levels (to_lower level)

levels : (level_of "ERROR" ≡ some 3) × (level_of "warning" ≡ none)
unfolding level_of
levels = (refl, refl)
