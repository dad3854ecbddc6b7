-- ===== src/Health.antt =====
-- internal/health/health.go: the status of each source. `now` is what `time.Now` returns; a `range`
-- over the sources visits them in the order of the list.
pub mod Updates
pub mod Counts
mod Tests
use logtailr.Base.{
  ℕ, ◌+◌, String, ◌≡◌, Bool, true, false, not, ◌&&◌, Option, none, some, List, [], ◌∷◌,
  if◌then◌else◌, length,
}
use logtailr.Base.Dict.{Dict, get, put}

-- `unset` is the empty string, the status of a source that no one has registered.
pub data Status : Type 0 where
  unset healthy degraded failed stopped starting : Status

pub same_status : Status → Status → Bool
same_status unset unset = true
same_status healthy healthy = true
same_status degraded degraded = true
same_status failed failed = true
same_status stopped stopped = true
same_status starting starting = true
same_status _ _ = false

pub record SourceHealth : Type 0 where
  pub name : String
  pub status : Status
  pub last_error : Option String
  pub last_update : ℕ
  pub error_count : ℕ
  pub start_time : ℕ

-- `listening` says that `onChange` is set.
pub record Monitor : Type 0 where
  pub sources : Dict SourceHealth
  pub listening : Bool

-- the arguments of a call of `onChange`
pub record Change : Type 0 where
  pub source : String
  pub old_status : Status
  pub new_status : Status

unfoldable pub new_monitor : Monitor
new_monitor = record { sources = []; listening = false }

unfoldable pub register_source : ℕ → String → Monitor → Monitor
register_source now name m = record m {
  sources = put m.sources name (record {
    name = name;
    status = starting;
    last_error = none;
    last_update = now;
    error_count = 0;
    start_time = now;
  });
}

unfoldable pub set_on_change : Monitor → Monitor
set_on_change m = record m { listening = true }

-- getOrCreateSource; the map holds the new source once `UpdateStatus` has set its fields
unfoldable pub get_or_create_source : ℕ → String → Option SourceHealth → SourceHealth
get_or_create_source now name (some s) = s
get_or_create_source now name none = record {
  name = name;
  status = unset;
  last_error = none;
  last_update = 0;
  error_count = 0;
  start_time = now;
}

with_error : Option String → SourceHealth → SourceHealth
with_error none s = s
with_error (some e) s = record s { last_error = some e; error_count = s.error_count + 1 }

unfoldable pub update_status :
    ℕ → String → Status → Option String → Monitor → Monitor × Option Change
unfolding get_or_create_source with_error same_status
update_status now name status error m =
    let source = get_or_create_source now name (get m.sources name) in
    let source' = with_error error (record source { status = status; last_update = now }) in
    (
      record m { sources = put m.sources name source' },
      (if m.listening && not (same_status source.status status)
          then some (record { source = name; old_status = source.status; new_status = status })
          else none),
    )

abbrev pub mark_healthy : ℕ → String → Monitor → Monitor × Option Change
mark_healthy now name m = update_status now name healthy none m

abbrev pub mark_failed : ℕ → String → Option String → Monitor → Monitor × Option Change
mark_failed now name error m = update_status now name failed error m

abbrev pub mark_degraded : ℕ → String → Option String → Monitor → Monitor × Option Change
mark_degraded now name error m = update_status now name degraded error m

abbrev pub mark_stopped : ℕ → String → Monitor → Monitor × Option Change
mark_stopped now name m = update_status now name stopped none m

unfoldable pub get_status : String → Monitor → Option SourceHealth
get_status name m = get m.sources name

by_status : Status → Dict SourceHealth → List SourceHealth
by_status status [] = []
by_status status ((k, s) ∷ m) =
    let rest = by_status status m in if same_status s.status status then s ∷ rest else rest

-- getSourcesByStatus
unfoldable pub get_sources_by_status : Status → Monitor → List SourceHealth
unfolding by_status same_status
get_sources_by_status status m = by_status status m.sources

pub record HealthCount : Type 0 where
  pub healthy : ℕ
  pub degraded : ℕ
  pub failed : ℕ
  pub stopped : ℕ

-- the switch of the loop of `GetHealthCount`
count_status : Status → HealthCount → HealthCount
count_status healthy c = record c { healthy = c.healthy + 1 }
count_status degraded c = record c { degraded = c.degraded + 1 }
count_status failed c = record c { failed = c.failed + 1 }
count_status stopped c = record c { stopped = c.stopped + 1 }
count_status _ c = c

count_from : HealthCount → Dict SourceHealth → HealthCount
count_from c [] = c
count_from c ((k, s) ∷ m) = count_from (count_status s.status c) m

unfoldable pub get_health_count : Monitor → HealthCount
unfolding count_from count_status
get_health_count m =
    count_from (record { healthy = 0; degraded = 0; failed = 0; stopped = 0 }) m.sources

all_healthy : Dict SourceHealth → Bool
all_healthy [] = true
all_healthy ((k, s) ∷ m) = same_status s.status healthy && all_healthy m

unfoldable pub is_all_healthy : Monitor → Bool
unfolding all_healthy same_status
is_all_healthy m = all_healthy m.sources
