-- ===== src/Health/Counts.antt =====
-- How the counts of internal/health/health.go relate to the sources.
use logtailr.Base.{ℕ, ◌+◌, ◌≤◌, ◌≡◌, ◌↔◌, Bool, true, [], ◌∷◌, arith, length, if◌then◌else◌}
use logtailr.Base.Dict.{Dict}
use logtailr.Health.{
  Status, unset, healthy, degraded, failed, stopped, starting, same_status, SourceHealth, Monitor,
  by_status, get_sources_by_status, HealthCount, count_status, count_from, get_health_count,
  all_healthy, is_all_healthy,
}

-- how many sources have a status
abbrev having : Status → Dict SourceHealth → ℕ
having status m = length (by_status status m)

abbrev one_if : Bool → ℕ
one_if b = if b then 1 else 0

count_status_lem :
    (c : HealthCount) (status : Status)
    → ((count_status status c).healthy ≡ c.healthy + one_if (same_status status healthy))
      × ((count_status status c).degraded ≡ c.degraded + one_if (same_status status degraded))
      × ((count_status status c).failed ≡ c.failed + one_if (same_status status failed))
      × ((count_status status c).stopped ≡ c.stopped + one_if (same_status status stopped))
unfolding count_status same_status
count_status_lem c healthy = omega arith
count_status_lem c degraded = omega arith
count_status_lem c failed = omega arith
count_status_lem c stopped = omega arith
count_status_lem c unset = omega arith
count_status_lem c starting = omega arith

count_from-having :
    (c : HealthCount) (m : Dict SourceHealth)
    → ((count_from c m).healthy ≡ c.healthy + having healthy m)
      × ((count_from c m).degraded ≡ c.degraded + having degraded m)
      × ((count_from c m).failed ≡ c.failed + having failed m)
      × ((count_from c m).stopped ≡ c.stopped + having stopped m)
unfolding count_from by_status
count_from-having c [] = omega arith
count_from-having c ((k, s) ∷ m) =
    ground (arith, count_from-having (count_status s.status c) m, count_status_lem c s.status)

having-le-length : (status : Status) (m : Dict SourceHealth) → having status m ≤ length m
unfolding by_status
having-le-length status [] = omega arith
having-le-length status ((k, s) ∷ m) = ground (arith, having-le-length status m)

-- The four counts are the numbers of the sources with these statuses.
pub get_health_count-get_sources_by_status :
    (m : Monitor)
    → ((get_health_count m).healthy ≡ length (get_sources_by_status healthy m))
      × ((get_health_count m).degraded ≡ length (get_sources_by_status degraded m))
      × ((get_health_count m).failed ≡ length (get_sources_by_status failed m))
      × ((get_health_count m).stopped ≡ length (get_sources_by_status stopped m))
unfolding get_health_count get_sources_by_status
get_health_count-get_sources_by_status m = omega (arith, count_from-having _ m.sources)

all_healthy-having :
    (m : Dict SourceHealth) → (all_healthy m ≡ true) ↔ (having healthy m ≡ length m)
unfolding all_healthy by_status
all_healthy-having [] = ground arith
all_healthy-having ((k, s) ∷ m) = ground (arith, all_healthy-having m, having-le-length healthy m)

-- All sources are healthy exactly when the count of healthy ones is the number of sources.
pub is_all_healthy_iff :
    (m : Monitor) → (is_all_healthy m ≡ true) ↔ ((get_health_count m).healthy ≡ length m.sources)
unfolding is_all_healthy get_health_count
is_all_healthy_iff m = ground (
  arith,
  all_healthy-having m.sources,
  count_from-having (record { healthy = 0; degraded = 0; failed = 0; stopped = 0 }) m.sources,
)
