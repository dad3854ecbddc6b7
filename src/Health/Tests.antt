-- ===== src/Health/Tests.antt =====
-- A monitor of internal/health/health.go at work.
use logtailr.Base.{◌≡◌, refl, none, some, List, [], ◌∷◌}
use logtailr.Base.Dict.{get, put}
use logtailr.Health.{
  healthy, failed, starting, Monitor, new_monitor, register_source, set_on_change, update_status,
}
use logtailr.Health.Updates.{Update, run, follow, status_of, follow-run}

abbrev registered : Monitor
unfolding register_source set_on_change new_monitor
registered = register_source 1 "b" (register_source 0 "a" (set_on_change new_monitor))

abbrev some_updates : List Update
some_updates =
    record { now = 2; name = "a"; status = healthy; error = none }
    ∷ record { now = 3; name = "b"; status = failed; error = some "gone" }
    ∷ record { now = 4; name = "a"; status = healthy; error = none }
    ∷ []

told :
    (run some_updates registered).1
    ≡ record { source = "a"; old_status = starting; new_status = healthy }
      ∷ record { source = "b"; old_status = starting; new_status = failed }
      ∷ []
unfolding run update_status registered get put
told = refl

follow-run_example :
    follow "a" (status_of "a" registered) (run some_updates registered).1
    ≡ some (status_of "a" (run some_updates registered).0)
unfolding registered
follow-run_example = follow-run some_updates registered "a" refl
