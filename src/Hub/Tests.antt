-- ===== src/Hub/Tests.antt =====
-- Tries the hub of internal/api/hub.go.
use logtailr.Base.{◌≡◌, refl, true, false, List, [], ◌∷◌}
use logtailr.Logline.{LogLine}
use logtailr.Hub.{
  Hub, on_register, on_unregister, on_broadcast, on_done, new_hub, run_round, client_count, is_in,
  broadcast, connect, unregister, stop,
}
use logtailr.Hub.Sound.{IsServed}
use logtailr.Hub.Run.{Action, turn, sent, connected, disconnected, stopped, run, run-IsServed}
use logtailr.Hub.Ended.{run_round-done}

abbrev warned : LogLine
warned = record { timestamp = 0; level = "warn"; message = "slow"; source = "app"; fields = [] }

abbrev noted : LogLine
noted = record warned { level = "info" }

-- two clients, of which one asks for warnings, and two lines
abbrev actions : List Action
actions =
    connected false "warn" ""
    ∷ connected false "" ""
    ∷ turn on_register
    ∷ turn on_register
    ∷ sent noted
    ∷ sent warned
    ∷ turn on_broadcast
    ∷ turn on_broadcast
    ∷ []

delivered :
    (((run actions new_hub).client_of 0).send ≡ warned ∷ [])
    × (((run actions new_hub).client_of 1).send ≡ noted ∷ warned ∷ [])
unfolding run new_hub run_round broadcast connect
delivered = (refl, refl)

run-IsServed_example :
    ((run actions new_hub).panicked ≡ false) × IsServed ((run actions new_hub).client_of 0)
run-IsServed_example = run-IsServed actions 0

-- the end of a client may overtake its registration: it is never closed then
overtaken :
    client_count (
      run
        (connected false "" "" ∷ disconnected false 0 ∷ turn on_unregister ∷ turn on_register ∷ [])
        new_hub)
    ≡ 1
unfolding run new_hub run_round client_count unregister connect
overtaken = refl

abbrev stopping : Hub
stopping = run (connected false "" "" ∷ turn on_register ∷ stopped ∷ []) new_hub

is_stopping :
    (stopping.is_running ≡ true) × (stopping.is_done ≡ true) × (is_in 0 stopping.clients ≡ true)
unfolding run new_hub run_round stop connect
is_stopping = (refl, refl, refl)

run_round-done_example :
    (((run_round on_done stopping).client_of 0).closed ≡ true)
    × ((run_round on_done stopping).clients ≡ [])
    × ((run_round on_done stopping).is_running ≡ false)
run_round-done_example = run_round-done stopping 0 is_stopping.0 is_stopping.1 is_stopping.2
