-- ===== src/Hub/Run.antt =====
-- internal/api/hub.go: every run of the hub, with the clients that connect and leave.
use logtailr.Base.{
  ℕ, ◌+◌, ◌<◌, String, ◌≡◌, refl, ◌∙◌, Bool, true, false, not, ◌&&◌, ◌||◌, ◌==◌, List, [], ◌∷◌,
  ◌++◌, ltb, length, All, All-append, All-map, arith,
}
use mathlib.Core.List.{append_assoc}
use mathlib.Core.Path.{subst}
use logtailr.Logline.{LogLine}
use logtailr.Hub.{
  hub_conn_buffer, hub_broadcast_buffer, Hub, Client, Case, new_hub, matches_filter, set_client,
  run_round, broadcast, register, unregister, stop, connect,
}
use logtailr.Hub.Rounds.{round-IsSound}
use logtailr.Hub.Sound.{
  IsSound, IsServed, AreOpen, AreDistinct, set_client-AreOpen, set_client-IsServed, not_yet,
  new_last, either, same_flag,
}

-- `connected`: handleWebSocket makes a client; `disconnected`: a pump of a client ends;
-- `received`: a client takes the first line of its channel
pub data Action : Type 0 where
  turn : Case → Action
  sent : LogLine → Action
  connected : Bool → String → String → Action
  disconnected : Bool → ℕ → Action
  stopped : Action
  received : ℕ → Action

abbrev rest_of : List LogLine → List LogLine
rest_of [] = []
rest_of (line ∷ lines) = lines

abbrev receive : ℕ → Hub → Hub
receive c h =
    let client = h.client_of c in
    record h { client_of = set_client c (record client { send = rest_of client.send }) h.client_of }

unfoldable perform : Action → Hub → Hub
perform (turn c) h = run_round c h
perform (sent line) h = broadcast line h
perform (connected skips min_level source_name) h = connect skips min_level source_name h
perform (disconnected skips c) h = unregister skips c h
perform stopped h = stop h
perform (received c) h = receive c h

unfoldable pub run : List Action → Hub → Hub
unfolding perform
run [] h = h
run (a ∷ actions) h = run actions (perform a h)

later : (c n : ℕ) → c < n → c < n + 1
later c n h = omega arith

set_client_closed :
    (n : ℕ) (client : Client) (client_of : ℕ → Client)
    → client.closed ≡ false
    → (set_client n client client_of n).closed ≡ false
unfolding set_client
set_client_closed n client client_of h = let same : (n == n) ≡ true = ground arith in rw same h

-- the client that is made has a number that no other has
connect-IsSound :
    (skips : Bool) (min_level source_name : String) (h : Hub)
    → IsSound h
    → IsSound (connect skips min_level source_name h)
unfolding connect register
connect-IsSound skips min_level source_name h i =
    let n = h.next_client in
    let client : Client = record {
      send = [];
      min_level = min_level;
      source_name = source_name;
      closed = false;
    } in
    let all = h.clients ++ h.register_chan in
    let made = record h { client_of = set_client n client h.client_of; next_client = n + 1 } in
    let older = All-map (λ c p. later c n p) all i.old in
    let is_open = set_client-AreOpen n client h.client_of all (not_yet n all i.old) i.are_open in
    let served = set_client-IsServed n client h.client_of (omega arith, tt) i.served in
    let longer : (h.clients ++ h.register_chan) ++ n ∷ []
        ≡ h.clients ++ (h.register_chan ++ n ∷ []) =
      append_assoc h.clients h.register_chan (n ∷ []) in
    either IsSound ((h.is_done && skips) || not (ltb (length h.register_chan) hub_conn_buffer)) made
      (record made { register_chan = h.register_chan ++ n ∷ [] })
      (λ _. record {
        old = older;
        distinct = i.distinct;
        are_open = is_open;
        served = served;
        calm = i.calm;
      })
      (record {
        old =
            subst (All (λ c. c < n + 1)) longer (All-append _ all (n ∷ []) older (omega arith, tt));
        distinct = subst AreDistinct longer (new_last n all i.old i.distinct);
        are_open =
            subst (AreOpen made.client_of) longer
              (All-append _ all (n ∷ []) is_open (set_client_closed n client h.client_of refl, tt));
        served = served;
        calm = i.calm;
      })

rest-IsServed :
    (min_level source_name : String) (closed : Bool) (lines : List LogLine)
    → IsServed
        (record { send = lines; min_level = min_level; source_name = source_name; closed = closed })
    → IsServed (record {
      send = rest_of lines;
      min_level = min_level;
      source_name = source_name;
      closed = closed;
    })
unfolding matches_filter
rest-IsServed m s c [] h = h
rest-IsServed m s c (line ∷ lines) (bound, (_, all)) = (omega arith, all)

receive-IsSound : (c : ℕ) (h : Hub) → IsSound h → IsSound (receive c h)
receive-IsSound c h i =
    let client = h.client_of c in
    let taken = record client { send = rest_of client.send } in
    record {
      old = i.old;
      distinct = i.distinct;
      are_open =
          All-map (λ d o. same_flag c taken h.client_of refl d ∙ o) (h.clients ++ h.register_chan)
            i.are_open;
      served =
          set_client-IsServed c taken h.client_of
            (rest-IsServed client.min_level client.source_name client.closed client.send
              (i.served c))
            i.served;
      calm = i.calm;
    }

-- the calls that change a queue only
abbrev Queued : Hub → Hub → Type 0
Queued h h' =
    (h'.clients ≡ h.clients)
    × (h'.register_chan ≡ h.register_chan)
    × (h'.next_client ≡ h.next_client)
    × (h'.client_of ≡ h.client_of)
    × (h'.panicked ≡ h.panicked)

Queued-IsSound : (h h' : Hub) → Queued h h' → IsSound h → IsSound h'
Queued-IsSound h h' (e1, e2, e3, e4, e5) i = record {
  old = rw (e1, e2, e3) i.old;
  distinct = rw (e1, e2) i.distinct;
  are_open = rw (e1, e2, e4) i.are_open;
  served = rw e4 i.served;
  calm = e5 ∙ i.calm;
}

broadcast_queued : (line : LogLine) (h : Hub) → IsSound h → IsSound (broadcast line h)
unfolding broadcast
broadcast_queued line h i =
    either IsSound (ltb (length h.broadcast_chan) hub_broadcast_buffer)
      (record h { broadcast_chan = h.broadcast_chan ++ line ∷ [] }) h
      (λ _. Queued-IsSound h _ (refl, refl, refl, refl, refl) i) i

unregister_queued : (skips : Bool) (c : ℕ) (h : Hub) → IsSound h → IsSound (unregister skips c h)
unfolding unregister
unregister_queued skips c h i =
    either IsSound ((h.is_done && skips) || not (ltb (length h.unregister_chan) hub_conn_buffer)) h
      (record h { unregister_chan = h.unregister_chan ++ c ∷ [] }) (λ _. i)
      (Queued-IsSound h _ (refl, refl, refl, refl, refl) i)

stop-IsSound : (h : Hub) → IsSound h → IsSound (stop h)
unfolding stop
stop-IsSound h i =
    either IsSound h.is_done (record h { stopped_twice = true }) (record h { is_done = true })
      (λ _. Queued-IsSound h _ (refl, refl, refl, refl, refl) i)
      (Queued-IsSound h _ (refl, refl, refl, refl, refl) i)

perform-IsSound : (a : Action) (h : Hub) → IsSound h → IsSound (perform a h)
unfolding perform
perform-IsSound (turn c) h i = round-IsSound c h i
perform-IsSound (sent line) h i = broadcast_queued line h i
perform-IsSound (connected skips m s) h i = connect-IsSound skips m s h i
perform-IsSound (disconnected skips c) h i = unregister_queued skips c h i
perform-IsSound stopped h i = stop-IsSound h i
perform-IsSound (received c) h i = receive-IsSound c h i

run-IsSound : (actions : List Action) (h : Hub) → IsSound h → IsSound (run actions h)
unfolding run
run-IsSound [] h i = i
run-IsSound (a ∷ actions) h i = run-IsSound actions (perform a h) (perform-IsSound a h i)

new_hub-IsSound : IsSound new_hub
unfolding new_hub
new_hub-IsSound = record {
  old = tt;
  distinct = tt;
  are_open = tt;
  served = λ c. (omega arith, tt);
  calm = refl;
}

-- Whatever clients connect and leave, in whatever order Run takes its channels, and whenever Stop is
-- called: no line is sent on a closed channel of a client, and for each client at most 64 lines wait,
-- all of which match its filter.
pub run-IsServed :
    (actions : List Action) (c : ℕ)
    → ((run actions new_hub).panicked ≡ false) × IsServed ((run actions new_hub).client_of c)
run-IsServed actions c = let i = run-IsSound actions new_hub new_hub-IsSound in (i.calm, i.served c)
