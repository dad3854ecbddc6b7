-- ===== src/Hub.antt =====
-- internal/api/hub.go: the hub, its queues and the clients of handleWebSocket (websocket.go).
mod Sound
mod Rounds
mod Run
mod Ended
mod Tests
use logtailr.Base.{
  ℕ, ◌+◌, String, Bool, true, false, not, ◌&&◌, ◌||◌, ◌==◌, Option, none, some, List, [], ◌∷◌, ◌++◌,
  ltb, str_eq, if◌then◌else◌, length, any,
}
use logtailr.Logline.{LogLine, log_levels}

abbrev pub hub_broadcast_buffer : ℕ
hub_broadcast_buffer = 256

abbrev pub client_send_buffer : ℕ
client_send_buffer = 64

abbrev pub hub_conn_buffer : ℕ
hub_conn_buffer = 64

-- `send` is the content of the channel
pub record Client : Type 0 where
  pub send : List LogLine
  pub min_level : String
  pub source_name : String
  pub closed : Bool

-- A client is given by a number: `client_of` is the store of clients, and `next_client` the number of
-- the next one. `is_running` ends with Run. `panicked`: a line was sent on a closed channel of a
-- client. `stopped_twice`: Stop closed a closed channel.
pub record Hub : Type 0 where
  pub clients : List ℕ
  pub broadcast_chan : List LogLine
  pub register_chan : List ℕ
  pub unregister_chan : List ℕ
  pub is_done : Bool
  pub is_running : Bool
  pub client_of : ℕ → Client
  pub next_client : ℕ
  pub panicked : Bool
  pub stopped_twice : Bool

abbrev no_client : Client
no_client = record { send = []; min_level = ""; source_name = ""; closed = false }

-- NewHub, and Run is started
unfoldable pub new_hub : Hub
new_hub = record {
  clients = [];
  broadcast_chan = [];
  register_chan = [];
  unregister_chan = [];
  is_done = false;
  is_running = true;
  client_of = λ c. no_client;
  next_client = 0;
  panicked = false;
  stopped_twice = false;
}

-- the comparison of two levels, where both are known
abbrev at_least : Option ℕ → Option ℕ → Bool
at_least none line_level = true
at_least (some m) none = true
at_least (some m) (some l) = not (ltb l m)

-- matchesFilter
unfoldable pub matches_filter : Client → LogLine → Bool
unfolding log_levels
matches_filter client line =
    if not (str_eq client.source_name "") && not (str_eq client.source_name line.source)
    then false
    else (if str_eq client.min_level ""
        then true
        else at_least (log_levels client.min_level) (log_levels line.level))

abbrev pub is_in : ℕ → List ℕ → Bool
is_in c = any (λ d. c == d)

unfoldable pub remove_client : ℕ → List ℕ → List ℕ
remove_client c [] = []
remove_client c (d ∷ clients) =
    let rest = remove_client c clients in if c == d then rest else d ∷ rest

-- the store with another client in a place
unfoldable pub set_client : ℕ → Client → (ℕ → Client) → ℕ → Client
set_client c client client_of d = if c == d then client else client_of d

-- close(client.Send), unless it is closed
unfoldable pub close_client : ℕ → Hub → Hub
unfolding set_client
close_client c h =
    let client = h.client_of c in
    if client.closed
    then h
    else record h { client_of = set_client c (record client { closed = true }) h.client_of }

-- client.Send <- line, unless the channel is full
unfoldable pub send_to : LogLine → ℕ → Hub → Hub
unfolding set_client
send_to line c h =
    let client = h.client_of c in
    if client.closed
    then record h { panicked = true }
    else (if ltb (length client.send) client_send_buffer
        then record h {
          client_of = set_client c (record client { send = client.send ++ line ∷ [] }) h.client_of;
        }
        else h)

-- the loop over the clients for a line
unfoldable pub send_all : LogLine → List ℕ → Hub → Hub
unfolding send_to matches_filter
send_all line [] h = h
send_all line (c ∷ clients) h =
    send_all line clients (if matches_filter (h.client_of c) line then send_to line c h else h)

-- the loop over the clients at the end
unfoldable pub close_all : List ℕ → Hub → Hub
unfolding close_client
close_all [] h = h
close_all (c ∷ clients) h = close_all clients (close_client c h)

-- the case that Run takes in a round: any whose channel is ready
pub data Case : Type 0 where
  on_register : Case
  on_unregister : Case
  on_broadcast : Case
  on_done : Case

unfoldable pub taken_register : List ℕ → Hub → Hub
taken_register [] h = h
taken_register (c ∷ rest) h = record h {
  register_chan = rest;
  clients = if is_in c h.clients then h.clients else h.clients ++ c ∷ [];
}

unfoldable pub taken_unregister : List ℕ → Hub → Hub
unfolding close_client remove_client
taken_unregister [] h = h
taken_unregister (c ∷ rest) h =
    if is_in c h.clients
    then close_client c (record h { unregister_chan = rest; clients = remove_client c h.clients })
    else record h { unregister_chan = rest }

unfoldable pub taken_broadcast : List LogLine → Hub → Hub
unfolding send_all
taken_broadcast [] h = h
taken_broadcast (line ∷ rest) h = send_all line h.clients (record h { broadcast_chan = rest })

unfoldable pub taken_done : Hub → Hub
unfolding close_all
taken_done h =
    if h.is_done then close_all h.clients (record h { clients = []; is_running = false }) else h

unfoldable pub round_of : Case → Hub → Hub
unfolding taken_register taken_unregister taken_broadcast taken_done
round_of on_register h = taken_register h.register_chan h
round_of on_unregister h = taken_unregister h.unregister_chan h
round_of on_broadcast h = taken_broadcast h.broadcast_chan h
round_of on_done h = taken_done h

-- one round of Run
unfoldable pub run_round : Case → Hub → Hub
unfolding round_of
run_round c h = if h.is_running then round_of c h else h

-- Broadcast; a line that finds the channel full is dropped
unfoldable pub broadcast : LogLine → Hub → Hub
broadcast line h =
    if ltb (length h.broadcast_chan) hub_broadcast_buffer
    then record h { broadcast_chan = h.broadcast_chan ++ line ∷ [] }
    else h

-- Register. A full channel blocks the caller, which is a call that comes later; after Stop the
-- caller may go on without the channel (`skips`).
unfoldable pub register : Bool → ℕ → Hub → Hub
register skips c h =
    if (h.is_done && skips) || not (ltb (length h.register_chan) hub_conn_buffer)
    then h
    else record h { register_chan = h.register_chan ++ c ∷ [] }

-- Unregister
unfoldable pub unregister : Bool → ℕ → Hub → Hub
unregister skips c h =
    if (h.is_done && skips) || not (ltb (length h.unregister_chan) hub_conn_buffer)
    then h
    else record h { unregister_chan = h.unregister_chan ++ c ∷ [] }

-- Stop
unfoldable pub stop : Hub → Hub
stop h = if h.is_done then record h { stopped_twice = true } else record h { is_done = true }

-- ClientCount
unfoldable pub client_count : Hub → ℕ
client_count h = length h.clients

-- the client that handleWebSocket makes, and its registration
unfoldable pub connect : Bool → String → String → Hub → Hub
unfolding register set_client
connect skips min_level source_name h =
    let client : Client = record {
      send = [];
      min_level = min_level;
      source_name = source_name;
      closed = false;
    } in
    register skips h.next_client (record h {
      client_of = set_client h.next_client client h.client_of;
      next_client = h.next_client + 1;
    })
