-- ===== src/Hub/Sound.antt =====
-- internal/api/hub.go: no run of the hub sends on a closed channel, and the channels stay bounded.
use logtailr.Base.{
  ℕ, ◌≤◌, ◌<◌, ◌≡◌, refl, ap, ◌∙◌, Bool, true, false, ◌==◌, List, [], ◌∷◌, ◌++◌, ltb, if◌then◌else◌,
  length, length-append, All, All-append, All-map, arith, Bool-cases, inl, inr,
}
use logtailr.Logline.{LogLine}
use logtailr.Hub.{
  Hub, Client, client_send_buffer, matches_filter, is_in, remove_client, set_client, send_to,
  send_all,
}

-- no member stands twice
abbrev pub AreDistinct : List ℕ → Type 0
AreDistinct [] = Unit
AreDistinct (c ∷ cs) = (is_in c cs ≡ false) × AreDistinct cs

-- at most 64 lines wait, each one that the client asked for
abbrev pub IsServed : Client → Type 0
IsServed client =
    (length client.send ≤ client_send_buffer)
    × All (λ line. matches_filter client line ≡ true) client.send

abbrev pub AreOpen : (ℕ → Client) → List ℕ → Type 0
AreOpen client_of = All (λ c. (client_of c).closed ≡ false)

-- The clients of the hub and those that wait to be registered are different ones, and their channels
-- are open.
pub record IsSound (h : Hub) : Type 0 where
  pub old : All (λ c. c < h.next_client) (h.clients ++ h.register_chan)
  pub distinct : AreDistinct (h.clients ++ h.register_chan)
  pub are_open : AreOpen h.client_of (h.clients ++ h.register_chan)
  pub served : (c : ℕ) → IsServed (h.client_of c)
  pub calm : h.panicked ≡ false

pub remove-is_in :
    (x c : ℕ) (cs ds : List ℕ)
    → is_in x (cs ++ ds) ≡ false
    → is_in x (remove_client c cs ++ ds) ≡ false
unfolding remove_client
remove-is_in x c [] ds h = h
remove-is_in x c (d ∷ cs) ds h = ground (arith, remove-is_in x c cs ds)

pub removed :
    (c : ℕ) (cs ds : List ℕ)
    → AreDistinct (cs ++ ds)
    → is_in c cs ≡ true
    → is_in c (remove_client c cs ++ ds) ≡ false
unfolding remove_client
removed c [] ds h e = ground arith
removed c (d ∷ cs) ds (a, h) e = elim (Bool-cases (c == d)) [
  | inl same ↦ let same' : c ≡ d = ground arith in rw same (rw same' (remove-is_in d c cs ds a))
  | inr other ↦ rw (other, other) (removed c cs ds h (rw other at e))
]

pub remove-AreDistinct :
    (c : ℕ) (cs ds : List ℕ) → AreDistinct (cs ++ ds) → AreDistinct (remove_client c cs ++ ds)
unfolding remove_client
remove-AreDistinct c [] ds h = h
remove-AreDistinct c (d ∷ cs) ds (a, h) = elim (Bool-cases (c == d)) [
  | inl same ↦ rw same (remove-AreDistinct c cs ds h)
  | inr other ↦ rw other (remove-is_in d c cs ds a, remove-AreDistinct c cs ds h)
]

pub remove-All :
    (P : ℕ → Type 0) (c : ℕ) (cs ds : List ℕ) → All P (cs ++ ds) → All P (remove_client c cs ++ ds)
unfolding remove_client
remove-All P c [] ds h = h
remove-All P c (d ∷ cs) ds (a, h) = elim (Bool-cases (c == d)) [
  | inl same ↦ rw same (remove-All P c cs ds h)
  | inr other ↦ rw other (a, remove-All P c cs ds h)
]

-- a client that is not among them is replaced
pub set_client-AreOpen :
    (c : ℕ) (client : Client) (client_of : ℕ → Client) (cs : List ℕ)
    → is_in c cs ≡ false
    → AreOpen client_of cs
    → AreOpen (set_client c client client_of) cs
unfolding set_client
set_client-AreOpen c client client_of [] h o = tt
set_client-AreOpen c client client_of (d ∷ cs) h (od, o) = elim (Bool-cases (c == d)) [
  | inl same ↦ let e : true ≡ false = rw same at h in ground arith
  | inr other ↦ (rw other od, set_client-AreOpen c client client_of cs (rw other at h) o)
]

pub set_client-IsServed :
    (c : ℕ) (client : Client) (client_of : ℕ → Client)
    → IsServed client
    → ((d : ℕ) → IsServed (client_of d))
    → (d : ℕ) → IsServed (set_client c client client_of d)
unfolding set_client
set_client-IsServed c client client_of h hs d = elim (Bool-cases (c == d)) [
  | inl same ↦ rw same h
  | inr other ↦ rw other (hs d)
]

-- a number that is not used yet
pub not_yet : (n : ℕ) (cs : List ℕ) → All (λ c. c < n) cs → is_in n cs ≡ false
not_yet n [] h = refl
not_yet n (c ∷ cs) (a, h) = ground (arith, not_yet n cs)

pub new_last :
    (n : ℕ) (cs : List ℕ) → All (λ c. c < n) cs → AreDistinct cs → AreDistinct (cs ++ n ∷ [])
new_last n [] h d = (refl, tt)
new_last n (c ∷ cs) (a, h) (x, d) = (ground (arith, last_other n c cs), new_last n cs h d)
  where
    last_other :
        (n c : ℕ) (cs : List ℕ) → is_in c cs ≡ false → c < n → is_in c (cs ++ n ∷ []) ≡ false
    last_other n c [] x a = ground arith
    last_other n c (e ∷ cs) x a = ground (arith, last_other n c cs)

-- what a send leaves: the same hub but for the clients' channels
pub record IsSent (h h' : Hub) : Type 0 where
  pub same_clients : h'.clients ≡ h.clients
  pub same_register : h'.register_chan ≡ h.register_chan
  pub same_next : h'.next_client ≡ h.next_client
  pub same_done : h'.is_done ≡ h.is_done
  pub same_closed : (c : ℕ) → (h'.client_of c).closed ≡ (h.client_of c).closed
  pub still_served : ((c : ℕ) → IsServed (h.client_of c)) → (c : ℕ) → IsServed (h'.client_of c)
  pub same_panic : h'.panicked ≡ h.panicked

IsSent-refl : (h : Hub) → IsSent h h
IsSent-refl h = record {
  same_clients = refl;
  same_register = refl;
  same_next = refl;
  same_done = refl;
  same_closed = λ c. refl;
  still_served = λ served. served;
  same_panic = refl;
}

IsSent-trans : (a b c : Hub) → IsSent a b → IsSent b c → IsSent a c
IsSent-trans a b c s t = record {
  same_clients = t.same_clients ∙ s.same_clients;
  same_register = t.same_register ∙ s.same_register;
  same_next = t.same_next ∙ s.same_next;
  same_done = t.same_done ∙ s.same_done;
  same_closed = λ k. t.same_closed k ∙ s.same_closed k;
  still_served = λ served. t.still_served (s.still_served served);
  same_panic = t.same_panic ∙ s.same_panic;
}

pub left_out : (P : Hub → Type 0) (b : Bool) (x y : Hub) → b ≡ false → P y → P (if b then x else y)
left_out P true x y e h = ground arith
left_out P false x y e h = h

pub either :
    (P : Hub → Type 0) (b : Bool) (x y : Hub) → (b ≡ true → P x) → P y → P (if b then x else y)
either P true x y h h' = h refl
either P false x y h h' = h'

pub same_flag :
    (c : ℕ) (client : Client) (client_of : ℕ → Client)
    → client.closed ≡ (client_of c).closed
    → (d : ℕ) → (set_client c client client_of d).closed ≡ (client_of d).closed
unfolding set_client
same_flag c client client_of e d = elim (Bool-cases (c == d)) [
  | inl same ↦
      let same' : c ≡ d = ground arith in rw same (e ∙ ap (λ x. (client_of x).closed) same')
  | inr other ↦ rw other refl
]

abbrev queued : LogLine → Client → Client
queued line client = record client { send = client.send ++ line ∷ [] }

queued-IsServed :
    (line : LogLine) (client : Client)
    → ltb (length client.send) client_send_buffer ≡ true
    → matches_filter client line ≡ true
    → IsServed client
    → IsServed (queued line client)
unfolding matches_filter
queued-IsServed line client room matched (bound, all) = (
  rw (length-append client.send (line ∷ [])) (ground arith),
  All-append _ client.send (line ∷ []) all (matched, tt),
)

send_to-IsSent :
    (line : LogLine) (c : ℕ) (h : Hub)
    → (h.client_of c).closed ≡ false
    → matches_filter (h.client_of c) line ≡ true
    → IsSent h (send_to line c h)
unfolding send_to
send_to-IsSent line c h is_open matched =
    let client = h.client_of c in
    left_out (IsSent h) client.closed _ _ is_open (
      either (IsSent h) (ltb (length client.send) client_send_buffer)
        (record h { client_of = set_client c (queued line client) h.client_of }) h
        (λ room. record {
          same_clients = refl;
          same_register = refl;
          same_next = refl;
          same_done = refl;
          same_closed = same_flag c (queued line client) h.client_of refl;
          still_served = λ served.
              set_client-IsServed c (queued line client) h.client_of
                (queued-IsServed line client room matched (served c)) served;
          same_panic = refl;
        })
        (IsSent-refl h))

pub still_open :
    (h h' : Hub) (cs : List ℕ) → IsSent h h' → AreOpen h.client_of cs → AreOpen h'.client_of cs
still_open h h' cs s = All-map (λ c o. s.same_closed c ∙ o) cs

pub send_all-IsSent :
    (line : LogLine) (cs : List ℕ) (h : Hub)
    → AreOpen h.client_of cs
    → IsSent h (send_all line cs h)
unfolding send_all
send_all-IsSent line [] h o = IsSent-refl h
send_all-IsSent line (c ∷ cs) h (oc, o) =
    let h1 = if matches_filter (h.client_of c) line then send_to line c h else h in
    let s =
      either (IsSent h) (matches_filter (h.client_of c) line) (send_to line c h) h
        (send_to-IsSent line c h oc) (IsSent-refl h) in
    IsSent-trans h h1 (send_all line cs h1) s (send_all-IsSent line cs h1 (still_open h h1 cs s o))

pub sent-IsSound : (h h' : Hub) → IsSent h h' → IsSound h → IsSound h'
sent-IsSound h h' s i =
    let same =
      ap (λ l. l ++ h'.register_chan) s.same_clients ∙ ap (λ l. h.clients ++ l) s.same_register in
    record {
      old = rw (same, s.same_next) i.old;
      distinct = rw same i.distinct;
      are_open = rw same (still_open h h' (h.clients ++ h.register_chan) s i.are_open);
      served = s.still_served i.served;
      calm = s.same_panic ∙ i.calm;
    }
