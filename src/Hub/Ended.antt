-- ===== src/Hub/Ended.antt =====
-- internal/api/hub.go: the end of Run.
use logtailr.Base.{
  ℕ, ◌≡◌, refl, ◌∙◌, ◌⊎◌, Bool, true, false, List, [], ◌∷◌, ◌==◌, if◌then◌else◌, arith, Bool-cases,
  inl, inr,
}
use logtailr.Hub.{
  Hub, Client, on_done, is_in, set_client, close_client, close_all, taken_done, round_of, run_round,
}
use logtailr.Hub.Sound.{either}

abbrev IsClosed : ℕ → Hub → Type 0
IsClosed c h = (h.client_of c).closed ≡ true

closed_place :
    (c d : ℕ) (client : Client) (client_of : ℕ → Client)
    → client.closed ≡ true
    → ((c == d) ≡ true) ⊎ ((client_of d).closed ≡ true)
    → (set_client c client client_of d).closed ≡ true
unfolding set_client
closed_place c d client client_of h o = elim (Bool-cases (c == d)) [
  | inl same ↦ rw same h
  | inr other ↦
      rw other (elim o [
        | inl same ↦ absurd_flag (c == d) same other ((client_of d).closed)
        | inr was ↦ was
      ])
]
  where
    absurd_flag : (b : Bool) → b ≡ true → b ≡ false → (x : Bool) → x ≡ true
    absurd_flag true h h' x = ground arith
    absurd_flag false h h' x = ground arith

IsClosed-if :
    (b : Bool) (h h' : Hub) (d : ℕ)
    → (b ≡ true → IsClosed d h)
    → IsClosed d h'
    → IsClosed d (if b then h else h')
IsClosed-if true h h' d k k' = k refl
IsClosed-if false h h' d k k' = k'

close_client-IsClosed :
    (c d : ℕ) (h : Hub) → ((c == d) ≡ true) ⊎ IsClosed d h → IsClosed d (close_client c h)
unfolding close_client
close_client-IsClosed c d h o =
    let client = h.client_of c in
    IsClosed-if client.closed h
      (record h { client_of = set_client c (record client { closed = true }) h.client_of }) d
      (λ closed. elim o [
        | inl same ↦ let e : c ≡ d = ground arith in rw (← e) closed
        | inr was ↦ was
      ])
      (closed_place c d (record client { closed = true }) h.client_of refl o)

close_all-IsClosed :
    (cs : List ℕ) (d : ℕ) (h : Hub)
    → (is_in d cs ≡ true) ⊎ IsClosed d h
    → IsClosed d (close_all cs h)
unfolding close_all
close_all-IsClosed [] d h (inl e) = ground arith
close_all-IsClosed [] d h (inr was) = was
close_all-IsClosed (c ∷ cs) d h (inr was) =
    close_all-IsClosed cs d (close_client c h) (inr (close_client-IsClosed c d h (inr was)))
close_all-IsClosed (c ∷ cs) d h (inl e) = elim (Bool-cases (d == c)) [
  | inl same ↦
      let same' : (c == d) ≡ true = ground arith in
      close_all-IsClosed cs d (close_client c h) (inr (close_client-IsClosed c d h (inl same')))
  | inr other ↦ close_all-IsClosed cs d (close_client c h) (inl (rw other at e))
]

-- a close keeps the list of clients, and whether Run goes on
close_keeps :
    (c : ℕ) (h : Hub)
    → ((close_client c h).clients ≡ h.clients) × ((close_client c h).is_running ≡ h.is_running)
unfolding close_client
close_keeps c h =
    either (λ h'. (h'.clients ≡ h.clients) × (h'.is_running ≡ h.is_running)) (h.client_of c).closed
      h _ (λ _. (refl, refl)) (refl, refl)

close_all_keeps :
    (cs : List ℕ) (h : Hub)
    → ((close_all cs h).clients ≡ h.clients) × ((close_all cs h).is_running ≡ h.is_running)
unfolding close_all
close_all_keeps [] h = (refl, refl)
close_all_keeps (c ∷ cs) h =
    let (e, e') = close_all_keeps cs (close_client c h) in
    let (k, k') = close_keeps c h in (e ∙ k, e' ∙ k')

abbrev HasEnded : ℕ → Hub → Type 0
HasEnded c h = IsClosed c h × (h.clients ≡ []) × (h.is_running ≡ false)

-- When Run, not ended, takes the signal of Stop, it closes the channel of every client that is registered, forgets
-- the clients and ends.
pub run_round-done :
    (h : Hub) (c : ℕ)
    → h.is_running ≡ true
    → h.is_done ≡ true
    → is_in c h.clients ≡ true
    → ((run_round on_done h).client_of c).closed ≡ true
      × ((run_round on_done h).clients ≡ [])
      × ((run_round on_done h).is_running ≡ false)
unfolding run_round round_of taken_done
run_round-done h c running done inside =
    let ended = record h { clients = []; is_running = false } in
    let (no_clients, no_run) = close_all_keeps h.clients ended in
    chosen h.is_running (taken_done h) h running (
      chosen h.is_done (close_all h.clients ended) h done
        (close_all-IsClosed h.clients c ended (inl inside), no_clients, no_run))
  where
    chosen : (b : Bool) (x y : Hub) → b ≡ true → HasEnded c x → HasEnded c (if b then x else y)
    chosen true x y e k = k
    chosen false x y e k = ground arith
