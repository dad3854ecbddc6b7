-- ===== src/Hub/Rounds.antt =====
-- internal/api/hub.go: a round of Run keeps the hub sound.
use logtailr.Base.{
  ℕ, ◌<◌, ◌≡◌, refl, sym, ap, ◌∙◌, true, false, ◌==◌, List, [], ◌∷◌, ◌++◌, All, All-map, arith,
}
use mathlib.Core.List.{append_assoc}
use mathlib.Core.Path.{subst}
use logtailr.Logline.{LogLine}
use logtailr.Hub.{
  Hub, Case, on_register, on_unregister, on_broadcast, on_done, matches_filter, is_in,
  remove_client, set_client, close_client, send_all, close_all, taken_register, taken_unregister,
  taken_broadcast, taken_done, round_of, run_round,
}
use logtailr.Hub.Sound.{
  IsSound, AreOpen, AreDistinct, removed, remove-AreDistinct, remove-All, set_client-AreOpen,
  set_client-IsServed, send_all-IsSent, sent-IsSound, either,
}

All-front : (P : ℕ → Type 0) (cs ds : List ℕ) → All P (cs ++ ds) → All P cs
All-front P [] ds h = tt
All-front P (c ∷ cs) ds (a, h) = (a, All-front P cs ds h)

All-back : (P : ℕ → Type 0) (cs ds : List ℕ) → All P (cs ++ ds) → All P ds
All-back P [] ds h = h
All-back P (c ∷ cs) ds (a, h) = All-back P cs ds h

-- a member of a list without repetitions is in neither part before or after it
is_in-back : (c d : ℕ) (cs ds : List ℕ) → is_in c (cs ++ d ∷ ds) ≡ false → c == d ≡ false
is_in-back c d [] ds h = ground arith
is_in-back c d (e ∷ cs) ds h = ground (arith, is_in-back c d cs ds)

front_lacks : (d : ℕ) (cs ds : List ℕ) → AreDistinct (cs ++ d ∷ ds) → is_in d cs ≡ false
front_lacks d [] ds h = refl
front_lacks d (c ∷ cs) ds (a, h) = ground (arith, is_in-back c d cs ds, front_lacks d cs ds)

back_lacks : (cs ds : List ℕ) → AreDistinct (cs ++ ds) → All (λ c. is_in c ds ≡ false) cs
back_lacks [] ds h = tt
back_lacks (c ∷ cs) ds (a, h) = (in_back c cs ds a, back_lacks cs ds h)
  where
    in_back : (c : ℕ) (cs ds : List ℕ) → is_in c (cs ++ ds) ≡ false → is_in c ds ≡ false
    in_back c [] ds h = h
    in_back c (e ∷ cs) ds h = ground (arith, in_back c cs ds)

AreDistinct-back : (cs ds : List ℕ) → AreDistinct (cs ++ ds) → AreDistinct ds
AreDistinct-back [] ds h = h
AreDistinct-back (c ∷ cs) ds (a, h) = AreDistinct-back cs ds h

-- the registration that is taken moves from one end of the list to the other
register-IsSound :
    (cs : List ℕ) (h : Hub) → h.register_chan ≡ cs → IsSound h → IsSound (taken_register cs h)
unfolding taken_register
register-IsSound [] h e i = i
register-IsSound (c ∷ rest) h e i =
    let all : h.clients ++ h.register_chan ≡ h.clients ++ c ∷ rest = ap (λ l. h.clients ++ l) e in
    let new : is_in c h.clients ≡ false =
      front_lacks c h.clients rest (subst AreDistinct all i.distinct) in
    let moved : h.clients ++ h.register_chan ≡ (h.clients ++ c ∷ []) ++ rest =
      all ∙ sym (append_assoc h.clients (c ∷ []) rest) in
    rw new (record {
      old = subst (All (λ k. k < h.next_client)) moved i.old;
      distinct = subst AreDistinct moved i.distinct;
      are_open = subst (AreOpen h.client_of) moved i.are_open;
      served = i.served;
      calm = i.calm;
    })

-- the channel of a client that is neither registered nor waiting may be closed
close-IsSound :
    (c : ℕ) (h : Hub)
    → is_in c (h.clients ++ h.register_chan) ≡ false
    → IsSound h
    → IsSound (close_client c h)
unfolding close_client
close-IsSound c h out i =
    let client = h.client_of c in
    let closed_client = record client { closed = true } in
    either IsSound client.closed h (record h { client_of = set_client c closed_client h.client_of })
      (λ _. i)
      (record {
        old = i.old;
        distinct = i.distinct;
        are_open =
            set_client-AreOpen c closed_client h.client_of (h.clients ++ h.register_chan) out
              i.are_open;
        served =
            set_client-IsServed c closed_client h.client_of (unfold matches_filter in i.served c)
              i.served;
        calm = i.calm;
      })

unregister-IsSound : (cs : List ℕ) (h : Hub) → IsSound h → IsSound (taken_unregister cs h)
unfolding taken_unregister
unregister-IsSound [] h i = i
unregister-IsSound (c ∷ rest) h i =
    let without = record h { unregister_chan = rest } in
    let removed_one = record h { unregister_chan = rest; clients = remove_client c h.clients } in
    either IsSound (is_in c h.clients) (close_client c removed_one) without
      (λ inside.
        close-IsSound c removed_one (removed c h.clients h.register_chan i.distinct inside)
          (record {
            old = remove-All (λ k. k < h.next_client) c h.clients h.register_chan i.old;
            distinct = remove-AreDistinct c h.clients h.register_chan i.distinct;
            are_open =
                remove-All (λ k. (h.client_of k).closed ≡ false) c h.clients h.register_chan
                  i.are_open;
            served = i.served;
            calm = i.calm;
          }))
      (record {
        old = i.old;
        distinct = i.distinct;
        are_open = i.are_open;
        served = i.served;
        calm = i.calm;
      })

broadcast-IsSound : (lines : List LogLine) (h : Hub) → IsSound h → IsSound (taken_broadcast lines h)
unfolding taken_broadcast
broadcast-IsSound [] h i = i
broadcast-IsSound (line ∷ rest) h i =
    let h1 = record h { broadcast_chan = rest } in
    let i1 : IsSound h1 = record {
      old = i.old;
      distinct = i.distinct;
      are_open = i.are_open;
      served = i.served;
      calm = i.calm;
    } in
    sent-IsSound h1 (send_all line h.clients h1)
      (send_all-IsSent line h.clients h1
        (All-front (λ k. (h.client_of k).closed ≡ false) h.clients h.register_chan i.are_open))
      i1

-- a close leaves the lists as they are
lists-close :
    (c : ℕ) (h : Hub)
    → (close_client c h).clients ++ (close_client c h).register_chan ≡ h.clients ++ h.register_chan
unfolding close_client
lists-close c h =
    either (λ h'. h'.clients ++ h'.register_chan ≡ h.clients ++ h.register_chan)
      (h.client_of c).closed h _ (λ _. refl) refl

close_all-IsSound :
    (cs : List ℕ) (h : Hub)
    → All (λ c. is_in c (h.clients ++ h.register_chan) ≡ false) cs
    → IsSound h
    → IsSound (close_all cs h)
unfolding close_all
close_all-IsSound [] h out i = i
close_all-IsSound (c ∷ cs) h (a, out) i =
    close_all-IsSound cs (close_client c h) (All-map (λ d o. rw (lists-close c h) o) cs out)
      (close-IsSound c h a i)

done-IsSound : (h : Hub) → IsSound h → IsSound (taken_done h)
unfolding taken_done
done-IsSound h i =
    let ended = record h { clients = []; is_running = false } in
    either IsSound h.is_done (close_all h.clients ended) h
      (λ _.
        close_all-IsSound h.clients ended (back_lacks h.clients h.register_chan i.distinct)
          (record {
            old = All-back (λ k. k < h.next_client) h.clients h.register_chan i.old;
            distinct = AreDistinct-back h.clients h.register_chan i.distinct;
            are_open =
                All-back (λ k. (h.client_of k).closed ≡ false) h.clients h.register_chan i.are_open;
            served = i.served;
            calm = i.calm;
          }))
      i

pub round-IsSound : (c : Case) (h : Hub) → IsSound h → IsSound (run_round c h)
unfolding run_round round_of
round-IsSound c h i = either IsSound h.is_running (by_case c) h (λ _. cases c) i
  where
    by_case : Case → Hub
    by_case k = round_of k h

    cases : (k : Case) → IsSound (by_case k)
    cases on_register = register-IsSound h.register_chan h refl i
    cases on_unregister = unregister-IsSound h.unregister_chan h i
    cases on_broadcast = broadcast-IsSound h.broadcast_chan h i
    cases on_done = done-IsSound h i
