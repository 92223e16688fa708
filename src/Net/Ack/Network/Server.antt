-- ===== src/Net/Ack/Network/Server.antt =====
-- The server on a network is the server of UDPACKserver.c on the frames that reach it.
use osh.Prelude.{ℕ, ◌≡◌, refl, sym, ap, ◌∙◌, subst, List, [], ◌∷◌, ◌++◌, true, some, append-nil}
use mathlib.Core.List.{map}
use osh.Net.CString.{c_string}
use osh.Net.Line.{finished, finished_inj, checked, then_run-finished, checked-finished}
use osh.Net.Ack.{DataFrame, AckFrame, acknowledge, ack_server}
use osh.Net.Ack.Network.{
  Link, opening, filled, ack_of, Move, fetches, ends, times_out, answers, gives_up, receives,
  serves, arrives, loses_frame, loses_ack, Moves, stay, further,
}

-- `payload` after some frames
abbrev filled_by : List DataFrame → List ℕ → List ℕ
filled_by [] payload = payload
filled_by (msg ∷ msgs) payload = filled_by msgs (filled msg payload)

filled_by-snoc :
    (msgs : List DataFrame) (msg : DataFrame) (payload : List ℕ)
    → filled_by (msgs ++ msg ∷ []) payload ≡ filled msg (filled_by msgs payload)
filled_by-snoc [] msg payload = refl
filled_by-snoc (m ∷ msgs) msg payload = filled_by-snoc msgs msg (filled m payload)

module _ (htons htonl : ℕ → ℕ) where
  abbrev Served : Type 0
  Served = List (List ℕ) × List AckFrame

  -- One more frame.
  acknowledge-snoc :
      (msgs : List DataFrame) (msg : DataFrame) (payload text : List ℕ) (r : Served)
      → acknowledge htons htonl msgs payload ≡ finished r
      → c_string (filled msg (filled_by msgs payload)) ≡ some text
      → acknowledge htons htonl (msgs ++ msg ∷ []) payload
        ≡ finished (r.0 ++ text ∷ [], r.1 ++ ack_of htons htonl msg ∷ [])
  unfolding acknowledge
  acknowledge-snoc [] msg payload text r e t =
      subst
        (λ (q : Served).
          acknowledge htons htonl (msg ∷ []) payload
          ≡ finished (q.0 ++ text ∷ [], q.1 ++ ack_of htons htonl msg ∷ []))
        (finished_inj e) (rw t refl)
  acknowledge-snoc (m ∷ msgs) msg payload text r e t =
      let (first, c, e₁) = then_run-finished (checked (c_string (filled m payload))) _ e in
      let (r', e₂, e₃) = then_run-finished (acknowledge htons htonl msgs (filled m payload)) _ e₁ in
      let more = acknowledge-snoc msgs msg (filled m payload) text r' e₂ t in
      subst
        (λ (q : Served).
          acknowledge htons htonl ((m ∷ msgs) ++ msg ∷ []) payload
          ≡ finished (q.0 ++ text ∷ [], q.1 ++ ack_of htons htonl msg ∷ []))
        (finished_inj e₃) (rw (checked-finished _ c) (rw more refl))

  -- the frame that the server gets in a step
  abbrev pub served_by : {p q : Link} → Move htons htonl p q → List DataFrame
  served_by (serves p before after msg text e t) = msg ∷ []
  served_by _ = []

  abbrev pub served : {p q : Link} → Moves htons htonl p q → List DataFrame
  served stay = []
  served (further q r run move) = served run ++ served_by move

  map-snoc :
      (msgs : List DataFrame) (msg : DataFrame)
      → map (ack_of htons htonl) (msgs ++ msg ∷ [])
        ≡ map (ack_of htons htonl) msgs ++ ack_of htons htonl msg ∷ []
  map-snoc [] msg = refl
  map-snoc (m ∷ msgs) msg = ap (λ l. ack_of htons htonl m ∷ l) (map-snoc msgs msg)

  abbrev IsServed : List ℕ → List DataFrame → Link → Type 0
  IsServed payload msgs p =
      (acknowledge htons htonl msgs payload ≡ finished (p.printed, map (ack_of htons htonl) msgs))
      × (p.payload ≡ filled_by msgs payload)

  quiet :
      (payload : List ℕ) (msgs : List DataFrame) (p : Link)
      → IsServed payload msgs p
      → IsServed payload (msgs ++ []) p
  quiet payload msgs p h = subst (λ l. IsServed payload l p) (sym (append-nil msgs)) h

  Move-IsServed :
      (payload : List ℕ) (msgs : List DataFrame) {p q : Link} (move : Move htons htonl p q)
      → IsServed payload msgs p
      → IsServed payload (msgs ++ served_by move) q
  Move-IsServed payload msgs (serves p before after msg text e t) (h, same) = (
    acknowledge-snoc msgs msg payload text _ h (rw same at t)
        ∙ ap (λ acks. finished (p.printed ++ text ∷ [], acks)) (sym (map-snoc msgs msg)),
    ap (filled msg) same ∙ sym (filled_by-snoc msgs msg payload),
  )
  Move-IsServed payload msgs (fetches p line rest text at e t) h = quiet payload msgs p h
  Move-IsServed payload msgs (ends p at e) h = quiet payload msgs p h
  Move-IsServed payload msgs (times_out p remaining msg at e) h = quiet payload msgs p h
  Move-IsServed payload msgs (answers p remaining msg ack inbox' at e) h = quiet payload msgs p h
  Move-IsServed payload msgs (gives_up p msg at) h = quiet payload msgs p h
  Move-IsServed payload msgs (receives p ack inbox' at e) h = quiet payload msgs p h
  Move-IsServed payload msgs (arrives p before after ack e) h = quiet payload msgs p h
  Move-IsServed payload msgs (loses_frame p before after msg e) h = quiet payload msgs p h
  Move-IsServed payload msgs (loses_ack p before after ack e) h = quiet payload msgs p h

  Moves-IsServed :
      (input payload : List ℕ) {q : Link} (run : Moves htons htonl (opening input payload) q)
      → IsServed payload (served run) q
  unfolding acknowledge
  Moves-IsServed input payload stay = (refl, refl)
  Moves-IsServed input payload (further q r run move) =
      Move-IsServed payload (served run) move (Moves-IsServed input payload run)

  -- In every run the server prints and acknowledges what its program does on the frames that reach
  -- it, in the order in which they do.
  pub Moves-ack_server :
      (input payload : List ℕ) {q : Link} (run : Moves htons htonl (opening input payload) q)
      → ack_server htons htonl true true (served run) payload
        ≡ finished (q.printed, map (ack_of htons htonl) (served run))
  unfolding ack_server
  Moves-ack_server input payload run = (Moves-IsServed input payload run).0
