-- ===== src/Net/Ack/Network/Success.antt =====
-- What the client's success says of the server.
use osh.Prelude.{ℕ, ◌≤◌, ◌≡◌, sym, ◌∙◌, subst, List, [], true, length, All, arith, append-nil}
use mathlib.Core.List.{map, Mem}
use osh.Net.CString.Padded.{IsText}
use osh.Net.Tcp.Transfer.{joined}
use osh.Net.Line.{finished}
use osh.Net.Ack.Network.Server.{served, Moves-ack_server}
use osh.Net.Ack.{ack_server}
use osh.Net.Ack.Network.{returned, Link, opening, ack_of, Moves, fetched}
use osh.Net.Ack.Network.Fair.{PhaseOf, Moves-IsFair}

module _ (htons htonl : ℕ → ℕ) where
  -- Whatever the network loses, delays and reorders, and however the two programs' steps interleave
  -- from their loops on: once the client returns with success, the lines that it has taken make up
  -- its whole input, which has no NULs; the server has printed at least as many messages as there
  -- are lines, each of them one of the lines, and has done what its program does on the frames that
  -- have reached it, in the order in which they have.
  pub Moves-success :
      (input payload : List ℕ) (q : Link) (run : Moves htons htonl (opening input payload) q)
      → IsText input
      → q.phase ≡ returned true
      → (joined (fetched htons htonl run) ≡ input)
        × (length (fetched htons htonl run) ≤ length q.printed)
        × All (λ text. Mem text (fetched htons htonl run)) q.printed
        × (ack_server htons htonl true true (served htons htonl run) payload
            ≡ finished (q.printed, map (ack_of htons htonl) (served htons htonl run)))
  Moves-success input payload q run h e =
      let fair = Moves-IsFair htons htonl input payload run h in
      let lines = fetched htons htonl run in
      let empty : q.input ≡ [] = subst (PhaseOf lines q.input) e fair.of_phase in
      (
        sym (append-nil (joined lines)) ∙ rw empty at fair.cut,
        omega (arith, rw e at fair.counted),
        fair.of_printed,
        Moves-ack_server htons htonl input payload run,
      )
