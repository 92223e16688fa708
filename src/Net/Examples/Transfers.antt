-- ===== src/Net/Examples/Transfers.antt =====
-- The theorems on the clients and servers over TCP and UDP at concrete inputs.
use osh.Prelude.{
  ℕ, Bool, suc, ◌≤◌, ◌≡◌, refl, sym, ◌∙◌, List, [], ◌∷◌, true, some, arith, ◌==◌, replicate,
  length-replicate, zero, All,
}
use mathlib.Core.List.{map}
use osh.Net.CString.{c_string}
use osh.Net.Stdio.{take_line}
use osh.Net.Line.{finished, faulted, newline}
use osh.Net.Tcp.{Exit, ClientOs, ServerOs, receive_chunks, tcp_client, tcp_server}
use osh.Net.Tcp.Transfer.{joined, receive_chunks-overflow, tcp-transfer}
use osh.Net.Tcp.Descriptors.{IsBalanced, tcp-IsBalanced}
use osh.Net.Ack.{nretries, ack_client, ack_server}
use osh.Net.Ack.Delivery.{Sent, lines_of, repeated, frames, acks, ack-transfer}
use osh.Net.Udp.{receive_lines, udp_client, udp_server}
use osh.Net.Udp.Delivery.{sealed, IsSendable, udp-transfer}
use osh.Net.Udp.Overlong.{receive_lines-overlong}
use osh.Net.CString.Padded.{IsText}
use osh.Net.Examples.{hi_line, hi_line-IsText, same}

-- A text as long as one likes.
replicate-IsText : (n : ℕ) → IsText (replicate n 7)
replicate-IsText zero = tt
replicate-IsText (suc n) = (omega arith, replicate-IsText n)

receive_chunks-overflow_example :
    receive_chunks (hi_line ∷ (1 ∷ 2 ∷ 3 ∷ 4 ∷ []) ∷ []) (replicate 4 1) ≡ faulted
receive_chunks-overflow_example =
    receive_chunks-overflow (hi_line ∷ []) (1 ∷ 2 ∷ 3 ∷ 4 ∷ []) [] (replicate 4 1)
      (hi_line-IsText, tt) (omega arith, tt) refl

abbrev client_os : ClientOs
client_os = record { socket = some 3; connect = true; whole = λ _. true; input = hi_line }

-- the line arrives in two chunks
abbrev server_os : ServerOs
server_os = record {
  socket = some 3;
  setsockopt = true;
  bind = true;
  listen = true;
  accept = some 4;
  chunks = (104 ∷ []) ∷ (105 ∷ newline ∷ []) ∷ [];
}

abbrev client_exit : Exit
client_exit = record { success = true; opened = 3 ∷ []; closed = 3 ∷ []; output = hi_line ∷ [] }

tcp_client-hi : tcp_client 4 client_os ≡ finished client_exit
unfolding tcp_client c_string take_line
tcp_client-hi = refl

finished_inj : {e d : Exit} → finished e ≡ finished d → e ≡ d
finished_inj {e} {d} h = cc

server_os-chunks :
    (e : Exit) → tcp_client 4 client_os ≡ finished e → joined server_os.chunks ≡ joined e.output
server_os-chunks e h = let q : e ≡ client_exit = finished_inj (sym h ∙ tcp_client-hi) in rw q

tcp-transfer_example :
    (e d : Exit) × (tcp_client 4 client_os ≡ finished e)
    × (tcp_server (replicate 8 1) server_os ≡ finished d)
    × (e.success ≡ true)
    × (d.success ≡ true)
    × (joined d.output ≡ hi_line)
tcp-transfer_example =
    tcp-transfer 4 3 3 4 client_os server_os (replicate 8 1) refl refl (λ _. refl) hi_line-IsText
      (omega arith) refl refl refl refl refl server_os-chunks (omega arith, (omega arith, tt))

tcp-IsBalanced_example :
    IsBalanced (tcp_client 4 client_os) × IsBalanced (tcp_server (replicate 8 1) server_os)
tcp-IsBalanced_example = tcp-IsBalanced 4 client_os server_os (replicate 8 1)

abbrev udp_array : List ℕ
udp_array = replicate 1024 1

-- a datagram that the server's array has no room for
abbrev flood : List ℕ
flood = replicate 1500 7

udp-transfer_example :
    (lines : List (List ℕ)) × (udp_client 4 true true hi_line ≡ finished (true, map sealed lines))
    × (joined lines ≡ hi_line)
    × All IsSendable lines
    × (udp_server true true (map sealed (hi_line ∷ hi_line ∷ [])) udp_array
        ≡ finished (hi_line ∷ hi_line ∷ []))
    × (udp_server true true (map sealed lines) udp_array ≡ finished lines)
udp-transfer_example =
    udp-transfer 4 hi_line udp_array (hi_line ∷ hi_line ∷ []) hi_line-IsText (omega arith)
      (length-replicate {A = ℕ} 1024 1)
      ((hi_line-IsText, omega arith), ((hi_line-IsText, omega arith), tt))

receive_lines-overlong_example : receive_lines (sealed hi_line ∷ flood ∷ []) udp_array ≡ faulted
receive_lines-overlong_example =
    receive_lines-overlong (hi_line ∷ []) flood [] udp_array ((hi_line-IsText, omega arith), tt)
      (length-replicate {A = ℕ} 1024 1) (omega (arith, length-replicate {A = ℕ} 1500 7))
      (replicate-IsText 1024)

-- An answer comes in the third turn, where `remaining` is 8.
abbrev answered : ℕ → ℕ → Bool
answered seqno remaining = remaining == 8

ack-transfer_example :
    (sent : List Sent) × (ack_client same same 4 true true answered hi_line
      ≡ finished (frames same same 0 sent, true))
    × (joined (lines_of sent) ≡ hi_line)
    × All (λ s. suc s.0 ≤ nretries) sent
    × (ack_server same same true true (frames same same 0 sent) (replicate 256 1)
        ≡ finished (repeated sent, acks same same 0 sent))
ack-transfer_example =
    ack-transfer same same 4 answered (λ _. 8) hi_line (replicate 256 1) hi_line-IsText
      (omega arith) (λ s. (omega arith, omega arith, refl))
