-- ===== src/Net/Udp.antt =====
-- UDPclient.c and UDPserver.c: each line is a datagram that ends in its NUL.
pub mod Delivery
pub mod Overlong
use osh.Prelude.{
  ℕ, zero, suc, List, [], ◌∷◌, ◌++◌, Option, none, some, take, drop, length, leb, Bool, true, false,
  if◌then◌else◌,
}
use osh.Net.CString.{c_string}
use osh.Net.Line.{Run, finished, running, ◌then_run◌, checked}
use osh.Net.Stdio.{fgets}

abbrev pub buf_size : ℕ
buf_size = 1024

-- `n = strlen(buf) + 1; sendto(sfd,buf,n,...)`: the bytes of the datagrams that are sent.
unfoldable pub send_lines : ℕ → List ℕ → Run (List (List ℕ))
unfolding fgets
send_lines zero input = running
send_lines (suc fuel) input = elim (fgets buf_size input) [
  | none ↦ finished []
  | some (line, rest) ↦ checked (c_string (line ++ 0 ∷ [])) then_run λ text.
      send_lines fuel rest then_run λ more. finished ((text ++ 0 ∷ []) ∷ more)
]

-- `recvfrom(sfd,buf,sizeof(buf),...)`: the bytes of a datagram behind `sizeof(buf)` are lost, and the
-- array keeps those behind the bytes received. `none` is a write past an array that is shorter.
unfoldable pub received_into : List ℕ → List ℕ → Option (List ℕ)
received_into buf datagram =
    let bytes = take buf_size datagram in
    if leb (length bytes) (length buf) then some (bytes ++ drop (length bytes) buf) else none

-- The server's loop over the datagrams that arrive, up to an error: what fputs() prints.
unfoldable pub receive_lines : List (List ℕ) → List ℕ → Run (List (List ℕ))
unfolding received_into
receive_lines [] buf = finished []
receive_lines (datagram ∷ datagrams) buf = checked (received_into buf datagram) then_run λ buf'.
    checked (c_string buf') then_run λ text.
    receive_lines datagrams buf' then_run λ more. finished (text ∷ more)

-- `main` of UDPclient.c: the status (true for a return at the end) and the datagrams.
unfoldable pub udp_client : ℕ → Bool → Bool → List ℕ → Run (Bool × List (List ℕ))
unfolding send_lines
udp_client fuel socket bind input =
    let talk = send_lines fuel input then_run λ ds. finished (true, ds) in
    if socket then (if bind then talk else finished (false, [])) else finished (false, [])

-- `main` of UDPserver.c, where `buf` is what the array of 1024 bytes holds before: it returns only at
-- an error, with -1.
unfoldable pub udp_server : Bool → Bool → List (List ℕ) → List ℕ → Run (List (List ℕ))
unfolding receive_lines
udp_server socket bind datagrams buf =
    if socket then (if bind then receive_lines datagrams buf else finished []) else finished []
