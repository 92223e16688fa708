-- ===== src/Net/Udp/Overlong.antt =====
-- A datagram that fills the server's array: fputs() finds no NUL in it.
use osh.Prelude.{
  ℕ, ◌≤◌, ◌≡◌, ◌∙◌, List, ◌∷◌, ◌++◌, some, arith, take, length, All, length-take, drop-length,
  append-nil, le→leb, ap, sym,
}
use mathlib.Core.List.{map}
use osh.Net.CString.Padded.{IsText, c_string-unterminated}
use osh.Net.Line.{faulted}
use osh.Net.Udp.{buf_size, received_into, receive_lines}
use osh.Net.Udp.Delivery.{sealed, IsSendable, receive_lines-after}

-- recvfrom() fills the array and drops what is behind.
received_into-long :
    (buf datagram : List ℕ)
    → length buf ≡ buf_size
    → buf_size ≤ length datagram
    → received_into buf datagram ≡ some (take buf_size datagram)
unfolding received_into
received_into-long buf datagram size long =
    let full : length (take buf_size datagram) ≡ buf_size =
      omega (arith, length-take buf_size datagram) in
    rw (le→leb (length (take buf_size datagram)) (length buf) (omega (arith, full, size))) (
      ap some (
        ap (λ l. take buf_size datagram ++ l)
          (drop-length (length (take buf_size datagram)) buf (full ∙ sym size))
        ∙ rw append-nil))

-- After the datagrams of any number of lines, one of 1024 bytes or more whose first 1024 are not NUL
-- makes the server read past the end of its array, whatever arrives after it.
pub receive_lines-overlong :
    (lines : List (List ℕ)) (datagram : List ℕ) (rest : List (List ℕ)) (buf : List ℕ)
    → All IsSendable lines
    → length buf ≡ buf_size
    → buf_size ≤ length datagram
    → IsText (take buf_size datagram)
    → receive_lines (map sealed lines ++ datagram ∷ rest) buf ≡ faulted
unfolding receive_lines
receive_lines-overlong lines datagram rest buf h size long text =
    let (buf', size', e) = receive_lines-after lines (datagram ∷ rest) buf h size in
    e
    ∙ rw (received_into-long buf' datagram size' long)
        (rw (c_string-unterminated (take buf_size datagram) text))
