-- ===== src/Net/Udp/Delivery.antt =====
-- What arrives is printed, whatever the server's buffer held.
use osh.Prelude.{
  ℕ, zero, suc, ◌≤◌, ◌<◌, ◌≡◌, refl, ap, ◌∙◌, List, [], ◌∷◌, ◌++◌, some, arith, drop, length, All,
  sym, length-append, length-drop, take-all, le→leb, true,
}
use mathlib.Core.List.{map}
use osh.Net.CString.Padded.{IsText, c_string-text, overwritten-text}
use osh.Net.Line.{Run, finished, faulted, running, ◌then_run◌}
use osh.Net.Stdio.{
  fgets, take_line, take_line-append, take_line-length, take_line-shorter, take_line-IsText,
}
use osh.Net.Tcp.Transfer.{joined}
use osh.Net.Udp.{buf_size, send_lines, received_into, receive_lines, udp_client, udp_server}

then_run-all : (run : Run (List (List ℕ))) → (run then_run λ more. finished more) ≡ run
then_run-all (finished r) = refl
then_run-all faulted = refl
then_run-all running = refl

then_run-cons :
    (line : List ℕ) (lines : List (List ℕ)) (run : Run (List (List ℕ)))
    → ((run then_run λ more. finished (lines ++ more)) then_run λ more. finished (line ∷ more))
      ≡ (run then_run λ more. finished (line ∷ lines ++ more))
then_run-cons line lines (finished r) = refl
then_run-cons line lines faulted = refl
then_run-cons line lines running = refl

-- the datagram of a line
abbrev pub sealed : List ℕ → List ℕ
sealed line = line ++ 0 ∷ []

-- A datagram that the array has room for.
pub received_into-short :
    (buf datagram : List ℕ)
    → length buf ≡ buf_size
    → length datagram ≤ buf_size
    → received_into buf datagram ≡ some (datagram ++ drop (length datagram) buf)
unfolding received_into
received_into-short buf datagram size short =
    rw (take-all buf_size datagram short)
      (rw (le→leb (length datagram) (length buf) (omega (arith, size))))

pub overwritten-length :
    (buf datagram : List ℕ)
    → length datagram ≤ length buf
    → length (datagram ++ drop (length datagram) buf) ≡ length buf
overwritten-length buf datagram le = omega (
  arith,
  length-append {0} datagram (drop (length datagram) buf),
  length-drop {0} (length datagram) buf,
)

-- A line whose datagram the server's array has room for.
abbrev pub IsSendable : List ℕ → Type 0
IsSendable line = IsText line × (length (sealed line) ≤ buf_size)

-- The server at the next datagrams, once some lines have been received.
pub receive_lines-after :
    (lines : List (List ℕ)) (rest : List (List ℕ)) (buf : List ℕ)
    → All IsSendable lines
    → length buf ≡ buf_size
    → (buf' : List ℕ) × (length buf' ≡ buf_size)
      × (receive_lines (map sealed lines ++ rest) buf
          ≡ (receive_lines rest buf' then_run λ more. finished (lines ++ more)))
unfolding receive_lines
receive_lines-after [] rest buf h size = (buf, size, sym (then_run-all (receive_lines rest buf)))
receive_lines-after (line ∷ lines) rest buf (h, hs) size =
    let room = overwritten-length buf (sealed line) (omega (arith, h.1, size)) in
    let (buf', size', e) =
      receive_lines-after lines rest (sealed line ++ drop (length (sealed line)) buf) hs
        (room ∙ size) in
    (
      buf',
      size',
      rw (received_into-short buf (sealed line) size h.1) (
          rw (overwritten-text buf line h.0)
            (rw e (then_run-cons line lines (receive_lines rest buf')))),
    )

-- Any datagrams of lines, lost, repeated or reordered as they may be, are printed one by one.
pub receive_lines-sealed :
    (lines : List (List ℕ)) (buf : List ℕ)
    → All IsSendable lines
    → length buf ≡ buf_size
    → receive_lines (map sealed lines) buf ≡ finished lines
unfolding receive_lines
receive_lines-sealed [] buf h size = refl
receive_lines-sealed (line ∷ lines) buf (h, hs) size =
    let room = overwritten-length buf (sealed line) (omega (arith, h.1, size)) in
    rw (received_into-short buf (sealed line) size h.1) (
      rw (overwritten-text buf line h.0) (
        rw (
          receive_lines-sealed lines (sealed line ++ drop (length (sealed line)) buf) hs
            (room ∙ size))))

-- The client cuts the input into lines of at most 1023 bytes and sends each with its NUL.
pub send_lines-sealed :
    (fuel : ℕ) (input : List ℕ)
    → IsText input
    → length input < fuel
    → (lines : List (List ℕ)) × (send_lines fuel input ≡ finished (map sealed lines))
      × (joined lines ≡ input)
      × All IsSendable lines
unfolding send_lines fgets
send_lines-sealed zero input h enough = elim enough [ ]
send_lines-sealed (suc fuel) [] h enough = ([], refl, refl, tt)
send_lines-sealed (suc fuel) (c ∷ input) h enough =
    let (line, rest) = take_line 1023 (c ∷ input) in
    let (tl, tr) = take_line-IsText 1023 (c ∷ input) h in
    let (lines, e, j, sendable) =
      send_lines-sealed fuel rest tr (omega (arith, take_line-shorter 1022 c input)) in
    (
      line ∷ lines,
      rw (c_string-text line [] tl) (rw e),
      ap (λ l. line ++ l) j ∙ take_line-append 1023 (c ∷ input),
      (
        (tl, omega (arith, take_line-length 1023 (c ∷ input), length-append {0} line (0 ∷ []))),
        sendable,
      ),
    )

-- A client and a server whose socket() and bind() succeed, the server with its array of 1024 bytes:
-- the client cuts any input without NUL into lines whose datagrams that array has room for; whatever
-- list of datagrams of such lines arrives, from any client, the server prints those lines, in the
-- order of arrival; and if the client's arrive in order it prints the client's input.
pub udp-transfer :
    (fuel : ℕ) (input buf : List ℕ) (arriving : List (List ℕ))
    → IsText input
    → length input < fuel
    → length buf ≡ buf_size
    → All IsSendable arriving
    → (lines : List (List ℕ)) × (udp_client fuel true true input
        ≡ finished (true, map sealed lines))
      × (joined lines ≡ input)
      × All IsSendable lines
      × (udp_server true true (map sealed arriving) buf ≡ finished arriving)
      × (udp_server true true (map sealed lines) buf ≡ finished lines)
unfolding udp_client udp_server
udp-transfer fuel input buf arriving h enough size t =
    let (lines, e, j, sendable) = send_lines-sealed fuel input h enough in
    (
      lines,
      rw e,
      j,
      sendable,
      receive_lines-sealed arriving buf t size,
      receive_lines-sealed lines buf sendable size,
    )
