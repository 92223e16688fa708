-- ===== src/Net/Tcp/Transfer.antt =====
-- The bytes that go in at the client come out at the server.
use osh.Prelude.{
  ℕ, zero, suc, ◌+◌, ◌<◌, ◌≡◌, refl, sym, ap, subst, ◌∙◌, List, [], ◌∷◌, ◌++◌, Bool, true, some,
  arith, drop, length, All, append-nil, length-append, length-drop, drop-length,
}
use osh.Net.CString.Padded.{IsText, c_string-text, write?-append, write?-past}
use osh.Net.Line.{finished, faulted}
use osh.Net.Stdio.{
  fgets, take_line, take_line-append, take_line-length, take_line-shorter, take_line-IsText,
}
use osh.Net.Tcp.{
  buf_size, Exit, send_lines, receive_chunks, ClientOs, ServerOs, tcp_client, tcp_server,
}

-- The pieces joined.
abbrev pub joined : List (List ℕ) → List ℕ
joined [] = []
joined (p ∷ ps) = p ++ joined ps

-- Input without NUL is sent whole, in pieces of at most 1023 bytes.
pub send_lines-joined :
    (fuel k : ℕ) (whole : ℕ → Bool) (input : List ℕ)
    → IsText input
    → ((j : ℕ) → whole j ≡ true)
    → length input < fuel
    → (pieces : List (List ℕ)) × (send_lines fuel whole k input ≡ finished (pieces, true))
      × (joined pieces ≡ input)
      × All (λ p. length p < buf_size) pieces
unfolding send_lines fgets
send_lines-joined zero k whole input h w enough = elim enough [ ]
send_lines-joined (suc fuel) k whole [] h w enough = ([], refl, refl, tt)
send_lines-joined (suc fuel) k whole (c ∷ input) h w enough =
    let (line, rest) = take_line 1023 (c ∷ input) in
    let (tl, tr) = take_line-IsText 1023 (c ∷ input) h in
    let (pieces, e, j, short) =
      send_lines-joined fuel (k + 1) whole rest tr w
        (omega (arith, take_line-shorter 1022 c input)) in
    (
      line ∷ pieces,
      rw (c_string-text line [] tl) (rw (w k) (rw e)),
      ap (λ l. line ++ l) j ∙ take_line-append 1023 (c ∷ input),
      (omega (arith, take_line-length 1023 (c ∷ input)), short),
    )

length-drop_room :
    (n : ℕ) (buf : List ℕ) → n < length buf → (x : ℕ) × (rest : List ℕ) × (drop n buf ≡ x ∷ rest)
length-drop_room zero [] h = elim h [ ]
length-drop_room zero (x ∷ buf) h = (x, buf, refl)
length-drop_room (suc n) [] h = elim h [ ]
length-drop_room (suc n) (x ∷ buf) h = length-drop_room n buf (omega arith)

-- Chunks that leave a byte of the buffer free are printed as they are, whatever the buffer held.
pub receive_chunks-text :
    (chunks : List (List ℕ)) (buf : List ℕ)
    → All IsText chunks
    → All (λ c. length c < length buf) chunks
    → receive_chunks chunks buf ≡ finished chunks
unfolding receive_chunks
receive_chunks-text [] buf h short = refl
receive_chunks-text (chunk ∷ chunks) buf (hc, h) (lt, short) =
    let (x, rest, e) = length-drop_room (length chunk) buf lt in
    let len : length (chunk ++ 0 ∷ rest) ≡ length buf =
      omega
        (arith, length-append {0} chunk (0 ∷ rest), ap length e, length-drop (length chunk) buf) in
    rw e (
      rw (write?-append chunk rest x 0) (
        rw (c_string-text chunk rest hc) (
          rw (
            receive_chunks-text chunks (chunk ++ 0 ∷ rest) h
              (subst (λ (n : ℕ). All (λ c. length c < n) chunks) (sym len) short)))))

-- A chunk that fills the buffer makes the server write its NUL past the end.
pub receive_chunks-overflow :
    (before : List (List ℕ)) (chunk : List ℕ) (after : List (List ℕ)) (buf : List ℕ)
    → All IsText before
    → All (λ c. length c < length buf) before
    → length chunk ≡ length buf
    → receive_chunks (before ++ chunk ∷ after) buf ≡ faulted
unfolding receive_chunks
receive_chunks-overflow [] chunk after buf h short full =
    rw (drop-length (length chunk) buf full) (rw append-nil (rw (write?-past chunk 0)))
receive_chunks-overflow (first ∷ before) chunk after buf (hf, h) (lt, short) full =
    let (x, rest, e) = length-drop_room (length first) buf lt in
    let len : length (first ++ 0 ∷ rest) ≡ length buf =
      omega
        (arith, length-append {0} first (0 ∷ rest), ap length e, length-drop (length first) buf) in
    rw e (
      rw (write?-append first rest x 0) (
        rw (c_string-text first rest hf) (
          rw (
            receive_chunks-overflow before chunk after (first ++ 0 ∷ rest) h
              (subst (λ (n : ℕ). All (λ c. length c < n) before) (sym len) short)
              (full ∙ sym len)))))

IsText-append : (s t : List ℕ) → IsText (s ++ t) → IsText s × IsText t
IsText-append [] t h = (tt, h)
IsText-append (c ∷ s) t h = let (hs, ht) = IsText-append s t h.1 in ((h.0, hs), ht)

IsText-joined : (pieces : List (List ℕ)) → IsText (joined pieces) → All IsText pieces
IsText-joined [] h = tt
IsText-joined (p ∷ ps) h = let (hp, hs) = IsText-append p (joined ps) h in (hp, IsText-joined ps hs)

-- A client whose calls succeed and a server whose calls succeed copy standard input to standard
-- output, for any input without NUL: whatever way the connection divides the bytes that the client
-- sends into chunks of less than the server's buffer, the server prints the client's input.
pub tcp-transfer :
    (fuel sfd lfd cfd : ℕ) (client : ClientOs) (server : ServerOs) (buf : List ℕ)
    → client.socket ≡ some sfd
    → client.connect ≡ true
    → ((j : ℕ) → client.whole j ≡ true)
    → IsText client.input
    → length client.input < fuel
    → server.socket ≡ some lfd
    → server.setsockopt ≡ true
    → server.bind ≡ true
    → server.listen ≡ true
    → server.accept ≡ some cfd
    → ((e : Exit) → tcp_client fuel client ≡ finished e → joined server.chunks ≡ joined e.output)
    → All (λ c. length c < length buf) server.chunks
    → (e d : Exit) × (tcp_client fuel client ≡ finished e)
      × (tcp_server buf server ≡ finished d)
      × (e.success ≡ true)
      × (d.success ≡ true)
      × (joined d.output ≡ client.input)
unfolding tcp_client tcp_server
tcp-transfer fuel sfd lfd cfd client server buf cs cc' whole text enough ss so sb sl sa delivers
      short =
    let (pieces, sent, whole_input, _) =
      send_lines-joined fuel 0 client.whole client.input text whole enough in
    let e : Exit = record {
      success = true;
      opened = sfd ∷ [];
      closed = sfd ∷ [];
      output = pieces;
    } in
    let ran : tcp_client fuel client ≡ finished e = rw cs (rw cc' (rw sent)) in
    let bytes : joined server.chunks ≡ client.input = delivers e ran ∙ whole_input in
    let chunks : All IsText server.chunks = IsText-joined server.chunks (rw bytes text) in
    (
      e,
      record {
        success = true;
        opened = lfd ∷ cfd ∷ [];
        closed = cfd ∷ lfd ∷ [];
        output = server.chunks;
      },
      ran,
      rw ss
          (rw so (rw sb (rw sl (rw sa (rw (receive_chunks-text server.chunks buf chunks short)))))),
      refl,
      refl,
      bytes,
    )
