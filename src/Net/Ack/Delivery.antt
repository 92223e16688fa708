-- ===== src/Net/Ack/Delivery.antt =====
-- How often each line is sent, printed and acknowledged.
use osh.Prelude.{
  ℕ, zero, suc, ◌+◌, ◌%◌, ◌≤◌, ◌<◌, ◌≡◌, ◌≢◌, refl, ap, ◌∙◌, List, [], ◌∷◌, ◌++◌, arith, drop,
  length, All, Bool, true, false, Bool-cases, inl, inr, replicate, word,
}
use mathlib.Core.List.{map}
use osh.Net.CString.Padded.{overwritten-text, IsText, c_string-text}
use osh.Net.Line.{finished}
use osh.Net.Stdio.{
  fgets, take_line, take_line-append, take_line-length, take_line-shorter, take_line-IsText,
}
use osh.Net.Tcp.Transfer.{joined}
use osh.Net.Ack.{
  ack_type, payload_size, nretries, DataFrame, AckFrame, resend, frame, send_frames, ack_client,
  acknowledge, ack_server,
}

-- Without an answer every turn sends the frame again.
resend-unanswered :
    (n : ℕ) (ready : ℕ → Bool) (msg : DataFrame)
    → ((r : ℕ) → r ≤ n → ready r ≡ false)
    → resend n ready msg ≡ (replicate n msg, false)
unfolding resend
resend-unanswered zero ready msg h = refl
resend-unanswered (suc n) ready msg h =
    rw (h (suc n) (omega arith), resend-unanswered n ready msg (λ r le. h r (omega arith)))

-- An answer in turn `r` of `n` ends the loop, after fewer than `n` more frames.
resend-answered :
    (n r : ℕ) (ready : ℕ → Bool) (msg : DataFrame)
    → 1 ≤ r
    → r ≤ n
    → ready r ≡ true
    → (c : ℕ) × (c < n) × (resend n ready msg ≡ (replicate c msg, true))
unfolding resend
resend-answered zero r ready msg pos le h = let bad : 1 ≤ 0 = omega arith in elim bad [ ]
resend-answered (suc n) r ready msg pos le h = elim (Bool-cases (ready (suc n))) [
  | inl t ↦ (0, omega arith, rw t)
  | inr t ↦
      let ne : r ≢ suc n = λ e. cc (ap ready e) in
      let (c, lt, e) = resend-answered n r ready msg pos (omega arith) h in
      (suc c, omega arith, rw (t, e))
]

-- A line and how often it is sent again.
abbrev pub Sent : Type 0
Sent = ℕ × List ℕ

abbrev pub lines_of : List Sent → List (List ℕ)
lines_of = map (λ s. s.1)

-- each line as often as it is sent
abbrev pub repeated : List Sent → List (List ℕ)
repeated [] = []
repeated ((c, line) ∷ sent) = replicate (suc c) line ++ repeated sent

module _ (htons htonl : ℕ → ℕ) where
  -- the frames of the lines, numbered from the one after `seqno`
  abbrev pub frames : ℕ → List Sent → List DataFrame
  frames seqno [] = []
  frames seqno ((c, line) ∷ sent) =
      let seqno' = (seqno + 1) % word in
      replicate (suc c) (frame htons htonl seqno' line) ++ frames seqno' sent

  -- and their acknowledgements
  abbrev pub acks : ℕ → List Sent → List AckFrame
  acks seqno [] = []
  acks seqno ((c, line) ∷ sent) =
      let seqno' = (seqno + 1) % word in
      let ack : AckFrame = record { mtype = htons ack_type; mseqn = htonl seqno' } in
      replicate (suc c) ack ++ acks seqno' sent

  send_frames-frames :
      (fuel seqno : ℕ) (ready : ℕ → ℕ → Bool) (turn : ℕ → ℕ) (input : List ℕ)
      → IsText input
      → length input < fuel
      → ((s : ℕ) → (1 ≤ turn s) × (turn s ≤ nretries) × (ready s (turn s) ≡ true))
      → (sent : List Sent) × (send_frames htons htonl fuel ready seqno input
          ≡ finished (frames seqno sent, true))
        × (joined (lines_of sent) ≡ input)
        × All (λ s. s.0 < nretries) sent
        × All (λ s. IsText s.1) sent
  unfolding send_frames fgets
  send_frames-frames zero seqno ready turn input h enough answered = elim enough [ ]
  send_frames-frames (suc fuel) seqno ready turn [] h enough answered = ([], refl, refl, tt, tt)
  send_frames-frames (suc fuel) seqno ready turn (c ∷ input) h enough answered =
      let (line, rest) = take_line 255 (c ∷ input) in
      let (tl, tr) = take_line-IsText 255 (c ∷ input) h in
      let seqno' : ℕ = (seqno + 1) % word in
      let (pos, le, up) = answered seqno' in
      let (n, few, again) =
        resend-answered nretries (turn seqno') (ready seqno') (frame htons htonl seqno' line) pos le
          up in
      let (sent, e, j, rare, texts) =
        send_frames-frames fuel seqno' ready turn rest tr
          (omega (arith, take_line-shorter 254 c input)) answered in
      (
        (n, line) ∷ sent,
        rw (c_string-text line [] tl) (rw again (rw e)),
        ap (λ l. line ++ l) j ∙ take_line-append 255 (c ∷ input),
        (few, rare),
        (tl, texts),
      )

  acknowledge-replicate :
      (n seqno : ℕ) (line : List ℕ) (msgs : List DataFrame) (texts : List (List ℕ))
      (replies : List AckFrame)
      → IsText line
      → ((p : List ℕ) → acknowledge htons htonl msgs p ≡ finished (texts, replies))
      → (p : List ℕ)
      → acknowledge htons htonl (replicate n (frame htons htonl seqno line) ++ msgs) p
        ≡ finished (
          replicate n line ++ texts,
          replicate n (record { mtype = htons ack_type; mseqn = htonl seqno }) ++ replies,
        )
  unfolding acknowledge
  acknowledge-replicate zero seqno line msgs texts replies h rest p = rest p
  acknowledge-replicate (suc n) seqno line msgs texts replies h rest p =
      let p' : List ℕ = (line ++ 0 ∷ []) ++ drop (length (line ++ 0 ∷ [])) p in
      rw (overwritten-text p line h)
        (rw (acknowledge-replicate n seqno line msgs texts replies h rest p'))

  acknowledge-frames :
      (seqno : ℕ) (sent : List Sent)
      → All (λ s. IsText s.1) sent
      → (p : List ℕ)
      → acknowledge htons htonl (frames seqno sent) p ≡ finished (repeated sent, acks seqno sent)
  unfolding acknowledge
  acknowledge-frames seqno [] h p = refl
  acknowledge-frames seqno ((c, line) ∷ sent) h p =
      let seqno' : ℕ = (seqno + 1) % word in
      acknowledge-replicate (suc c) seqno' line (frames seqno' sent) (repeated sent)
        (acks seqno' sent) h.0 (acknowledge-frames seqno' sent h.1) p

  -- A client whose frames are all answered within the ten turns, and a server that gets every frame
  -- it sends, in order: the client cuts any input without NUL into lines, sends each at most ten
  -- times, under its number modulo 2 ^ 64, and returns with success; the server prints each line as
  -- often as it was sent, and acknowledges each frame with its own number.
  pub ack-transfer :
      (fuel : ℕ) (ready : ℕ → ℕ → Bool) (turn : ℕ → ℕ) (input payload : List ℕ)
      → IsText input
      → length input < fuel
      → ((s : ℕ) → (1 ≤ turn s) × (turn s ≤ nretries) × (ready s (turn s) ≡ true))
      → (sent : List Sent) × (ack_client htons htonl fuel true true ready input
          ≡ finished (frames 0 sent, true))
        × (joined (lines_of sent) ≡ input)
        × All (λ s. suc s.0 ≤ nretries) sent
        × (ack_server htons htonl true true (frames 0 sent) payload
            ≡ finished (repeated sent, acks 0 sent))
  unfolding ack_client ack_server
  ack-transfer fuel ready turn input payload h enough answered =
      let (sent, e, j, rare, texts) =
        send_frames-frames fuel 0 ready turn input h enough answered in
      (sent, e, j, rare, acknowledge-frames 0 sent texts payload)

  -- A client whose first frame is never answered sends it eleven times in all and gives up, with the
  -- rest of its input unread.
  pub ack_client-unanswered :
      (fuel c : ℕ) (ready : ℕ → ℕ → Bool) (input : List ℕ)
      → IsText (c ∷ input)
      → ((r : ℕ) → r ≤ nretries → ready 1 r ≡ false)
      → (line rest : List ℕ) × (ack_client htons htonl (suc fuel) true true ready (c ∷ input)
          ≡ finished (replicate (suc nretries) (frame htons htonl 1 line), false))
        × (line ++ rest ≡ c ∷ input)
        × (length line < payload_size)
  unfolding ack_client fgets
  ack_client-unanswered fuel c ready input h silent =
      let (line, rest) = take_line 255 (c ∷ input) in
      let (tl, tr) = take_line-IsText 255 (c ∷ input) h in
      (
        line,
        rest,
        rw (c_string-text line [] tl)
            (rw (resend-unanswered nretries (ready 1) (frame htons htonl 1 line) silent)),
        take_line-append 255 (c ∷ input),
        omega (arith, take_line-length 255 (c ∷ input)),
      )
