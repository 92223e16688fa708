-- ===== src/Net/Ack/Network/Chosen.antt =====
-- Every run of UDPACKclient.c, whatever select() answers it, is the client's part of a run on a
-- network; so the two come to the same.
use osh.Prelude.{
  ℕ, zero, suc, ◌+◌, ◌%◌, ◌≤◌, ◌<◌, ◌≡◌, ◌↔◌, refl, ap, ◌∙◌, subst, List, [], ◌∷◌, ◌++◌, Bool, true,
  false, length, word, append_assoc, append-nil, Bool-cases, inl, inr,
}
use osh.Net.CString.Padded.{overwritten-text, IsText, c_string-text}
use osh.Net.Stdio.{fgets, take_line, take_line-IsText}
use osh.Net.Line.{Run, finished, finished_inj, then_run-finished}
use osh.Net.Ack.{nretries, DataFrame, resend, frame, send_frames, ack_client}
use osh.Net.Ack.Network.{
  Phase, fetching, selecting, returned, Link, opening, filled, ack_of, fetches, ends, times_out,
  answers, gives_up, receives, serves, arrives, Moves, stay, further,
}
use osh.Net.Ack.Network.Onwards.{turn_end}
use osh.Net.Ack.Network.Client.{answered, sent, Moves-ack_client}

-- Nothing on its way to the client.
abbrev clear : List ℕ → ℕ → Phase → List DataFrame → List ℕ → List (List ℕ) → Link
clear input seqno phase frames payload printed = record {
  input = input;
  seqno = seqno;
  phase = phase;
  inbox = [];
  frames = frames;
  payload = payload;
  printed = printed;
  acks = [];
}

module _ (htons htonl : ℕ → ℕ) (start : Link) where
  -- A run that has sent `fs` in all and is at the client's next line, or behind its return.
  abbrev Gone : List ℕ → ℕ → List DataFrame → Bool → Type 0
  Gone input seqno fs true =
      (frames : List DataFrame) × (payload : List ℕ) × (printed : List (List ℕ)) × (run : Moves
        htons htonl start (clear input seqno fetching frames payload printed))
      × (sent htons htonl run ≡ fs)
  Gone input seqno fs false =
      (q : Link) × (run : Moves htons htonl start q) × (q.phase ≡ returned false)
      × (sent htons htonl run ≡ fs)

  -- One turn of the loop over `remaining` that finds an answer: the frame is printed and
  -- acknowledged in time.
  answer :
      (input : List ℕ) (seqno n : ℕ) (text : List ℕ) (before frames : List DataFrame)
      (payload : List ℕ) (printed : List (List ℕ))
      → IsText text
      → (run : Moves htons htonl start (
          clear input seqno
            (selecting (suc n) (frame htons htonl seqno text))
            (frame htons htonl seqno text ∷ frames)
            payload
            printed))
      → sent htons htonl run ≡ before
      → Gone input seqno (before ++ []) true
  answer input seqno n text before frames payload printed h run e =
      let msg = frame htons htonl seqno text in
      let ack = ack_of htons htonl msg in
      (
        frames,
        filled msg payload,
        printed ++ text ∷ [],
        further _ _
            (further _ _
              (further _ _
                (further _ _ run
                  (serves _ [] frames msg text refl (overwritten-text payload text h)))
                (arrives _ [] [] ack refl))
              (answers _ n msg ack [] refl refl))
            (receives _ ack [] refl refl),
        simp (append-nil, e),
      )

  -- The turns that are left of a line, when the frame has just been sent.
  turns :
      (input : List ℕ) (seqno n : ℕ) (ready : ℕ → Bool) (text : List ℕ)
      (before frames : List DataFrame) (payload : List ℕ) (printed : List (List ℕ))
      → IsText text
      → (run : Moves htons htonl start (
          clear input seqno
            (selecting n (frame htons htonl seqno text))
            (frame htons htonl seqno text ∷ frames)
            payload
            printed))
      → sent htons htonl run ≡ before
      → (let again = resend n ready (frame htons htonl seqno text) in
          Gone input seqno (before ++ again.0) again.1)
  unfolding resend
  turns input seqno zero ready text before frames payload printed h run e =
      (_, further _ _ run (gives_up _ _ refl), refl, simp (append-nil, e))
  turns input seqno (suc n) ready text before frames payload printed h run e =
      let msg = frame htons htonl seqno text in
      elim (Bool-cases (ready (suc n))) [
        | inl up ↦ rw up (answer input seqno n text before frames payload printed h run e)
        | inr down ↦
            let again = resend n ready msg in
            rw down (
              subst (λ l. Gone input seqno l again.1) (append_assoc before (msg ∷ []) again.0)
                (turns input seqno n ready text (before ++ msg ∷ []) (msg ∷ frames) payload printed
                  h (further _ _ run (times_out _ n msg refl refl)) (rw e)))
      ]

  -- A run in which the client returns.
  abbrev Returned : List DataFrame → Bool → Type 0
  Returned fs status =
      (q : Link) × (run : Moves htons htonl start q) × (q.phase ≡ returned status)
      × (sent htons htonl run ≡ fs)

  -- What is left once a line has been answered, or has not.
  line_end :
      (input : List ℕ) (seqno : ℕ) (msg : DataFrame) (before gs : List DataFrame) (up : Bool)
      (more : Run (List DataFrame × Bool)) (fs : List DataFrame) (status : Bool)
      → Gone input seqno ((before ++ msg ∷ []) ++ gs) up
      → ((frames : List DataFrame) (payload : List ℕ) (printed : List (List ℕ))
            (run : Moves htons htonl start (clear input seqno fetching frames payload printed))
            (r : List DataFrame × Bool)
          → more ≡ finished r
          → Returned (sent htons htonl run ++ r.0) r.1)
      → turn_end (msg ∷ gs, up) more ≡ finished (fs, status)
      → Returned (before ++ fs) status
  line_end input seqno msg before gs true more fs status (frames, payload, printed, run, s) next e =
      let (r, e₁, e₂) = then_run-finished more _ e in
      let same : (before ++ msg ∷ []) ++ (gs ++ r.0) ≡ before ++ (msg ∷ (gs ++ r.0)) =
        append_assoc before (msg ∷ []) (gs ++ r.0) in
      subst (λ (t : List DataFrame × Bool). Returned (before ++ t.0) t.1) (finished_inj e₂)
        (subst (λ l. Returned l r.1)
          (ap (λ l. l ++ r.0) s ∙ append_assoc (before ++ msg ∷ []) gs r.0 ∙ same)
          (next frames payload printed run r e₁))
  line_end input seqno msg before gs false more fs status (q, run, at, s) next e =
      subst (λ (t : List DataFrame × Bool). Returned (before ++ t.0) t.1) (finished_inj e)
        (q, run, at, s ∙ append_assoc before (msg ∷ []) gs)

  -- The client's loop from a line on.
  lines :
      (fuel : ℕ) (ready : ℕ → ℕ → Bool) (input : List ℕ) (seqno : ℕ) (frames : List DataFrame)
      (payload : List ℕ) (printed : List (List ℕ)) (fs : List DataFrame) (status : Bool)
      → IsText input
      → (run : Moves htons htonl start (clear input seqno fetching frames payload printed))
      → send_frames htons htonl fuel ready seqno input ≡ finished (fs, status)
      → Returned (sent htons htonl run ++ fs) status
  unfolding send_frames fgets
  lines zero ready input seqno frames payload printed fs status h run e = cc
  lines (suc fuel) ready [] seqno frames payload printed fs status h run e =
      subst (λ (t : List DataFrame × Bool). Returned (sent htons htonl run ++ t.0) t.1)
        (finished_inj e) (_, further _ _ run (ends _ refl refl), refl, refl)
  lines (suc fuel) ready (c ∷ input) seqno frames payload printed fs status h run e =
      let line = (take_line 255 (c ∷ input)).0 in
      let rest = (take_line 255 (c ∷ input)).1 in
      let texts = take_line-IsText 255 (c ∷ input) h in
      let text = c_string-text line [] texts.0 in
      let seqno' : ℕ = (seqno + 1) % word in
      let msg = frame htons htonl seqno' line in
      let again = resend nretries (ready seqno') msg in
      line_end rest seqno' msg (sent htons htonl run) again.0 again.1
        (send_frames htons htonl fuel ready seqno' rest) fs status
        (turns rest seqno' nretries (ready seqno') line (sent htons htonl run ++ msg ∷ []) frames
          payload printed texts.0 (further _ _ run (fetches _ line rest line refl refl text)) refl)
        (λ frames' payload' printed' run' r e'.
          lines fuel ready rest seqno' frames' payload' printed' r.0 r.1 texts.1 run' e')
        (rw text at e)

module _ (htons htonl : ℕ → ℕ) where
  -- For any input without NULs that is shorter than the numbers of its frames have room: what the
  -- client of UDPACKclient.c can send and return, over all answers of select(), is what it can send
  -- and return in the runs with the server on a network that loses, delays and reorders.
  pub ack_client-Moves :
      (fuel : ℕ) (input payload : List ℕ) (fs : List DataFrame) (status : Bool)
      → IsText input
      → length input < fuel
      → fuel ≤ word
      → ((ready : ℕ → ℕ → Bool) × (ack_client htons htonl fuel true true ready input
            ≡ finished (fs, status)))
        ↔ ((q : Link) × (run : Moves htons htonl (opening input payload) q) × (q.phase
              ≡ returned status)
            × (sent htons htonl run ≡ fs))
  unfolding ack_client
  ack_client-Moves fuel input payload fs status h enough bounded = (
    λ (ready, e).
        lines htons htonl (opening input payload) fuel ready input 0 [] payload [] fs status h stay
          e,
    λ (q, run, at, s). (
      answered htons htonl run,
      Moves-ack_client htons htonl fuel input payload q status run enough bounded at
          ∙ ap (λ l. finished (l, status)) s,
    ),
  )
