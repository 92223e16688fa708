-- ===== src/Net/Ack/Network/Client.antt =====
-- The client on a network is the client of UDPACKclient.c on the answers that select() gives it.
use osh.Prelude.{
  ℕ, suc, ◌+◌, ◌-◌, ◌%◌, ◌≤◌, ◌<◌, ◌≡◌, refl, sym, ap, ◌∙◌, subst, inl, inr, List, [], ◌∷◌, ◌++◌,
  Bool, true, false, some, length, word, arith, append-nil,
}
use osh.Net.CString.{c_string}
use osh.Net.Stdio.{fgets}
use osh.Net.Line.{finished}
use osh.Net.Ack.{payload_size, nretries, DataFrame, frame, send_frames, ack_client}
use osh.Net.Ack.Network.{
  Phase, fetching, selecting, receiving, returned, Link, opening, Move, fetches, ends, times_out,
  answers, gives_up, receives, serves, arrives, loses_frame, loses_ack, Moves, stay, further,
}
use osh.Net.Ack.Network.Progress.{fgets-shorter}
use osh.Net.Ack.Network.Onwards.{
  following, following-append, following-nil, turns_left, Behind, Ahead, mark, mark-Behind,
  mark-Ahead, mark_self, onwards, onwards-fetches, onwards-ends, onwards-times_out, onwards-answers,
  onwards-gives_up, onwards-receives,
}

module _ (htons htonl : ℕ → ℕ) where
  -- the answers that select() gives in a run, by the number of the frame and the turns left
  abbrev answered_by : {p q : Link} → Move htons htonl p q → (ℕ → ℕ → Bool) → ℕ → ℕ → Bool
  answered_by (answers p remaining msg ack inbox' at e) ready = mark p.seqno (suc remaining) ready
  answered_by _ ready = ready

  abbrev pub answered : {p q : Link} → Moves htons htonl p q → ℕ → ℕ → Bool
  answered stay = λ s r. false
  answered (further q r run move) = answered_by move (answered run)

  -- the frames that the client sends in a run
  abbrev pub sent_by : {p q : Link} → Move htons htonl p q → List DataFrame
  sent_by (fetches p line rest text at e t) = frame htons htonl ((p.seqno + 1) % word) text ∷ []
  sent_by (times_out p remaining msg at e) = msg ∷ []
  sent_by _ = []

  abbrev pub sent : {p q : Link} → Moves htons htonl p q → List DataFrame
  sent stay = []
  sent (further q r run move) = sent run ++ sent_by move

  module _ (fuel : ℕ) (input : List ℕ) (bounded : fuel ≤ word) where
    -- Where a run is, with the answers so far and the frames that it has sent: on those answers, and
    -- whatever the later ones are, the program has sent the same and is at the same point.
    record IsAt (ready₀ : ℕ → ℕ → Bool) (fs : List DataFrame) (seqno : ℕ) (unread : List ℕ)
        (phase : Phase) : Type 0 where
      pub room : seqno + length unread < fuel
      pub ahead : (s r : ℕ) → Ahead seqno (turns_left phase) s r → ready₀ s r ≡ false
      pub same :
          (ready : ℕ → ℕ → Bool)
          → ((s r : ℕ) → Behind seqno (turns_left phase) s r → ready s r ≡ ready₀ s r)
          → send_frames htons htonl fuel ready 0 input
            ≡ following fs (onwards htons htonl (fuel - seqno) ready seqno unread phase)

    still :
        {ready₀ : ℕ → ℕ → Bool} {fs : List DataFrame} {seqno : ℕ} {unread : List ℕ} {phase : Phase}
        → IsAt ready₀ fs seqno unread phase
        → IsAt ready₀ (fs ++ []) seqno unread phase
    still {ready₀} {fs} {seqno} {unread} {phase} h =
        subst (λ l. IsAt ready₀ l seqno unread phase) (sym (append-nil fs)) h

    positive :
        (seqno : ℕ) (unread : List ℕ)
        → seqno + length unread < fuel
        → fuel - seqno ≡ suc (fuel - seqno - 1)
    positive seqno unread room = omega arith

    -- A step of the client on one line: at most one answer more, and some frames.
    turn_on :
        (ready₀ ready₁ : ℕ → ℕ → Bool) (fs gs : List DataFrame) (seqno : ℕ) (unread : List ℕ)
        (phase phase' : Phase)
        → turns_left phase' ≤ turns_left phase
        → ((s r : ℕ) → Behind seqno (turns_left phase) s r → ready₁ s r ≡ ready₀ s r)
        → ((s r : ℕ) → Ahead seqno (turns_left phase') s r → ready₁ s r ≡ ready₀ s r)
        → ((ready : ℕ → ℕ → Bool)
            → ((s r : ℕ) → Behind seqno (turns_left phase') s r → ready s r ≡ ready₁ s r)
            → onwards htons htonl (fuel - seqno) ready seqno unread phase
              ≡ following gs (onwards htons htonl (fuel - seqno) ready seqno unread phase'))
        → IsAt ready₀ fs seqno unread phase
        → IsAt ready₁ (fs ++ gs) seqno unread phase'
    turn_on ready₀ ready₁ fs gs seqno unread phase phase' le past future step h = record {
      room = h.room;
      ahead = λ s r a.
          future s r a ∙ h.ahead s r (elim a [ inl lt ↦ inl lt | inr x ↦ inr (x.0, omega arith) ]);
      same = λ ready agree.
          h.same ready (λ s r b.
            agree s r (elim b [ inl lt ↦ inl lt | inr x ↦ inr (x.0, omega arith) ]) ∙ past s r b)
          ∙ ap (following fs) (step ready agree)
          ∙ following-append fs gs (onwards htons htonl (fuel - seqno) ready seqno unread phase');
    }

    -- the same for a step without an answer
    silent_on :
        (ready₀ : ℕ → ℕ → Bool) (fs gs : List DataFrame) (seqno : ℕ) (unread : List ℕ)
        (phase phase' : Phase)
        → turns_left phase' ≤ turns_left phase
        → ((ready : ℕ → ℕ → Bool)
            → ((s r : ℕ) → Behind seqno (turns_left phase') s r → ready s r ≡ ready₀ s r)
            → onwards htons htonl (fuel - seqno) ready seqno unread phase
              ≡ following gs (onwards htons htonl (fuel - seqno) ready seqno unread phase'))
        → IsAt ready₀ fs seqno unread phase
        → IsAt ready₀ (fs ++ gs) seqno unread phase'
    silent_on ready₀ fs gs seqno unread phase phase' le step h =
        turn_on ready₀ ready₀ fs gs seqno unread phase phase' le (λ s r b. refl) (λ s r a. refl)
          step h

    fetches_on :
        (ready₀ : ℕ → ℕ → Bool) (fs : List DataFrame) (seqno : ℕ) (unread line rest text : List ℕ)
        → fgets payload_size unread ≡ some (line, rest)
        → c_string (line ++ 0 ∷ []) ≡ some text
        → IsAt ready₀ fs seqno unread fetching
        → IsAt ready₀
            (fs ++ frame htons htonl ((seqno + 1) % word) text ∷ [])
            ((seqno + 1) % word)
            rest
            (selecting nretries (frame htons htonl ((seqno + 1) % word) text))
    fetches_on ready₀ fs seqno unread line rest text e t h =
        let less : length rest < length unread = fgets-shorter unread line rest e in
        let seqno' : ℕ = (seqno + 1) % word in
        let msg = frame htons htonl seqno' text in
        let next : seqno' ≡ seqno + 1 = omega (arith, h.room) in
        let more : fuel - seqno ≡ suc (fuel - seqno') = omega (arith, h.room) in
        record {
          room = omega (arith, h.room);
          ahead = λ s r a.
              h.ahead s r
                (elim a [ inl lt ↦ inl (omega arith) | inr x ↦ inl (omega (arith, x.0)) ]);
          same = λ ready agree.
              h.same ready (λ s r b.
                agree s r
                  (elim b [ inl lt ↦ inl (omega arith) | inr x ↦ inl (omega (arith, x.0)) ]))
              ∙ ap (λ f. following fs (onwards htons htonl f ready seqno unread fetching)) more
              ∙ ap (following fs) (
                  onwards-fetches htons htonl (fuel - seqno') ready seqno unread line rest text e t)
              ∙ following-append fs (msg ∷ [])
                  (onwards htons htonl (fuel - seqno') ready seqno' rest (selecting nretries msg));
        }

    Move-IsAt :
        (ready₀ : ℕ → ℕ → Bool) (fs : List DataFrame) {p q : Link} (move : Move htons htonl p q)
        → IsAt ready₀ fs p.seqno p.input p.phase
        → IsAt (answered_by move ready₀) (fs ++ sent_by move) q.seqno q.input q.phase
    unfolding onwards
    Move-IsAt ready₀ fs (fetches p line rest text at e t) h =
        fetches_on ready₀ fs p.seqno p.input line rest text e t
          (subst (IsAt ready₀ fs p.seqno p.input) at h)
    Move-IsAt ready₀ fs (ends p at e) h =
        silent_on ready₀ fs [] p.seqno p.input fetching (returned true) (omega arith)
          (λ ready agree.
            ap (λ f. onwards htons htonl f ready p.seqno p.input fetching)
              (positive p.seqno p.input h.room)
            ∙ onwards-ends htons htonl (fuel - p.seqno - 1) ready p.seqno p.input e)
          (subst (IsAt ready₀ fs p.seqno p.input) at h)
    Move-IsAt ready₀ fs (times_out p remaining msg at e) h =
        let here = subst (IsAt ready₀ fs p.seqno p.input) at h in
        silent_on ready₀ fs (msg ∷ []) p.seqno p.input (selecting (suc remaining) msg)
          (selecting remaining msg) (omega arith)
          (λ ready agree.
            onwards-times_out htons htonl (fuel - p.seqno) ready p.seqno p.input remaining msg (
              agree p.seqno (suc remaining) (inr (refl, omega arith))
              ∙ here.ahead p.seqno (suc remaining) (inr (refl, omega arith))))
          here
    Move-IsAt ready₀ fs (answers p remaining msg ack inbox' at e) h =
        turn_on ready₀ (mark p.seqno (suc remaining) ready₀) fs [] p.seqno p.input
          (selecting (suc remaining) msg) receiving (omega arith)
          (λ s r b. mark-Behind p.seqno (suc remaining) s r ready₀ b)
          (λ s r a. mark-Ahead p.seqno remaining s r ready₀ a)
          (λ ready agree.
            onwards-answers htons htonl (fuel - p.seqno) ready p.seqno p.input remaining msg (
              agree p.seqno (suc remaining) (inr (refl, omega arith))
              ∙ mark_self p.seqno (suc remaining) ready₀)
            ∙ sym (
                following-nil
                  (onwards htons htonl (fuel - p.seqno) ready p.seqno p.input receiving)))
          (subst (IsAt ready₀ fs p.seqno p.input) at h)
    Move-IsAt ready₀ fs (gives_up p msg at) h =
        silent_on ready₀ fs [] p.seqno p.input (selecting 0 msg) (returned false) (omega arith)
          (λ ready agree. onwards-gives_up htons htonl (fuel - p.seqno) ready p.seqno p.input msg)
          (subst (IsAt ready₀ fs p.seqno p.input) at h)
    Move-IsAt ready₀ fs (receives p ack inbox' at e) h =
        silent_on ready₀ fs [] p.seqno p.input receiving fetching (omega arith)
          (λ ready agree. onwards-receives htons htonl (fuel - p.seqno) ready p.seqno p.input)
          (subst (IsAt ready₀ fs p.seqno p.input) at h)
    Move-IsAt ready₀ fs (serves p before after msg text e t) h = still h
    Move-IsAt ready₀ fs (arrives p before after ack e) h = still h
    Move-IsAt ready₀ fs (loses_frame p before after msg e) h = still h
    Move-IsAt ready₀ fs (loses_ack p before after ack e) h = still h

    from_start : fuel ≡ fuel - 0
    from_start = omega arith

    opening-IsAt : length input < fuel → IsAt (λ s r. false) [] 0 input fetching
    unfolding onwards
    opening-IsAt enough = record {
      room = omega arith;
      ahead = λ s r a. refl;
      same = λ ready agree.
          sym (following-nil (send_frames htons htonl fuel ready 0 input))
          ∙ ap (λ f. following [] (send_frames htons htonl f ready 0 input)) from_start;
    }

    Moves-IsAt :
        (payload : List ℕ) {q : Link} (run : Moves htons htonl (opening input payload) q)
        → length input < fuel
        → IsAt (answered run) (sent run) q.seqno q.input q.phase
    Moves-IsAt payload stay enough = opening-IsAt enough
    Moves-IsAt payload (further q r run move) enough =
        Move-IsAt (answered run) (sent run) move (Moves-IsAt payload run enough)

  -- In every run, the client that has returned has sent what its program sends and returned what its
  -- program returns, on the answers that select() has given in the run; for an input shorter than the
  -- numbers of its frames have room.
  pub Moves-ack_client :
      (fuel : ℕ) (input payload : List ℕ) (q : Link) (status : Bool)
      (run : Moves htons htonl (opening input payload) q)
      → length input < fuel
      → fuel ≤ word
      → q.phase ≡ returned status
      → ack_client htons htonl fuel true true (answered run) input ≡ finished (sent run, status)
  unfolding ack_client onwards
  Moves-ack_client fuel input payload q status run enough bounded at =
      let here =
        subst (IsAt fuel input bounded (answered run) (sent run) q.seqno q.input) at
          (Moves-IsAt fuel input bounded payload run enough) in
      here.same (answered run) (λ s r b. refl)
      ∙ ap (λ l. finished (l, status)) (append-nil (sent run))
