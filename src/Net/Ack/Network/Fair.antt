-- ===== src/Net/Ack/Network/Fair.antt =====
-- What holds of the client and the server on a network at every moment.
use osh.Prelude.{
  ℕ, ◌+◌, ◌%◌, ◌≤◌, ◌≡◌, refl, sym, ap, ◌∙◌, subst, List, [], ◌∷◌, ◌++◌, true, false, none, some,
  some_inj, length, word, All, All-append, All-middle, All-weaken, length-middle, arith,
  append_assoc, length-append, append-nil,
}
use mathlib.Core.List.{Mem, mem-append_left, mem-append_right, mem-cons_self}
use osh.Net.CString.{c_string}
use osh.Net.CString.Padded.{overwritten-text, IsText, c_string-text}
use osh.Net.Stdio.{fgets, take_line-append, take_line-IsText}
use osh.Net.Tcp.Transfer.{joined}
use osh.Net.Ack.{payload_size, nretries, DataFrame, AckFrame, frame}
use osh.Net.Ack.Network.{
  Phase, fetching, selecting, receiving, returned, Link, opening, Move, fetches, ends, times_out,
  answers, gives_up, receives, serves, arrives, loses_frame, loses_ack, Moves, stay, further,
  fetched_by, fetched,
}

-- The payload of a frame is one of `lines`, with its NUL.
abbrev pub IsOf : List (List ℕ) → DataFrame → Type 0
IsOf lines msg = (line : List ℕ) × Mem line lines × IsText line × (msg.payload ≡ line ++ 0 ∷ [])

-- What the client knows: of the frame that it sends, or of the rest of its input.
abbrev pub PhaseOf : List (List ℕ) → List ℕ → Phase → Type 0
PhaseOf lines rest (selecting remaining msg) = IsOf lines msg
PhaseOf lines rest (returned true) = rest ≡ []
PhaseOf lines rest _ = Unit {0}

-- the line that is not known to have arrived
abbrev pub outstanding : Phase → ℕ
outstanding fetching = 0
outstanding (selecting remaining msg) = 1
outstanding receiving = 1
outstanding (returned true) = 0
outstanding (returned false) = 1

joined-snoc : (ls : List (List ℕ)) (l : List ℕ) → joined (ls ++ l ∷ []) ≡ joined ls ++ l
joined-snoc [] l = append-nil l
joined-snoc (x ∷ ls) l = ap (λ t. x ++ t) (joined-snoc ls l) ∙ sym (append_assoc x (joined ls) l)

IsOf-snoc :
    (lines : List (List ℕ)) (line : List ℕ) (msg : DataFrame)
    → IsOf lines msg
    → IsOf (lines ++ line ∷ []) msg
IsOf-snoc lines line msg (l, at, text, e) = (l, mem-append_left (line ∷ []) at, text, e)

-- What holds of the programs at every moment, where `lines` are those taken from `input`.
pub record IsFair (input : List ℕ) (lines : List (List ℕ)) (p : Link) : Type 0 where
  pub cut : joined lines ++ p.input ≡ input
  pub unread : IsText p.input
  pub counted :
      length lines + length p.inbox + length p.acks ≤ length p.printed + outstanding p.phase
  pub of_frames : All (IsOf lines) p.frames
  pub of_phase : PhaseOf lines p.input p.phase
  pub of_printed : All (λ t. Mem t lines) p.printed

pub fgets-cut :
    (input line rest : List ℕ)
    → fgets payload_size input ≡ some (line, rest)
    → IsText input
    → (line ++ rest ≡ input) × IsText line × IsText rest
unfolding fgets
fgets-cut [] line rest e h = cc
fgets-cut (c ∷ input) line rest e h =
    subst (λ t. (t.0 ++ t.1 ≡ c ∷ input) × IsText t.0 × IsText t.1) (some_inj e)
      (
        take_line-append 255 (c ∷ input),
        (take_line-IsText 255 (c ∷ input) h).0,
        (take_line-IsText 255 (c ∷ input) h).1,
      )

-- a step that takes no line
quiet :
    {input : List ℕ} {lines : List (List ℕ)} {p : Link}
    → IsFair input lines p
    → IsFair input (lines ++ []) p
quiet {input} {lines} {p} h = subst (λ l. IsFair input l p) (sym (append-nil lines)) h

-- A step of the client that neither takes a line nor sends.
turn-IsFair :
    {input : List ℕ} {lines : List (List ℕ)} {p : Link} (phase : Phase) (inbox : List AckFrame)
    → PhaseOf lines p.input phase
    → length lines + length inbox + length p.acks ≤ length p.printed + outstanding phase
    → IsFair input lines p
    → IsFair input (lines ++ []) (record p { phase = phase; inbox = inbox })
turn-IsFair phase inbox known counted h = quiet (record {
  cut = h.cut;
  unread = h.unread;
  counted = counted;
  of_frames = h.of_frames;
  of_phase = known;
  of_printed = h.of_printed;
})

fgets-end : (input : List ℕ) → fgets payload_size input ≡ none → input ≡ []
unfolding fgets
fgets-end [] e = refl
fgets-end (c ∷ input) e = cc

module _ (htons htonl : ℕ → ℕ) where
  fetches-IsFair :
      (input : List ℕ) (lines : List (List ℕ)) (p : Link) (line rest text : List ℕ) (seqno : ℕ)
      → p.phase ≡ fetching
      → fgets payload_size p.input ≡ some (line, rest)
      → c_string (line ++ 0 ∷ []) ≡ some text
      → IsFair input lines p
      → IsFair input (lines ++ text ∷ []) (record p {
        input = rest;
        seqno = seqno;
        phase = selecting nretries (frame htons htonl seqno text);
        frames = frame htons htonl seqno text ∷ p.frames;
      })
  fetches-IsFair input lines p line rest text seqno at e t h =
      let (whole, tl, tr) = fgets-cut p.input line rest e h.unread in
      let same : line ≡ text = some_inj (sym (c_string-text line [] tl) ∙ t) in
      let new : IsOf (lines ++ text ∷ []) (frame htons htonl seqno text) =
        (text, mem-append_right lines mem-cons_self, subst IsText same tl, refl) in
      record {
        cut =
            rw (joined-snoc lines text, sym same, append_assoc (joined lines) line rest, whole)
              h.cut;
        unread = tr;
        counted = rw length-append (omega (arith, rw at at h.counted));
        of_frames = (new, All-weaken p.frames (IsOf-snoc lines text) h.of_frames);
        of_phase = new;
        of_printed = All-weaken p.printed (λ l. mem-append_left (text ∷ [])) h.of_printed;
      }

  Move-IsFair :
      (input : List ℕ) (lines : List (List ℕ)) {p q : Link} (move : Move htons htonl p q)
      → IsFair input lines p
      → IsFair input (lines ++ fetched_by htons htonl move) q
  Move-IsFair input lines (fetches p line rest text at e t) h =
      fetches-IsFair input lines p line rest text ((p.seqno + 1) % word) at e t h
  Move-IsFair input lines (ends p at e) h =
      turn-IsFair _ p.inbox (fgets-end p.input e) (rw at at h.counted) h
  Move-IsFair input lines (times_out p remaining msg at e) h =
      let of_msg : IsOf lines msg = subst (PhaseOf lines p.input) at h.of_phase in
      quiet (record {
        cut = h.cut;
        unread = h.unread;
        counted = rw at at h.counted;
        of_frames = (of_msg, h.of_frames);
        of_phase = of_msg;
        of_printed = h.of_printed;
      })
  Move-IsFair input lines (answers p remaining msg ack inbox' at e) h =
      turn-IsFair receiving p.inbox tt (rw at at h.counted) h
  Move-IsFair input lines (gives_up p msg at) h =
      turn-IsFair (returned false) p.inbox tt (rw at at h.counted) h
  Move-IsFair input lines (receives p ack inbox' at e) h =
      turn-IsFair fetching inbox' tt (omega (arith, rw (at, e) at h.counted)) h
  Move-IsFair input lines (serves p before after msg text e t) h =
      let (of_msg, frames) =
        All-middle (IsOf lines) before after (subst (All (IsOf lines)) e h.of_frames) in
      let (line, member, tl, sealed) = of_msg in
      let reads = overwritten-text p.payload line tl in
      let same : line ≡ text = some_inj (sym reads ∙ (rw sealed at t)) in
      quiet (record {
        cut = h.cut;
        unread = h.unread;
        counted = rw length-append (omega (arith, h.counted));
        of_frames = frames;
        of_phase = h.of_phase;
        of_printed =
            All-append (λ l. Mem l lines) p.printed (text ∷ []) h.of_printed
              (subst (λ l. Mem l lines) same member, tt);
      })
  Move-IsFair input lines (arrives p before after ack e) h = quiet (record {
    cut = h.cut;
    unread = h.unread;
    counted = rw length-append (omega (arith, length-middle before after ack, rw e at h.counted));
    of_frames = h.of_frames;
    of_phase = h.of_phase;
    of_printed = h.of_printed;
  })
  Move-IsFair input lines (loses_frame p before after msg e) h = quiet (record {
    cut = h.cut;
    unread = h.unread;
    counted = h.counted;
    of_frames = (All-middle (IsOf lines) before after (subst (All (IsOf lines)) e h.of_frames)).1;
    of_phase = h.of_phase;
    of_printed = h.of_printed;
  })
  Move-IsFair input lines (loses_ack p before after ack e) h = quiet (record {
    cut = h.cut;
    unread = h.unread;
    counted = omega (arith, length-middle before after ack, rw e at h.counted);
    of_frames = h.of_frames;
    of_phase = h.of_phase;
    of_printed = h.of_printed;
  })

  opening-IsFair : (input payload : List ℕ) → IsText input → IsFair input [] (opening input payload)
  opening-IsFair input payload h = record {
    cut = refl;
    unread = h;
    counted = omega arith;
    of_frames = tt;
    of_phase = tt;
    of_printed = tt;
  }

  pub Moves-IsFair :
      (input payload : List ℕ) {q : Link} (run : Moves htons htonl (opening input payload) q)
      → IsText input
      → IsFair input (fetched htons htonl run) q
  Moves-IsFair input payload stay h = opening-IsFair input payload h
  Moves-IsFair input payload (further q r run move) h =
      Move-IsFair input (fetched htons htonl run) move (Moves-IsFair input payload run h)
