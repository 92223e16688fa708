-- ===== src/Net/Ack/Network/Progress.antt =====
-- The client is never stuck, and comes to its end whatever the network does.
use osh.Prelude.{
  ℕ, zero, suc, ◌+◌, ◌*◌, ◌≤◌, ◌<◌, ◌≡◌, refl, sym, ap, subst, ◌⊎◌, inl, inr, List, [], ◌∷◌, ◌++◌,
  Bool, true, false, some, length, arith, some_inj,
}
use osh.Net.CString.Padded.{IsText, c_string-text}
use osh.Net.Stdio.{fgets, take_line, take_line-shorter, take_line-IsText}
use osh.Net.Ack.{payload_size, DataFrame, AckFrame}
use osh.Net.Ack.Network.{
  Phase, fetching, selecting, receiving, returned, Link, opening, Move, fetches, ends, times_out,
  answers, gives_up, receives, serves, arrives, loses_frame, loses_ack, Moves, stay, further,
}
use osh.Net.Ack.Network.Fair.{Moves-IsFair}

-- Where the client still is in its work on a line.
abbrev rank : Phase → ℕ
rank fetching = 1
rank (selecting remaining msg) = remaining + 3
rank receiving = 2
rank (returned status) = 0

-- recv() is only called with something in the queue.
abbrev HasAck : Phase → List AckFrame → Type 0
HasAck receiving [] = ⊥
HasAck _ inbox = Unit {0}

HasAck-arrives :
    (phase : Phase) (inbox : List AckFrame) (ack : AckFrame)
    → HasAck phase inbox
    → HasAck phase (inbox ++ ack ∷ [])
HasAck-arrives fetching inbox ack h = tt
HasAck-arrives (selecting remaining msg) inbox ack h = tt
HasAck-arrives receiving [] ack h = elim h [ ]
HasAck-arrives receiving (a ∷ inbox) ack h = tt
HasAck-arrives (returned status) inbox ack h = tt

pub fgets-shorter :
    (input line rest : List ℕ)
    → fgets payload_size input ≡ some (line, rest)
    → length rest < length input
unfolding fgets
fgets-shorter [] line rest e = cc
fgets-shorter (c ∷ input) line rest e =
    let cut : take_line 255 (c ∷ input) ≡ (line, rest) = some_inj e in
    let same : (take_line 255 (c ∷ input)).1 ≡ rest = ap (λ (t : List ℕ × List ℕ). t.1) cut in
    omega (arith, take_line-shorter 254 c input, ap length same)

module _ (htons htonl : ℕ → ℕ) where
  -- the steps of the client
  abbrev pub is_client : {p q : Link} → Move htons htonl p q → Bool
  is_client (serves p before after msg text e t) = false
  is_client (arrives p before after ack e) = false
  is_client (loses_frame p before after msg e) = false
  is_client (loses_ack p before after ack e) = false
  is_client _ = true

  abbrev counted : Bool → ℕ
  counted true = 1
  counted false = 0

  abbrev pub client_steps : {p q : Link} → Moves htons htonl p q → ℕ
  client_steps stay = 0
  client_steps (further q r run move) = client_steps run + counted (is_client move)

  -- what a step of the client takes away from
  abbrev left : Link → ℕ
  left p = 13 * length p.input + rank p.phase

  Move-left :
      {p q : Link} (move : Move htons htonl p q) → counted (is_client move) + left q ≤ left p
  Move-left (fetches p line rest text at e t) =
      rw at (omega (arith, fgets-shorter p.input line rest e))
  Move-left (ends p at e) = rw at (omega arith)
  Move-left (times_out p remaining msg at e) = rw at (omega arith)
  Move-left (answers p remaining msg ack inbox' at e) = rw at (omega arith)
  Move-left (gives_up p msg at) = rw at (omega arith)
  Move-left (receives p ack inbox' at e) = rw at (omega arith)
  Move-left (serves p before after msg text e t) = omega arith
  Move-left (arrives p before after ack e) = omega arith
  Move-left (loses_frame p before after msg e) = omega arith
  Move-left (loses_ack p before after ack e) = omega arith

  Moves-left :
      (input payload : List ℕ) {q : Link} (run : Moves htons htonl (opening input payload) q)
      → client_steps run + left q ≤ 13 * length input + 1
  Moves-left input payload stay = omega arith
  Moves-left input payload (further q r run move) =
      omega (arith, Moves-left input payload run, Move-left move)

  Move-HasAck :
      {p q : Link} → Move htons htonl p q → HasAck p.phase p.inbox → HasAck q.phase q.inbox
  Move-HasAck (fetches p line rest text at e t) h = tt
  Move-HasAck (ends p at e) h = tt
  Move-HasAck (times_out p remaining msg at e) h = tt
  Move-HasAck (answers p remaining msg ack inbox' at e) h = subst (HasAck receiving) (sym e) tt
  Move-HasAck (gives_up p msg at) h = tt
  Move-HasAck (receives p ack inbox' at e) h = tt
  Move-HasAck (serves p before after msg text e t) h = h
  Move-HasAck (arrives p before after ack e) h = HasAck-arrives p.phase p.inbox ack h
  Move-HasAck (loses_frame p before after msg e) h = h
  Move-HasAck (loses_ack p before after ack e) h = h

  Moves-HasAck :
      (input payload : List ℕ) {q : Link}
      → Moves htons htonl (opening input payload) q
      → HasAck q.phase q.inbox
  Moves-HasAck input payload stay = tt
  Moves-HasAck input payload (further q r run move) =
      Move-HasAck move (Moves-HasAck input payload run)

  abbrev CanMove : Link → Type 0
  CanMove p = (r : Link) × (move : Move htons htonl p r) × (is_client move ≡ true)

  fetch_or_end :
      (p : Link) (input : List ℕ) → p.input ≡ input → IsText input → p.phase ≡ fetching → CanMove p
  unfolding fgets
  fetch_or_end p [] same h at = (_, ends p at (rw same refl), refl)
  fetch_or_end p (c ∷ input) same h at =
      let line = (take_line 255 (c ∷ input)).0 in
      let rest = (take_line 255 (c ∷ input)).1 in
      let (tl, _) = take_line-IsText 255 (c ∷ input) h in
      (_, fetches p line rest line at (rw same refl) (c_string-text line [] tl), refl)

  select_or_send :
      (p : Link) (remaining : ℕ) (msg : DataFrame) (inbox : List AckFrame)
      → p.phase ≡ selecting (suc remaining) msg
      → p.inbox ≡ inbox
      → CanMove p
  select_or_send p remaining msg [] at same = (_, times_out p remaining msg at same, refl)
  select_or_send p remaining msg (ack ∷ inbox) at same =
      (_, answers p remaining msg ack inbox at same, refl)

  receive :
      (p : Link) (inbox : List AckFrame)
      → p.inbox ≡ inbox
      → HasAck receiving inbox
      → p.phase ≡ receiving
      → CanMove p
  receive p [] same h at = elim h [ ]
  receive p (ack ∷ inbox) same h at = (_, receives p ack inbox at same, refl)

  can_move :
      (p : Link) (phase : Phase)
      → p.phase ≡ phase
      → IsText p.input
      → HasAck p.phase p.inbox
      → ((status : Bool) × (p.phase ≡ returned status)) ⊎ CanMove p
  can_move p fetching at h ready = inr (fetch_or_end p p.input refl h at)
  can_move p (selecting zero msg) at h ready = inr (_, gives_up p msg at, refl)
  can_move p (selecting (suc remaining) msg) at h ready =
      inr (select_or_send p remaining msg p.inbox at refl)
  can_move p receiving at h ready =
      inr (receive p p.inbox refl (subst (λ q. HasAck q p.inbox) at ready) at)
  can_move p (returned status) at h ready = inl (status, at)

  -- On input without NULs, whatever the network and the server do: the client takes at most 13 steps
  -- for each byte of the input and one more; and as long as it has not returned it has a step to take,
  -- so that it is never held up in recv().
  pub Moves-ends :
      (input payload : List ℕ) (q : Link) (run : Moves htons htonl (opening input payload) q)
      → IsText input
      → (client_steps run ≤ 13 * length input + 1)
        × (((status : Bool) × (q.phase ≡ returned status))
            ⊎ ((r : Link) × (move : Move htons htonl q r) × (is_client move ≡ true)))
  Moves-ends input payload q run h = (
    omega (arith, Moves-left input payload run),
    can_move q q.phase refl (Moves-IsFair htons htonl input payload run h).unread
        (Moves-HasAck input payload run),
  )
