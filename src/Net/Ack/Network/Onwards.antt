-- ===== src/Net/Ack/Network/Onwards.antt =====
-- UDPACKclient.c from a point of its loop on, step by step, and the answers that it has had.
use osh.Prelude.{
  ℕ, suc, ◌+◌, ◌%◌, ◌≤◌, ◌<◌, ◌≡◌, refl, sym, ap, ◌∙◌, subst, ◌⊎◌, inl, inr, List, [], ◌∷◌, ◌++◌,
  Bool, true, false, none, some, word, arith, append_assoc, some_inj, ◌==◌, ◌&&◌, if◌then◌else◌,
}
use osh.Net.CString.{c_string}
use osh.Net.Stdio.{fgets, take_line}
use osh.Net.Line.{Run, finished, faulted, running, ◌then_run◌}
use osh.Net.Ack.{payload_size, nretries, DataFrame, resend, frame, send_frames}
use osh.Net.Ack.Network.{Phase, fetching, selecting, receiving, returned}

-- What a run does once some frames have been sent.
abbrev pub following : List DataFrame → Run (List DataFrame × Bool) → Run (List DataFrame × Bool)
following sent run = run then_run λ r. finished (sent ++ r.0, r.1)

pub following-append :
    (fs gs : List DataFrame) (run : Run (List DataFrame × Bool))
    → following fs (following gs run) ≡ following (fs ++ gs) run
following-append fs gs (finished r) = ap (λ l. finished (l, r.1)) (sym (append_assoc fs gs r.0))
following-append fs gs faulted = refl
following-append fs gs running = refl

pub following-nil : (run : Run (List DataFrame × Bool)) → following [] run ≡ run
following-nil (finished r) = refl
following-nil faulted = refl
following-nil running = refl

-- the rest of a turn of the client's loop, where `again` is what it still sends
abbrev pub turn_end :
    List DataFrame × Bool → Run (List DataFrame × Bool) → Run (List DataFrame × Bool)
turn_end again more = if again.1 then following again.0 more else finished (again.0, false)

turn_end-cons :
    (msg : DataFrame) (gs : List DataFrame) (up : Bool) (more : Run (List DataFrame × Bool))
    → turn_end (msg ∷ gs, up) more ≡ following (msg ∷ []) (turn_end (gs, up) more)
turn_end-cons msg gs true (finished r) = refl
turn_end-cons msg gs true faulted = refl
turn_end-cons msg gs true running = refl
turn_end-cons msg gs false more = refl

-- The client has the answers to select() behind it: of the lines before, and of the turns before.
abbrev pub turns_left : Phase → ℕ
turns_left (selecting remaining msg) = remaining
turns_left _ = 0

abbrev pub Behind : ℕ → ℕ → ℕ → ℕ → Type 0
Behind seqno left s r = (s < seqno) ⊎ ((s ≡ seqno) × (left < r))

abbrev pub Ahead : ℕ → ℕ → ℕ → ℕ → Type 0
Ahead seqno left s r = (seqno < s) ⊎ ((s ≡ seqno) × (r ≤ left))

-- one answer more
abbrev pub mark : ℕ → ℕ → (ℕ → ℕ → Bool) → ℕ → ℕ → Bool
mark seqno turn ready s r = if s == seqno && r == turn then true else ready s r

pub mark-Behind :
    (seqno turn s r : ℕ) (ready : ℕ → ℕ → Bool)
    → Behind seqno turn s r
    → mark seqno turn ready s r ≡ ready s r
mark-Behind seqno turn s r ready (inl lt) = ground arith
mark-Behind seqno turn s r ready (inr h) = ground arith

pub mark-Ahead :
    (seqno turn s r : ℕ) (ready : ℕ → ℕ → Bool)
    → Ahead seqno 0 s r
    → mark seqno (suc turn) ready s r ≡ ready s r
mark-Ahead seqno turn s r ready (inl lt) = ground arith
mark-Ahead seqno turn s r ready (inr h) = ground arith

pub mark_self : (seqno turn : ℕ) (ready : ℕ → ℕ → Bool) → mark seqno turn ready seqno turn ≡ true
mark_self seqno turn ready = ground arith

module _ (htons htonl : ℕ → ℕ) where
  -- what UDPACKclient.c does from a point of its loop on
  unfoldable pub onwards : ℕ → (ℕ → ℕ → Bool) → ℕ → List ℕ → Phase → Run (List DataFrame × Bool)
  onwards fuel ready seqno unread fetching = send_frames htons htonl fuel ready seqno unread
  onwards fuel ready seqno unread receiving = send_frames htons htonl fuel ready seqno unread
  onwards fuel ready seqno unread (returned status) = finished ([], status)
  onwards fuel ready seqno unread (selecting remaining msg) =
      turn_end (resend remaining (ready seqno) msg)
        (send_frames htons htonl fuel ready seqno unread)

  pub onwards-fetches :
      (fuel : ℕ) (ready : ℕ → ℕ → Bool) (seqno : ℕ) (unread line rest text : List ℕ)
      → fgets payload_size unread ≡ some (line, rest)
      → c_string (line ++ 0 ∷ []) ≡ some text
      → onwards (suc fuel) ready seqno unread fetching
        ≡ following (frame htons htonl ((seqno + 1) % word) text ∷ []) (
            onwards fuel ready
              ((seqno + 1) % word)
              rest
              (selecting nretries (frame htons htonl ((seqno + 1) % word) text)))
  unfolding onwards send_frames fgets
  onwards-fetches fuel ready seqno [] line rest text e t = cc
  onwards-fetches fuel ready seqno (c ∷ input) line rest text e t =
      let seqno' : ℕ = (seqno + 1) % word in
      let msg = frame htons htonl seqno' text in
      let again = resend nretries (ready seqno') msg in
      let cut : take_line 255 (c ∷ input) ≡ (line, rest) = some_inj e in
      subst
        (λ (l : List ℕ × List ℕ).
          onwards (suc fuel) ready seqno (c ∷ input) fetching
          ≡ following (msg ∷ []) (onwards fuel ready seqno' l.1 (selecting nretries msg)))
        cut
        (rw (ap (λ (l : List ℕ × List ℕ). c_string (l.0 ++ 0 ∷ [])) cut ∙ t) (
          turn_end-cons msg again.0 again.1
            (send_frames htons htonl fuel ready seqno' (take_line 255 (c ∷ input)).1)))

  pub onwards-ends :
      (fuel : ℕ) (ready : ℕ → ℕ → Bool) (seqno : ℕ) (unread : List ℕ)
      → fgets payload_size unread ≡ none
      → onwards (suc fuel) ready seqno unread fetching ≡ finished ([], true)
  unfolding onwards send_frames fgets
  onwards-ends fuel ready seqno [] e = refl
  onwards-ends fuel ready seqno (c ∷ input) e = cc

  pub onwards-times_out :
      (fuel : ℕ) (ready : ℕ → ℕ → Bool) (seqno : ℕ) (unread : List ℕ) (remaining : ℕ)
      (msg : DataFrame)
      → ready seqno (suc remaining) ≡ false
      → onwards fuel ready seqno unread (selecting (suc remaining) msg)
        ≡ following (msg ∷ []) (onwards fuel ready seqno unread (selecting remaining msg))
  unfolding onwards resend
  onwards-times_out fuel ready seqno unread remaining msg e =
      let again = resend remaining (ready seqno) msg in
      rw e (turn_end-cons msg again.0 again.1 (send_frames htons htonl fuel ready seqno unread))

  pub onwards-answers :
      (fuel : ℕ) (ready : ℕ → ℕ → Bool) (seqno : ℕ) (unread : List ℕ) (remaining : ℕ)
      (msg : DataFrame)
      → ready seqno (suc remaining) ≡ true
      → onwards fuel ready seqno unread (selecting (suc remaining) msg)
        ≡ onwards fuel ready seqno unread receiving
  unfolding onwards resend
  onwards-answers fuel ready seqno unread remaining msg e =
      rw e (following-nil (send_frames htons htonl fuel ready seqno unread))

  pub onwards-gives_up :
      (fuel : ℕ) (ready : ℕ → ℕ → Bool) (seqno : ℕ) (unread : List ℕ) (msg : DataFrame)
      → onwards fuel ready seqno unread (selecting 0 msg) ≡ finished ([], false)
  unfolding onwards resend
  onwards-gives_up fuel ready seqno unread msg = refl

  pub onwards-receives :
      (fuel : ℕ) (ready : ℕ → ℕ → Bool) (seqno : ℕ) (unread : List ℕ)
      → onwards fuel ready seqno unread receiving
        ≡ following [] (onwards fuel ready seqno unread fetching)
  unfolding onwards
  onwards-receives fuel ready seqno unread =
      sym (following-nil (send_frames htons htonl fuel ready seqno unread))
