-- ===== src/Net/Hi/Handlers.antt =====
-- TCPserverPthreadsHi.c with the clients' threads turn by turn: `client_handler` may be left at any
-- test of its loop, before printf() and before close().
pub mod Track
pub mod Simulation
pub mod Turns
pub mod Realised
use osh.Prelude.{
  ℕ, ◌+◌, List, ◌∷◌, [], ◌++◌, Bool, true, false, Option, none, some, ltb, ◌==◌, if◌then◌else◌, ◌≡◌,
  update,
}
use osh.Net.CString.{strlen, strncat_one, c_string}
use osh.Net.Line.{
  Run, finished, ◌then_run◌, checked, max_nchars, newline, Reads, received, empty_line,
}

-- Where a thread is: at the test of the loop, with what its client sends and its variables; behind
-- the loop; or behind printf().
pub data Handler : Type 0 where
  testing : (reads : Reads) (k tmpchar : ℕ) (eob : Bool) (clientline : List ℕ) → Handler
  printing : List ℕ → Handler
  closing : Handler

-- One test of the loop, and its body if the test holds.
unfoldable pub turn : Reads → ℕ → ℕ → Bool → List ℕ → Run Handler
turn reads k tmpchar true clientline = finished (printing clientline)
turn reads k tmpchar false clientline = checked (strlen clientline) then_run λ n.
    let c = received (reads k) tmpchar in
    let next = checked (strncat_one clientline c) then_run λ clientline'.
    finished (testing reads (k + 1) c (c == newline) clientline') in
    if ltb n max_nchars then next else finished (printing clientline)

-- The open descriptors, the thread that serves each, and what has been printed.
pub record Crowd : Type 0 where
  pub is_open : ℕ → Bool
  pub handlers : ℕ → Option Handler
  pub printed : List (ℕ × List ℕ)

-- One step of the main thread or of a client's thread. A thread whose turn faults has no step.
pub data Act : Crowd → Crowd → Type 0 where
  accept_fails : (p : Crowd) → Act p p
  create :
      (p : Crowd) (newfd tmpchar : ℕ) (reads : Reads)
      → p.is_open newfd ≡ false
      → Act p (record p {
        is_open = update p.is_open newfd true;
        handlers = update p.handlers newfd (some (testing reads 0 tmpchar false empty_line));
      })
  create_fails :
      (p : Crowd) (newfd : ℕ)
      → p.is_open newfd ≡ false
      → Act p (record p { is_open = update p.is_open newfd true })
  loop :
      (p : Crowd) (c_fd k tmpchar : ℕ) (reads : Reads) (eob : Bool) (clientline : List ℕ)
      (h : Handler)
      → p.handlers c_fd ≡ some (testing reads k tmpchar eob clientline)
      → turn reads k tmpchar eob clientline ≡ finished h
      → Act p (record p { handlers = update p.handlers c_fd (some h) })
  print :
      (p : Crowd) (c_fd : ℕ) (clientline text : List ℕ)
      → p.handlers c_fd ≡ some (printing clientline)
      → c_string clientline ≡ some text
      → Act p (record p {
        handlers = update p.handlers c_fd (some closing);
        printed = p.printed ++ (c_fd, text) ∷ [];
      })
  close :
      (p : Crowd) (c_fd : ℕ)
      → p.handlers c_fd ≡ some closing
      → Act p (record p {
        is_open = update p.is_open c_fd false;
        handlers = update p.handlers c_fd none;
      })

pub data Acts : Crowd → Crowd → Type 0 where
  done : (p : Crowd) → Acts p p
  next : (p q r : Crowd) → Act p q → Acts q r → Acts p r

-- `main` up to its loop, with no threads yet: the server's socket alone is open.
abbrev pub alone : ℕ → Crowd
alone s_fd = record { is_open = update (λ _. false) s_fd true; handlers = λ _. none; printed = [] }
