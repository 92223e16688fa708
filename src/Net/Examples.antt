-- ===== src/Net/Examples.antt =====
-- Data for the examples on the networking programs: lines, what clients send, and a server.
mod Lines
mod Rounds
mod Transfers
mod Processes
mod Threads
mod Links
use osh.Prelude.{
  false, update, some, true, ℕ, ◌≡◌, refl, List, [], ◌∷◌, arith, ◌&&◌, All, get_elem?, ltb,
}
use osh.Net.CString.Padded.{IsText}
use osh.Net.Hi.{Process, pthreads_server}
use osh.Net.Line.{finished, Reads, read_line, newline}
use osh.Net.Line.Turns.{IsPlain}
use osh.Net.Line.Outcome.{read_line-line}
use osh.Net.Hi.{Setup, Start, open_server}
use osh.Net.Select.{FdSet, Server}

-- the reads that give these bytes and then the end of the input
abbrev pub sent : List ℕ → Reads
sent bytes k = get_elem? bytes k

-- "hi"
abbrev pub hi : List ℕ
hi = 104 ∷ 105 ∷ []

abbrev pub hi_line : List ℕ
hi_line = 104 ∷ 105 ∷ newline ∷ []

pub hi-IsPlain : All IsPlain hi
hi-IsPlain = ((omega arith, omega arith), ((omega arith, omega arith), tt))

pub hi_line-IsText : IsText hi_line
hi_line-IsText = (omega arith, (omega arith, (omega arith, tt)))

-- the server's socket 3 and the clients 4 and 5
abbrev pub open_fds : FdSet
open_fds j = ltb 2 j && ltb j 6

abbrev pub server : Server
server = record { master = open_fds; fdmax = 5; events = [] }

pub hi_line-read : read_line 4 (sent hi_line) 0 ≡ finished hi_line
hi_line-read =
    read_line-line hi 0 4 (sent hi_line) hi-IsPlain (omega arith) (refl, (refl, (refl, tt)))
      (omega arith)

abbrev pub setup : Setup
setup = record { socket = some 3; setsockopt = true; bind = true }

pub setup-listening : open_server setup ≡ Start.listening 3
unfolding open_server
setup-listening = refl

-- htons() and htonl() where the host has the order of the network
abbrev pub same : ℕ → ℕ
same n = n

-- the pthreads server at the start of its loop
abbrev pub idle : Process
idle = record { is_open = update (λ _. false) 3 true; served = λ _. false; printed = [] }

pub idle-start : pthreads_server setup ≡ some idle
unfolding pthreads_server open_server
idle-start = refl
