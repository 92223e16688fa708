-- ===== src/Net/Hi/Forks.antt =====
-- The whole of TCPserverForkHi.c over connections whose clients send their lines.
use osh.Prelude.{
  ℕ, ◌≡◌, refl, ap, ◌∙◌, List, [], ◌∷◌, ◌++◌, true, none, some, append_assoc, append-nil,
}
use mathlib.Core.List.{map}
use osh.Net.Line.{Run, finished, Reads, read_line}
use osh.Net.Hi.{Setup, Start, open_server, Turn, fork_turns, Signals, fork_server}

-- What comes of a turn: no connection; a connection for which fork() fails; or one with a child,
-- by what its client sends, the byte in `tmpchar`, and the line.
pub data Guest : Type 0 where
  absent : Guest
  turned_away : ℕ → Guest
  welcome : ℕ → Reads → ℕ → List ℕ → Guest

abbrev pub turn_of : Guest → Turn
turn_of absent = record { connection = none; child = none }
turn_of (turned_away fd) = record { connection = some fd; child = none }
turn_of (welcome fd reads tmpchar line) = record {
  connection = some fd;
  child = some (reads, tmpchar);
}

-- Every child's line is read.
abbrev pub AreRead : ℕ → List Guest → Type 0
AreRead line_fuel [] = Unit {0}
AreRead line_fuel (welcome fd reads tmpchar line ∷ gs) =
    (read_line line_fuel reads tmpchar ≡ finished line) × AreRead line_fuel gs
AreRead line_fuel (_ ∷ gs) = AreRead line_fuel gs

-- the lines that the children print, in the order in which they are forked
abbrev pub lines_of : List Guest → List (ℕ × Run (List ℕ))
lines_of [] = []
lines_of (welcome fd reads tmpchar line ∷ gs) = (fd, finished line) ∷ lines_of gs
lines_of (_ ∷ gs) = lines_of gs

-- the descriptors of all connections, the last one first, before those of `fds`
abbrev pub kept_open : List Guest → List ℕ → List ℕ
kept_open [] fds = fds
kept_open (absent ∷ gs) fds = kept_open gs fds
kept_open (turned_away fd ∷ gs) fds = kept_open gs (fd ∷ fds)
kept_open (welcome fd reads tmpchar line ∷ gs) fds = kept_open gs (fd ∷ fds)

fork_turns-Guest :
    (line_fuel : ℕ) (gs : List Guest) (fds : List ℕ) (before : List (ℕ × Run (List ℕ)))
    → AreRead line_fuel gs
    → fork_turns line_fuel (map turn_of gs) (record { descriptors = fds; children = before })
      ≡ record { descriptors = kept_open gs fds; children = before ++ lines_of gs }
unfolding fork_turns
fork_turns-Guest line_fuel [] fds before h = rw append-nil refl
fork_turns-Guest line_fuel (absent ∷ gs) fds before h = fork_turns-Guest line_fuel gs fds before h
fork_turns-Guest line_fuel (turned_away fd ∷ gs) fds before h =
    rw append-nil (fork_turns-Guest line_fuel gs (fd ∷ fds) before h)
fork_turns-Guest line_fuel (welcome fd reads tmpchar line ∷ gs) fds before (e, h) = rw e (
    fork_turns-Guest line_fuel gs (fd ∷ fds) (before ++ (fd, finished line) ∷ []) h ∙ λ i. record {
      descriptors = kept_open gs (fd ∷ fds);
      children = append_assoc before ((fd, finished line) ∷ []) (lines_of gs) i;
    })

-- A fork server whose signals are set up and whose socket is opened, where the line of every child
-- is read: there is a child for each connection but those at which fork() fails, in their order, and
-- each prints its client's line; the parent keeps the descriptor of every connection, forked or
-- not, besides its socket's.
pub fork_server-lines :
    (line_fuel s_fd : ℕ) (signals : Signals) (os : Setup) (gs : List Guest)
    → signals.sigfillset ≡ true
    → signals.sigaction ≡ true
    → open_server os ≡ Start.listening s_fd
    → AreRead line_fuel gs
    → fork_server line_fuel signals os (map turn_of gs)
      ≡ some (record { descriptors = kept_open gs (s_fd ∷ []); children = lines_of gs })
unfolding fork_server
fork_server-lines line_fuel s_fd signals os gs f a e h =
    rw (f, a, e) (ap some (fork_turns-Guest line_fuel gs (s_fd ∷ []) [] h))
