-- ===== src/Net/Select.antt =====
-- TCPserverSelectHi.c: one process that serves all its clients by select().
pub mod Invariant
pub mod Visit
pub mod Sweep
pub mod Rounds
pub mod Blocked
use osh.Prelude.{
  ℕ, zero, suc, ◌+◌, List, [], ◌∷◌, ◌++◌, Bool, true, false, Option, none, some, ltb, leb, ◌==◌,
  if◌then◌else◌, update,
}
use osh.Net.Hi.{Setup, Start, open_server}
use osh.Net.Line.{Run, finished, faulted, running, ◌then_run◌, checked, Reads, read_line}

-- An `fd_set`, by the descriptors in it. FD_SET outside 0 .. FD_SETSIZE - 1 is undefined.
abbrev pub FdSet : Type 0
FdSet = ℕ → Bool

abbrev pub fd_setsize : ℕ
fd_setsize = 1024

pub data Event : Type 0 where
  accepted greeted : ℕ → Event
  served : ℕ → List ℕ → Event

-- The variables that live across the rounds, and what has happened so far.
pub record Server : Type 0 where
  pub master : FdSet
  pub fdmax : ℕ
  pub events : List Event

-- What the system does in one round: the set that select() leaves in `read_fds`, the result of
-- accept() (`none` is -1), what each client sends, and the stale byte in `tmpchar`.
pub record Round : Type 0 where
  pub read_fds : FdSet
  pub connection : Option ℕ
  pub input : ℕ → Reads
  pub tmpchar : ℕ

-- `while (FD_ISSET(fdmax, &master) == FALSE) fdmax -= 1;`
unfoldable pub lower : FdSet → ℕ → Option ℕ
lower master zero = if master zero then some zero else none
lower master (suc fdmax) = if master (suc fdmax) then some (suc fdmax) else lower master fdmax

-- The branch of the server's socket. After a failed accept() the code goes on with newfd = -1.
unfoldable pub accept_client : Option ℕ → Server → Run Server
accept_client none s = faulted
accept_client (some newfd) s =
    if ltb newfd fd_setsize
    then finished (record s {
      master = update s.master newfd true;
      fdmax = if ltb s.fdmax newfd then newfd else s.fdmax;
      events = s.events ++ accepted newfd ∷ [];
    })
    else faulted

-- The branch of a client's socket: the greeting is printed, the line is read and printed, the socket closed.
unfoldable pub serve_client : ℕ → Round → ℕ → Server → Run Server
unfolding lower
serve_client line_fuel r i s = read_line line_fuel (r.input i) r.tmpchar then_run λ line.
    let master = update s.master i false in
    checked (if i == s.fdmax then lower master s.fdmax else some s.fdmax) then_run λ fdmax.
    finished (record {
      master = master;
      fdmax = fdmax;
      events = s.events ++ greeted i ∷ served i line ∷ [];
    })

unfoldable pub visit : ℕ → ℕ → Round → ℕ → Server → Run Server
unfolding accept_client serve_client
visit line_fuel s_fd r i s =
    if r.read_fds i
    then (if i == s_fd then accept_client r.connection s else serve_client line_fuel r i s)
    else finished s

-- `for(int i = 0; i <= fdmax; i++)`, from `i` on; `fdmax` may change on the way.
unfoldable pub sweep : ℕ → ℕ → Round → ℕ → ℕ → Server → Run Server
unfolding visit
sweep line_fuel s_fd r zero i s = running
sweep line_fuel s_fd r (suc fuel) i s =
    let rest = visit line_fuel s_fd r i s then_run sweep line_fuel s_fd r fuel (i + 1) in
    if leb i s.fdmax then rest else finished s

-- Before the loop: `FD_SET(s_fd, &master); fdmax = s_fd;`
unfoldable pub start : ℕ → Run Server
start s_fd =
    if ltb s_fd fd_setsize
    then finished (record { master = update (λ _. false) s_fd true; fdmax = s_fd; events = [] })
    else faulted

-- The rounds of `while (1)`, as far as the system goes on.
unfoldable pub serve_rounds : ℕ → ℕ → List Round → Server → Run Server
unfolding sweep
serve_rounds line_fuel s_fd [] s = finished s
serve_rounds line_fuel s_fd (r ∷ rs) s =
    sweep line_fuel s_fd r (fd_setsize + 1) 0 s then_run serve_rounds line_fuel s_fd rs

-- The set and the loop, once the socket is open; nothing where the start has returned.
unfoldable pub serve_from : ℕ → List Round → Start → Run (Option Server)
unfolding start serve_rounds
serve_from line_fuel rounds (Start.returned opened closed) = finished none
serve_from line_fuel rounds (Start.listening s_fd) =
    start s_fd then_run λ s. serve_rounds line_fuel s_fd rounds s then_run λ s'. finished (some s')

-- `main`, to where the system stops answering.
unfoldable pub select_server : ℕ → Setup → List Round → Run (Option Server)
unfolding serve_from
select_server line_fuel os rounds = serve_from line_fuel rounds (open_server os)
