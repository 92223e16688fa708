-- ===== src/Net/Hi.antt =====
-- What the three Hi servers have in common before their loops, and the loops of TCPserverForkHi.c
-- and TCPserverPthreadsHi.c.
pub mod Threads
pub mod Zombies
pub mod Leaks
pub mod Forks
pub mod Handlers
use osh.Prelude.{
  suc, ◌+◌, ◌-◌, ◌==◌, ◌>>=◌, ℕ, List, [], ◌∷◌, ◌++◌, Bool, true, false, Option, none, some,
  if◌then◌else◌, ◌≡◌, update,
}
use osh.Net.Line.{Run, finished, Reads, read_line}

-- What the system answers to the calls that open the server's socket.
pub record Setup : Type 0 where
  pub socket : Option ℕ
  pub setsockopt : Bool
  pub bind : Bool

-- The start ends with a socket, or returns -1 with the descriptors that it opened and closed.
pub data Start : Type 0 where
  listening : ℕ → Start
  returned : List ℕ → List ℕ → Start

-- The result of listen() is not looked at.
unfoldable pub open_server : Setup → Start
open_server os = elim os.socket [
  | none ↦ returned [] []
  | some s_fd ↦
      let stop = returned (s_fd ∷ []) (s_fd ∷ []) in
      if os.setsockopt then (if os.bind then listening s_fd else stop) else stop
]

-- A turn of the fork server: accept() gives a descriptor or fails; fork() gives a child, with what
-- its client sends and the byte in `tmpchar`, or fails.
pub record Turn : Type 0 where
  pub connection : Option ℕ
  pub child : Option (Reads × ℕ)

-- The descriptors of the parent, and the children with what they print.
pub record Parent : Type 0 where
  pub descriptors : List ℕ
  pub children : List (ℕ × Run (List ℕ))

-- The branch after accept(). The child runs on its own; the parent goes on.
unfoldable pub fork_child : ℕ → ℕ → Option (Reads × ℕ) → List (ℕ × Run (List ℕ))
fork_child line_fuel newfd none = []
fork_child line_fuel newfd (some (reads, tmpchar)) = (newfd, read_line line_fuel reads tmpchar) ∷ []

-- The loop of the fork server, as far as the system goes on.
unfoldable pub fork_turns : ℕ → List Turn → Parent → Parent
unfolding fork_child
fork_turns line_fuel [] p = p
fork_turns line_fuel (t ∷ ts) p = elim t.connection [
  | none ↦ fork_turns line_fuel ts p
  | some newfd ↦ fork_turns line_fuel ts (record {
    descriptors = newfd ∷ p.descriptors;
    children = p.children ++ fork_child line_fuel newfd t.child;
  })
]

-- What the system answers before that: the set-up of the handler of SIGCHLD.
pub record Signals : Type 0 where
  pub sigfillset : Bool
  pub sigaction : Bool

-- the loop, where the start has come to a socket
abbrev fork_from : ℕ → List Turn → Start → Option Parent
fork_from line_fuel ts (returned opened closed) = none
fork_from line_fuel ts (listening s_fd) =
    some (fork_turns line_fuel ts (record { descriptors = s_fd ∷ []; children = [] }))

-- `main` of TCPserverForkHi.c, to where the system stops answering; nothing if it returns -1.
unfoldable pub fork_server : ℕ → Signals → Setup → List Turn → Option Parent
unfolding open_server fork_turns
fork_server line_fuel signals os ts =
    if signals.sigfillset
    then (if signals.sigaction then fork_from line_fuel ts (open_server os) else none)
    else none

-- The children of the fork server: how many run, how many have exited and are not waited for, and
-- whether SIGCHLD is pending, which is so once, however often it is raised.
pub record Children : Type 0 where
  pub running_count : ℕ
  pub zombies : ℕ
  pub pending : Bool

pub data ChildEvent : Type 0 where
  forks exits delivers : ChildEvent

-- What happens to them; `none` where the event cannot happen. `sigchld_handler` makes one call of
-- wait(), which takes one zombie; without one it waits for a child.
unfoldable pub child_event : ChildEvent → Children → Option Children
child_event forks c = some (record c { running_count = suc c.running_count })
child_event exits c =
    let c' : Children = record {
      running_count = c.running_count - 1;
      zombies = c.zombies + 1;
      pending = true;
    } in
    if c.running_count == 0 then none else some c'
child_event delivers c =
    let c' : Children = record c { zombies = c.zombies - 1; pending = false } in
    if c.pending then (if c.zombies == 0 then none else some c') else none

unfoldable pub child_events : List ChildEvent → Children → Option Children
unfolding child_event
child_events [] c = some c
child_events (e ∷ es) c = child_event e c >>= child_events es

-- The process of the pthreads server: its open descriptors, those that a thread serves, and what
-- has been printed.
pub record Process : Type 0 where
  pub is_open : ℕ → Bool
  pub served : ℕ → Bool
  pub printed : List (ℕ × List ℕ)

-- One step of the main thread or of a client's thread. accept() gives a descriptor that is not in
-- use. The threads meet only where they print and close.
pub data Step : Process → Process → Type 0 where
  accept_fails : (p : Process) → Step p p
  create :
      (p : Process) (newfd : ℕ)
      → p.is_open newfd ≡ false
      → Step p
          (record p { is_open = update p.is_open newfd true; served = update p.served newfd true })
  create_fails :
      (p : Process) (newfd : ℕ)
      → p.is_open newfd ≡ false
      → Step p (record p { is_open = update p.is_open newfd true })
  handle :
      (p : Process) (line_fuel c_fd tmpchar : ℕ) (reads : Reads) (line : List ℕ)
      → p.served c_fd ≡ true
      → read_line line_fuel reads tmpchar ≡ finished line
      → Step p (record {
        is_open = update p.is_open c_fd false;
        served = update p.served c_fd false;
        printed = p.printed ++ (c_fd, line) ∷ [];
      })

pub data Steps : Process → Process → Type 0 where
  done : (p : Process) → Steps p p
  next : (p q r : Process) → Step p q → Steps q r → Steps p r

-- `main` of TCPserverPthreadsHi.c up to its loop: the process that the steps start from, or nothing
-- if it returns -1.
unfoldable pub pthreads_server : Setup → Option Process
unfolding open_server
pthreads_server os = elim (open_server os) [
  | returned opened closed ↦ none
  | listening s_fd ↦
      some (record { is_open = update (λ _. false) s_fd true; served = λ _. false; printed = [] })
]
