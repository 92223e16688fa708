-- ===== src/Net/Hi/Threads.antt =====
-- The descriptors of the fork and pthreads servers.
use osh.Prelude.{
  ℕ, suc, ◌+◌, ◌≡◌, List, [], ◌∷◌, ◌++◌, true, false, none, some, arith, length, Option-cases, inl,
  inr,
}
use osh.Net.Hi.{
  Turn, Parent, fork_child, fork_turns, Process, Step, accept_fails, create, create_fails, handle,
  Steps, done, next,
}

-- the connections among the turns
abbrev pub accepted_count : List Turn → ℕ
accepted_count [] = 0
accepted_count (t ∷ ts) = elim t.connection [
  | none ↦ accepted_count ts
  | some _ ↦ suc (accepted_count ts)
]

-- The parent of the fork server keeps the descriptor of every connection that it has accepted,
-- whatever becomes of the child.
pub fork_turns-descriptors :
    (line_fuel : ℕ) (ts : List Turn) (p : Parent)
    → length (fork_turns line_fuel ts p).descriptors ≡ length p.descriptors + accepted_count ts
unfolding fork_turns
fork_turns-descriptors line_fuel [] p = omega arith
fork_turns-descriptors line_fuel (t ∷ ts) p = elim (Option-cases t.connection) [
  | inl e ↦ rw e (fork_turns-descriptors line_fuel ts p)
  | inr (newfd, e) ↦
      let q : Parent = record {
        descriptors = newfd ∷ p.descriptors;
        children = p.children ++ fork_child line_fuel newfd t.child;
      } in
      rw e (omega (arith, fork_turns-descriptors line_fuel ts q))
]

-- The server's socket is open and no thread's; a descriptor that a thread serves is open.
pub record IsSound (s_fd : ℕ) (p : Process) : Type 0 where
  pub listens : p.is_open s_fd ≡ true
  pub own : p.served s_fd ≡ false
  pub usable : (j : ℕ) → p.served j ≡ true → p.is_open j ≡ true

Step-IsSound : (s_fd : ℕ) {p q : Process} → Step p q → IsSound s_fd p → IsSound s_fd q
Step-IsSound s_fd (accept_fails p) h = h
Step-IsSound s_fd (create p newfd free) h = record {
  listens = ground (arith, h.listens);
  own = ground (arith, h.own, h.listens);
  usable = λ j. ground (arith, h.usable j);
}
Step-IsSound s_fd (create_fails p newfd free) h = record {
  listens = ground (arith, h.listens);
  own = h.own;
  usable = λ j. ground (arith, h.usable j);
}
Step-IsSound s_fd (handle p line_fuel c_fd tmpchar reads line running e) h = record {
  listens = ground (arith, h.listens, h.own);
  own = ground (arith, h.own);
  usable = λ j. ground (arith, h.usable j);
}

-- In every interleaving of the main thread and the clients' threads the server's socket stays open
-- and is no thread's, and a descriptor stays open as long as a thread serves it, even where accept()
-- or pthread_create() fails.
pub Steps-IsSound : (s_fd : ℕ) {p q : Process} → Steps p q → IsSound s_fd p → IsSound s_fd q
Steps-IsSound s_fd (done p) h = h
Steps-IsSound s_fd (next p q r step rest) h = Steps-IsSound s_fd rest (Step-IsSound s_fd step h)
