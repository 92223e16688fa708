-- ===== src/Net/Hi/Leaks.antt =====
-- Which descriptors of the pthreads server are open.
use osh.Prelude.{ℕ, ◌≡◌, refl, Bool, true, false, ◌||◌, arith, ◌==◌, subst, some, some_inj}
use osh.Net.Hi.{
  Setup, Start, open_server, pthreads_server, Process, Step, accept_fails, create, create_fails,
  handle, Steps, done, next,
}

-- the descriptor of a connection for which pthread_create() has failed in this step
abbrev lost_in : {p q : Process} → Step p q → ℕ → Bool
lost_in (accept_fails p) j = false
lost_in (create p newfd free) j = false
lost_in (create_fails p newfd free) j = newfd == j
lost_in (handle p line_fuel c_fd tmpchar reads line running e) j = false

-- the descriptors of all connections for which it has failed
abbrev pub lost : {p q : Process} → Steps p q → ℕ → Bool
lost (done p) j = false
lost (next p q r step rest) j = lost_in step j || lost rest j

-- The open descriptors are the server's socket, those that threads serve, and those in `leaks`; the
-- three have none in common.
pub record IsAccounted (s_fd : ℕ) (leaks : ℕ → Bool) (p : Process) : Type 0 where
  pub opened : (j : ℕ) → p.is_open j ≡ ((s_fd == j) || (p.served j || leaks j))
  pub own : (p.served s_fd ≡ false) × (leaks s_fd ≡ false)
  pub apart : (j : ℕ) → leaks j ≡ true → p.served j ≡ false

Step-IsAccounted :
    (s_fd : ℕ) (leaks : ℕ → Bool) {p q : Process} (step : Step p q)
    → IsAccounted s_fd leaks p
    → IsAccounted s_fd (λ j. leaks j || lost_in step j) q
Step-IsAccounted s_fd leaks (accept_fails p) h = record {
  opened = λ j. ground (arith, h.opened j);
  own = (h.own.0, ground (arith, h.own.1));
  apart = λ j. ground (arith, h.apart j);
}
Step-IsAccounted s_fd leaks (create p newfd free) h = record {
  opened = λ j. ground (arith, h.opened j);
  own = ground (arith, h.own.0, h.own.1, h.opened s_fd, h.opened newfd);
  apart = λ j. ground (arith, h.apart j, h.opened j);
}
Step-IsAccounted s_fd leaks (create_fails p newfd free) h = record {
  opened = λ j. ground (arith, h.opened j);
  own = ground (arith, h.own.0, h.own.1, h.opened s_fd);
  apart = λ j. ground (arith, h.apart j, h.opened j);
}
Step-IsAccounted s_fd leaks (handle p line_fuel c_fd tmpchar reads line running e) h = record {
  opened = λ j. ground (arith, h.opened j, h.own.0, h.apart j);
  own = ground (arith, h.own.0, h.own.1);
  apart = λ j. ground (arith, h.apart j);
}

Steps-IsAccounted :
    (s_fd : ℕ) (leaks : ℕ → Bool) {p q : Process} (steps : Steps p q)
    → IsAccounted s_fd leaks p
    → IsAccounted s_fd (λ j. leaks j || lost steps j) q
Steps-IsAccounted s_fd leaks (done p) h = subst (λ f. IsAccounted s_fd f p) (λ i j. none_more j i) h
  where
    none_more : (j : ℕ) → leaks j ≡ (leaks j || false)
    none_more j = ground arith
Steps-IsAccounted s_fd leaks (next p q r step rest) h =
    subst (λ f. IsAccounted s_fd f r) (λ i j. both j i)
      (Steps-IsAccounted s_fd (λ j. leaks j || lost_in step j) rest
        (Step-IsAccounted s_fd leaks step h))
  where
    both :
        (j : ℕ)
        → ((leaks j || lost_in step j) || lost rest j)
          ≡ (leaks j || (lost_in step j || lost rest j))
    both j = ground arith

start-IsAccounted :
    (s_fd : ℕ) (os : Setup) {p : Process}
    → open_server os ≡ Start.listening s_fd
    → pthreads_server os ≡ some p
    → IsAccounted s_fd (λ _. false) p
unfolding pthreads_server
start-IsAccounted s_fd os {p} e h =
    subst (IsAccounted s_fd (λ _. false)) (some_inj (rw (pthreads_server, e) at h))
      (record { opened = λ j. ground arith; own = (refl, refl); apart = λ j. ground arith })

-- From its start on and in every interleaving of the main thread and the clients' threads, the
-- descriptors that the pthreads server has open are its socket, those that a thread serves, and,
-- for ever, those of the connections for which pthread_create() has failed; no descriptor is of two
-- of these kinds.
pub pthreads_server-IsAccounted :
    (s_fd : ℕ) (os : Setup) {p q : Process}
    → open_server os ≡ Start.listening s_fd
    → pthreads_server os ≡ some p
    → (steps : Steps p q) → IsAccounted s_fd (lost steps) q
pthreads_server-IsAccounted s_fd os e h steps =
    Steps-IsAccounted s_fd (λ _. false) steps (start-IsAccounted s_fd os e h)
