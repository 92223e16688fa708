-- ===== src/Net/Select/Sweep.antt =====
-- One round: which clients are served, and what the set and its maximum are afterwards.
use osh.Prelude.{
  ℕ, zero, suc, ◌+◌, ◌-◌, ◌≤◌, ◌<◌, ◌≡◌, sym, ap, ◌∙◌, List, ◌++◌, true, false, arith, leb,
  Bool-cases, inl, inr, append-nil,
}
use Prim.Native.Nat.add
use native.Mathlib.Decide.{dec_le}
use osh.Net.Line.{finished}
use osh.Net.Select.{FdSet, fd_setsize, Event, Server, Round, sweep}
use osh.Net.Select.Invariant.{IsServer}
use osh.Net.Select.Visit.{IsOrderly, after_round, log, At, visit-At}

module _ (s_fd newfd : ℕ) (text : ℕ → List ℕ) (r : Round) (line_fuel : ℕ) (before : FdSet)
    (o : IsOrderly line_fuel s_fd newfd text before r) (listening : before s_fd ≡ true)
    (events : List Event) where
  -- The loop ends, past the maximum of the set.
  sweep-At :
      (fuel i : ℕ) (s : Server)
      → fd_setsize < i + fuel
      → i ≤ fd_setsize
      → At s_fd newfd text r before events i s
      → (s' : Server) × (e : ℕ) × (sweep line_fuel s_fd r fuel i s ≡ finished s')
        × At s_fd newfd text r before events e s'
        × (s'.fdmax < e)
        × (e ≤ fd_setsize)
  unfolding sweep
  sweep-At zero i s enough le a = absurd (omega arith)
  sweep-At (suc fuel) i s enough le a = elim (dec_le i s.fdmax) [
    | no past ↦ let t : leb i s.fdmax ≡ false = ground arith in (s, i, rw t, a, omega arith, le)
    | yes more ↦
        let t : leb i s.fdmax ≡ true = ground arith in
        let (s₁, p, a₁) = visit-At s_fd newfd text r line_fuel before o listening events i s a in
        let next : i + 1 ≡ suc i = omega arith in
        let (s', e, q, a', lt, le') =
          sweep-At fuel (suc i) s₁ (omega arith) (omega (arith, a.server.in_range)) a₁ in
        (s', e, rw t (rw p (rw next q)), a', lt, le')
  ]

  -- No ready descriptor is left beyond the end of the loop.
  none_beyond :
      (e j : ℕ) (s : Server)
      → At s_fd newfd text r before events e s
      → s.fdmax < e
      → e ≤ j
      → r.read_fds j ≡ false
  none_beyond e j s a past le = elim (Bool-cases (r.read_fds j)) [
    | inr idle ↦ idle
    | inl ready ↦
        let there : s.master j ≡ true = ground (arith, a.set j, o.ready j ready) in
        absurd (omega (arith, a.server.above j there))
  ]

  log-beyond :
      (e k : ℕ)
      → ((j : ℕ) → e ≤ j → r.read_fds j ≡ false)
      → log s_fd newfd text r (k + e) ≡ log s_fd newfd text r e
  log-beyond e zero h = rw add.zero
  log-beyond e (suc k) h =
      rw add.suc (rw (h (k + e) (omega arith)) (rw append-nil (log-beyond e k h)))

  -- A round in which select() gives descriptors of the set, accept() a free one below FD_SETSIZE,
  -- and every ready client's line is read, on a set whose largest descriptor is in `fdmax`: the
  -- sweep greets and serves the ready clients, each once and in the order of their descriptors,
  -- accepts the connection if the server's own socket is ready, and ends; afterwards the set has
  -- lost the served clients and gained the new one, its maximum is in `fdmax`, and the server's
  -- socket is still in it.
  pub sweep-round :
      (s : Server)
      → IsServer s_fd s
      → s.master ≡ before
      → s.events ≡ events
      → (s' : Server) × (sweep line_fuel s_fd r (fd_setsize + 1) 0 s ≡ finished s')
        × IsServer s_fd s'
        × ((j : ℕ) → s'.master j ≡ after_round s_fd newfd text r before j)
        × (s'.events ≡ events ++ log s_fd newfd text r fd_setsize)
  sweep-round s v em ee =
      let begin : At s_fd newfd text r before events 0 s = record {
        server = v;
        set = λ j. ap (λ f. f j) em ∙ ground arith;
        happened = rw append-nil ee;
      } in
      let (s', e, p, a, past, le) =
        sweep-At (fd_setsize + 1) 0 s (omega arith) (omega arith) begin in
      let all : fd_setsize ≡ fd_setsize - e + e = omega arith in
      (
        s',
        p,
        a.server,
        λ j.
            ground
              (arith, a.set j, none_beyond e j s' a past, a.server.above s_fd a.server.listening),
        a.happened
            ∙ ap (λ l. events ++ l)
                (sym (log-beyond e (fd_setsize - e) (λ j. none_beyond e j s' a past))
                  ∙ ap (λ (k : ℕ). log s_fd newfd text r k) (sym all)),
      )
