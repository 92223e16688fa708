-- ===== src/Net/Select/Blocked.antt =====
-- Rounds that the select server does not come through.
use osh.Prelude.{
  ℕ, zero, suc, ◌+◌, ◌≤◌, ◌<◌, ◌≡◌, ◌≢◌, ap, ◌∙◌, true, false, none, arith, leb, ne→==, ==_refl,
}
use osh.Net.Line.{faulted, running, received}
use osh.Net.Line.Ends.{read_line-silent}
use osh.Net.Select.{Server, Round, accept_client, serve_client, visit, sweep}

-- Descriptors that are not ready are passed over.
sweep-skip :
    (line_fuel s_fd : ℕ) (r : Round) (d fuel i j : ℕ) (s : Server)
    → i + d ≡ j
    → ((k : ℕ) → k < j → r.read_fds k ≡ false)
    → j ≤ s.fdmax
    → d < fuel
    → (rest : ℕ) × (sweep line_fuel s_fd r fuel i s ≡ sweep line_fuel s_fd r (suc rest) j s)
unfolding sweep visit
sweep-skip line_fuel s_fd r d zero i j s at below le enough = elim enough [ ]
sweep-skip line_fuel s_fd r zero (suc fuel) i j s at below le enough =
    let here : i ≡ j = omega arith in (fuel, ap (λ k. sweep line_fuel s_fd r (suc fuel) k s) here)
sweep-skip line_fuel s_fd r (suc d) (suc fuel) i j s at below le enough =
    let t : leb i s.fdmax ≡ true = ground arith in
    let (rest, e) =
      sweep-skip line_fuel s_fd r d fuel (i + 1) j s (omega arith) below le (omega arith) in
    (rest, rw t (rw (below i (omega arith)) e))

-- A ready server socket whose accept() fails, with no ready client below it, ends in undefined
-- behaviour: the code goes on to FD_SET(-1, &master).
pub sweep-accept_failed :
    (line_fuel s_fd : ℕ) (r : Round) (fuel d i : ℕ) (s : Server)
    → i + d ≡ s_fd
    → d < fuel
    → ((j : ℕ) → j < s_fd → r.read_fds j ≡ false)
    → r.read_fds s_fd ≡ true
    → r.connection ≡ none
    → s_fd ≤ s.fdmax
    → sweep line_fuel s_fd r fuel i s ≡ faulted
unfolding sweep visit accept_client
sweep-accept_failed line_fuel s_fd r fuel d i s at enough below ready failed le =
    let t : leb s_fd s.fdmax ≡ true = ground arith in
    let (rest, e) = sweep-skip line_fuel s_fd r d fuel i s_fd s at below le enough in
    e ∙ rw t (rw (ready, ==_refl s_fd, failed))

-- A client that is the first ready descriptor and sends nothing but NULs, or closes at
-- once while the stale byte is NUL, holds up the whole server: its sweep does not end with any
-- number of turns for the line, so no descriptor after it is ever served.
pub sweep-silent :
    (line_fuel s_fd : ℕ) (r : Round) (fuel d i client : ℕ) (s : Server)
    → i + d ≡ client
    → d < fuel
    → ((j : ℕ) → j < client → r.read_fds j ≡ false)
    → r.read_fds client ≡ true
    → client ≢ s_fd
    → client ≤ s.fdmax
    → received (r.input client 0) r.tmpchar ≡ 0
    → ((j : ℕ) → received (r.input client j) 0 ≡ 0)
    → sweep line_fuel s_fd r fuel i s ≡ running
unfolding sweep visit serve_client
sweep-silent line_fuel s_fd r fuel d i client s at enough below ready other le now later =
    let t : leb client s.fdmax ≡ true = ground arith in
    let (rest, e) = sweep-skip line_fuel s_fd r d fuel i client s at below le enough in
    e
    ∙ rw t (
        rw (ready, ne→== client s_fd other)
          (rw (read_line-silent line_fuel r.tmpchar (r.input client) now later)))
