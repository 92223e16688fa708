-- ===== src/Net/Select/Invariant.antt =====
-- What holds of the select server between the turns of its loops.
use osh.Prelude.{
  ℕ, zero, suc, ◌≤◌, ◌<◌, ◌≡◌, ◌≢◌, ap, true, false, some, arith, Bool-cases, inl, inr,
}
use osh.Net.Select.{FdSet, fd_setsize, Server, lower}

-- `fdmax` is the largest descriptor in the set, which holds the server's socket and lies in range.
pub record IsServer (s_fd : ℕ) (s : Server) : Type 0 where
  pub listening : s.master s_fd ≡ true
  pub reached : s.master s.fdmax ≡ true
  pub above : (j : ℕ) → s.master j ≡ true → j ≤ s.fdmax
  pub in_range : s.fdmax < fd_setsize

le_of_not_last :
    (master : FdSet) {fdmax k : ℕ}
    → k ≤ suc fdmax
    → master k ≡ true
    → master (suc fdmax) ≡ false
    → k ≤ fdmax
le_of_not_last master {fdmax} {k} le h t =
    let ne : k ≢ suc fdmax = λ e. cc (ap master e) in omega arith

-- `lower` finds the largest descriptor that is left.
pub lower-max :
    (master : FdSet) (fdmax k : ℕ)
    → k ≤ fdmax
    → master k ≡ true
    → (n : ℕ) × (lower master fdmax ≡ some n)
      × (master n ≡ true)
      × (n ≤ fdmax)
      × ((j : ℕ) → j ≤ fdmax → master j ≡ true → j ≤ n)
unfolding lower
lower-max master zero k le h =
    let e : k ≡ 0 = omega arith in (0, rw (rw e at h), rw e at h, omega arith, λ j p q. p)
lower-max master (suc fdmax) k le h = elim (Bool-cases (master (suc fdmax))) [
  | inl t ↦ (suc fdmax, rw t, t, omega arith, λ j p q. p)
  | inr t ↦
      let (n, e, hn, ln, top) = lower-max master fdmax k (le_of_not_last master le h t) h in
      (n, rw t e, hn, omega arith, λ j p q. top j (le_of_not_last master p q t) q)
]
