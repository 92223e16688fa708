-- ===== src/Net/Select/Visit.antt =====
-- One turn of the sweep: what becomes of the set, its maximum and the clients.
use osh.Prelude.{
  ℕ, zero, suc, ◌≤◌, ◌<◌, ◌≡◌, ◌≢◌, sym, ap, ◌∙◌, List, [], ◌∷◌, ◌++◌, true, false, ◌&&◌, not, some,
  arith, ltb, lt→ltb, ◌==◌, ne→==, if◌then◌else◌, update, Bool-cases, inl, inr, append-nil,
  append_assoc, ==_refl, subst,
}
use native.Mathlib.Decide.{ℕ_discrete}
use osh.Net.Line.{finished, read_line}
use osh.Net.Select.{
  FdSet, fd_setsize, Event, accepted, greeted, served, Server, Round, lower, visit,
}
use osh.Net.Select.Invariant.{IsServer, lower-max}

-- A round in which accept(), if it is called, gives `newfd`, and every ready client sends its line.
pub record IsOrderly (line_fuel s_fd newfd : ℕ) (text : ℕ → List ℕ) (before : FdSet) (r : Round)
    : Type 0 where
  pub ready : (j : ℕ) → r.read_fds j ≡ true → before j ≡ true
  pub connects : r.read_fds s_fd ≡ true → r.connection ≡ some newfd
  pub fresh : before newfd ≡ false
  pub fits : newfd < fd_setsize
  pub lines :
      (i : ℕ)
      → r.read_fds i ≡ true
      → i ≢ s_fd
      → read_line line_fuel (r.input i) r.tmpchar ≡ finished (text i)

module _ (s_fd newfd : ℕ) (text : ℕ → List ℕ) (r : Round) where
  -- the set after the round: the new client is in, the clients that were ready are out
  abbrev pub after_round : FdSet → FdSet
  after_round before j =
      if r.read_fds s_fd && newfd == j
      then true
      else if r.read_fds j && not (j == s_fd)
      then false
      else before j

  -- what happens at descriptor `i`
  abbrev pub entry : ℕ → List Event
  entry i =
      if r.read_fds i
      then (if i == s_fd then accepted newfd ∷ [] else greeted i ∷ served i (text i) ∷ [])
      else []

  -- what happens below descriptor `i`, in order
  abbrev pub log : ℕ → List Event
  log zero = []
  log (suc i) = log i ++ entry i

  -- the set once all descriptors below `i` are done
  abbrev pub part_way : FdSet → ℕ → FdSet
  part_way before i j =
      if (ltb s_fd i && r.read_fds s_fd) && newfd == j
      then true
      else if (ltb j i && r.read_fds j) && not (j == s_fd)
      then false
      else before j

  pub record At (before : FdSet) (events : List Event) (i : ℕ) (s : Server) : Type 0 where
    pub server : IsServer s_fd s
    pub set : (j : ℕ) → s.master j ≡ part_way before i j
    pub happened : s.events ≡ events ++ log i

  module _ (line_fuel : ℕ) (before : FdSet) (o : IsOrderly line_fuel s_fd newfd text before r)
      (listening : before s_fd ≡ true) (events : List Event) where
    visit-idle :
        (i : ℕ) (s : Server)
        → r.read_fds i ≡ false
        → At before events i s
        → (s' : Server) × (visit line_fuel s_fd r i s ≡ finished s') × At before events (suc i) s'
    unfolding visit
    visit-idle i s idle a = (
      s,
      rw idle,
      record {
        server = a.server;
        set = λ j. ground (arith, a.set j, same j, same s_fd);
        happened = rw idle (rw append-nil a.happened);
      },
    )
      where
        same : (j : ℕ) → j ≡ i → r.read_fds j ≡ false
        same j e = ap r.read_fds e ∙ idle

    -- The server's socket: the new client joins the set.
    visit-accept :
        (s : Server)
        → r.read_fds s_fd ≡ true
        → At before events s_fd s
        → (s' : Server) × (visit line_fuel s_fd r s_fd s ≡ finished s')
          × At before events (suc s_fd) s'
          × (s.fdmax ≤ s'.fdmax)
    unfolding visit
    visit-accept s ready a = (
      record s {
        master = update s.master newfd true;
        fdmax = if ltb s.fdmax newfd then newfd else s.fdmax;
        events = s.events ++ accepted newfd ∷ [];
      },
      rw (ready, ==_refl s_fd, o.connects ready) (rw (lt→ltb _ _ o.fits)),
      record {
        server = record {
          listening = ground (arith, a.server.listening);
          reached = ground (arith, a.server.reached);
          above = λ j h. ground (arith, a.server.above j);
          in_range = ground (arith, a.server.in_range, o.fits);
        };
        set = λ j. ground (arith, a.set j, same j);
        happened =
            rw (ready, ==_refl s_fd)
              (ap (λ l. l ++ accepted newfd ∷ []) a.happened
                ∙ append_assoc events (log s_fd) (accepted newfd ∷ []));
      },
      ground arith,
    )
      where
        same : (j : ℕ) → j ≡ s_fd → r.read_fds j ≡ true
        same j e = ap r.read_fds e ∙ ready

    -- the maximum of the set without `i`
    new_max :
        (i : ℕ) (s : Server)
        → i ≢ s_fd
        → IsServer s_fd s
        → (n : ℕ) × ((if i == s.fdmax
              then lower (update s.master i false) s.fdmax
              else some s.fdmax)
            ≡ some n)
          × (update s.master i false n ≡ true)
          × (n < fd_setsize)
          × ((j : ℕ) → update s.master i false j ≡ true → j ≤ n)
    new_max i s ne v =
        let stays : update s.master i false s_fd ≡ true = ground (arith, v.listening) in
        elim (Bool-cases (i == s.fdmax)) [
          | inl top ↦
              let (n, e, hn, ln, max) =
                lower-max (update s.master i false) s.fdmax s_fd (v.above s_fd v.listening) stays in
              (n, rw top e, hn, omega (arith, v.in_range), λ j h. max j (still j h) h)
          | inr other ↦ (s.fdmax, rw other, rw (other) v.reached, v.in_range, λ j h. still j h)
        ]
      where
        still : (j : ℕ) → update s.master i false j ≡ true → j ≤ s.fdmax
        still j h = ground (arith, v.above j)

    -- A client's socket: it is served and leaves the set.
    visit-serve :
        (i : ℕ) (s : Server)
        → r.read_fds i ≡ true
        → i ≢ s_fd
        → At before events i s
        → (s' : Server) × (visit line_fuel s_fd r i s ≡ finished s') × At before events (suc i) s'
    unfolding visit
    visit-serve i s ready ne a =
        let (n, e, hn, ln, max) = new_max i s ne a.server in
        (
          record {
            master = update s.master i false;
            fdmax = n;
            events = s.events ++ greeted i ∷ served i (text i) ∷ [];
          },
          rw (ready, ne→== i s_fd ne, o.lines i ready ne) (rw e),
          record {
            server = record {
              listening = ground (arith, a.server.listening);
              reached = hn;
              above = max;
              in_range = ln;
            };
            set = λ j. ground (arith, a.set j, same j, o.ready j, kept j, new j);
            happened =
                rw (ready, ne→== i s_fd ne)
                  (ap (λ l. l ++ greeted i ∷ served i (text i) ∷ []) a.happened
                    ∙ append_assoc events (log i) (greeted i ∷ served i (text i) ∷ []));
          },
        )
      where
        same : (j : ℕ) → j ≡ i → r.read_fds j ≡ true
        same j h = ap r.read_fds h ∙ ready

        kept : (j : ℕ) → j ≡ i → before j ≡ true
        kept j h = ap before h ∙ o.ready i ready

        new : (j : ℕ) → newfd ≡ j → before j ≡ false
        new j h = ap before (sym h) ∙ o.fresh

    -- Any descriptor.
    pub visit-At :
        (i : ℕ) (s : Server)
        → At before events i s
        → (s' : Server) × (visit line_fuel s_fd r i s ≡ finished s') × At before events (suc i) s'
    visit-At i s a = elim (Bool-cases (r.read_fds i)) [
      | inr idle ↦ visit-idle i s idle a
      | inl ready ↦ elim (ℕ_discrete i s_fd) [
        | yes e ↦
            let (s', p, q, _) =
              visit-accept s (rw e at ready) (subst (λ (k : ℕ). At before events k s) e a) in
            (
              s',
              subst (λ (k : ℕ). visit line_fuel s_fd r k s ≡ finished s') (sym e) p,
              subst (λ (k : ℕ). At before events (suc k) s') (sym e) q,
            )
        | no ne ↦ visit-serve i s ready ne a
      ]
    ]
