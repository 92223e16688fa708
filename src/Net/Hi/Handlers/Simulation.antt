-- ===== src/Net/Hi/Handlers/Simulation.antt =====
-- A client's thread may be taken for one step.
use osh.Prelude.{
  ℕ, ◌≡◌, refl, ap, subst, List, ◌∷◌, [], ◌++◌, true, false, not, ◌&&◌, Option, none, some, arith,
  ◌==◌, update, Bool-cases, inl, inr,
}
use osh.Net.Line.{finished, empty_line, read_line}
use osh.Net.Hi.{Process, Step, Steps, Setup, Start, open_server, pthreads_server}
use osh.Net.Hi
use osh.Net.Hi.Handlers.{
  Handler, testing, printing, closing, Crowd, Act, accept_fails, create, create_fails, loop, print,
  close, Acts, done, next, alone,
}
use osh.Net.Hi.Handlers.Track.{
  OnTrack, turn-OnTrack, is_serving, is_closing, AllOnTrack, turn-is_serving,
}

-- The process in which a thread is one step, which has closed the descriptors of the threads that
-- have printed.
record Matches (p : Crowd) (q : Process) : Type 0 where
  opened : (j : ℕ) → q.is_open j ≡ (p.is_open j && not (is_closing (p.handlers j)))
  served : (j : ℕ) → q.served j ≡ is_serving (p.handlers j)
  printed : q.printed ≡ p.printed
  on_track : (j : ℕ) → AllOnTrack (p.handlers j)
  usable : (j : ℕ) → p.is_open j ≡ false → p.handlers j ≡ none

update-OnTrack :
    (handlers : ℕ → Option Handler) (fd : ℕ) (o : Option Handler)
    → ((j : ℕ) → AllOnTrack (handlers j))
    → AllOnTrack o
    → (j : ℕ) → AllOnTrack (update handlers fd o j)
update-OnTrack handlers fd o all new j = elim (Bool-cases (fd == j)) [
  | inl t ↦ rw t new
  | inr t ↦ rw t (all j)
]

create-Matches :
    (p : Crowd) (q : Process) (newfd : ℕ) (h : Handler)
    → Matches p q
    → OnTrack h
    → is_serving (some h) ≡ true
    → is_closing (some h) ≡ false
    → Matches
        (record p {
          is_open = update p.is_open newfd true;
          handlers = update p.handlers newfd (some h);
        })
        (record q { is_open = update q.is_open newfd true; served = update q.served newfd true })
create-Matches p q newfd h m track serves stays = record {
  opened = λ j. ground (arith, m.opened j);
  served = λ j. ground (arith, m.served j);
  printed = m.printed;
  on_track = update-OnTrack p.handlers newfd (some h) m.on_track track;
  usable = λ j. ground (arith, m.usable j);
}

create_fails-Matches :
    (p : Crowd) (q : Process) (newfd : ℕ)
    → Matches p q
    → p.is_open newfd ≡ false
    → Matches
        (record p { is_open = update p.is_open newfd true })
        (record q { is_open = update q.is_open newfd true })
create_fails-Matches p q newfd m free = record {
  opened = λ j. ground (arith, m.opened j, m.usable j);
  served = m.served;
  printed = m.printed;
  on_track = m.on_track;
  usable = λ j. ground (arith, m.usable j);
}

-- a thread that goes on and still serves its client
loop-Matches :
    (p : Crowd) (q : Process) (fd : ℕ) (h h' : Handler)
    → Matches p q
    → p.handlers fd ≡ some h
    → OnTrack h'
    → is_serving (some h) ≡ true
    → is_closing (some h) ≡ false
    → is_serving (some h') ≡ true
    → is_closing (some h') ≡ false
    → Matches (record p { handlers = update p.handlers fd (some h') }) q
loop-Matches p q fd h h' m at track s c s' c' = record {
  opened = λ j. ground (arith, m.opened j);
  served = λ j. ground (arith, m.served j);
  printed = m.printed;
  on_track = update-OnTrack p.handlers fd (some h') m.on_track track;
  usable = λ j. ground (arith, m.usable j);
}

print-Matches :
    (p : Crowd) (q : Process) (fd : ℕ) (clientline text : List ℕ)
    → Matches p q
    → p.handlers fd ≡ some (printing clientline)
    → Matches
        (record p {
          handlers = update p.handlers fd (some closing);
          printed = p.printed ++ (fd, text) ∷ [];
        })
        (record {
          is_open = update q.is_open fd false;
          served = update q.served fd false;
          printed = q.printed ++ (fd, text) ∷ [];
        })
print-Matches p q fd clientline text m at = record {
  opened = λ j. ground (arith, m.opened j);
  served = λ j. ground (arith, m.served j);
  printed = ap (λ l. l ++ (fd, text) ∷ []) m.printed;
  on_track = update-OnTrack p.handlers fd (some closing) m.on_track tt;
  usable = λ j. ground (arith, m.usable j);
}

close-Matches :
    (p : Crowd) (q : Process) (fd : ℕ)
    → Matches p q
    → p.handlers fd ≡ some closing
    → Matches
        (record p { is_open = update p.is_open fd false; handlers = update p.handlers fd none })
        q
close-Matches p q fd m at = record {
  opened = λ j. ground (arith, m.opened j);
  served = λ j. ground (arith, m.served j);
  printed = m.printed;
  on_track = update-OnTrack p.handlers fd none m.on_track tt;
  usable = λ j. ground (arith, m.usable j);
}

-- what the map of handlers says of the thread at its turn
OnTrack-at :
    {p : Crowd} {q : Process} (fd : ℕ) {h : Handler}
    → Matches p q
    → p.handlers fd ≡ some h
    → OnTrack h
OnTrack-at fd m at = subst AllOnTrack at (m.on_track fd)

one : {q r : Process} → Step q r → Steps q r
one {q} {r} step = Hi.next q r r step (Hi.done r)

-- One step is simulated by one step or by none.
Act-Matches :
    {p r : Crowd} (q : Process) → Act p r → Matches p q → (q' : Process) × Steps q q' × Matches r q'
unfolding read_line
Act-Matches q (accept_fails p) m = (q, Hi.done q, m)
Act-Matches q (create p newfd tmpchar reads free) m =
    let start : Handler = testing reads 0 tmpchar false empty_line in
    let unused : q.is_open newfd ≡ false = rw (m.opened newfd, free) refl in
    (
      _,
      one (Hi.create q newfd unused),
      create-Matches p q newfd start m (0, tmpchar, λ fuel. refl) refl refl,
    )
Act-Matches q (create_fails p newfd free) m =
    let unused : q.is_open newfd ≡ false = rw (m.opened newfd, free) refl in
    (_, one (Hi.create_fails q newfd unused), create_fails-Matches p q newfd m free)
Act-Matches q (loop p c_fd k tmpchar reads eob clientline h at e) m =
    let track = turn-OnTrack reads k tmpchar eob clientline (OnTrack-at c_fd m at) e in
    let (serves, stays) = turn-is_serving reads k tmpchar eob clientline e in
    (q, Hi.done q, loop-Matches p q c_fd _ h m at track refl refl serves stays)
Act-Matches q (print p c_fd clientline text at e) m =
    let (fuel, stale, k, reads, ran) = OnTrack-at c_fd m at in
    let serves : q.served c_fd ≡ true = rw (m.served c_fd, at) refl in
    let line : read_line fuel reads stale ≡ finished text = rw (ran, e) refl in
    (
      _,
      one (Hi.handle q fuel c_fd stale reads text serves line),
      print-Matches p q c_fd clientline text m at,
    )
Act-Matches q (close p c_fd at) m = (q, Hi.done q, close-Matches p q c_fd m at)

append_steps : {p q r : Process} → Steps p q → Steps q r → Steps p r
append_steps (Hi.done p) ss = ss
append_steps (Hi.next p q r step rest) ss = Hi.next p q _ step (append_steps rest ss)

Acts-Matches :
    {p r : Crowd} (q : Process)
    → Acts p r
    → Matches p q
    → (q' : Process) × Steps q q' × Matches r q'
Acts-Matches q (done p) m = (q, Hi.done q, m)
Acts-Matches q (next p p' r act rest) m =
    let (q1, steps1, m1) = Act-Matches q act m in
    let (q2, steps2, m2) = Acts-Matches q1 rest m1 in (q2, append_steps steps1 steps2, m2)

-- Where the start of the server comes to its loop, whatever the main thread and the turns of the
-- clients' threads do from there, in any order, the steps in which a thread reads, prints and closes
-- at once print the same lines in the same order. They serve the descriptors of exactly the threads
-- that have not printed, and the same descriptors are open but those of the threads that have
-- printed and not yet closed.
pub Acts-refines :
    (os : Setup) (s_fd : ℕ) (r : Crowd)
    → open_server os ≡ Start.listening s_fd
    → Acts (alone s_fd) r
    → (p q : Process) × (pthreads_server os ≡ some p)
      × Steps p q
      × (q.printed ≡ r.printed)
      × ((j : ℕ) → q.served j ≡ is_serving (r.handlers j))
      × ((j : ℕ) → q.is_open j ≡ (r.is_open j && not (is_closing (r.handlers j))))
unfolding pthreads_server
Acts-refines os s_fd r e acts =
    let p : Process = record {
      is_open = update (λ _. false) s_fd true;
      served = λ _. false;
      printed = [];
    } in
    let m : Matches (alone s_fd) p = record {
      opened = λ j. ground arith;
      served = λ j. refl;
      printed = refl;
      on_track = λ j. tt;
      usable = λ j _. refl;
    } in
    let (q, steps, m') = Acts-Matches p acts m in
    (p, q, rw (pthreads_server, e) refl, steps, m'.printed, m'.served, m'.opened)
