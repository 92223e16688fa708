-- ===== src/Net/Hi/Handlers/Realised.antt =====
-- Whatever the threads do in whole steps they may do turn by turn, and the other way round.
use osh.Prelude.{
  ℕ, ◌≡◌, refl, sym, ap, ◌∙◌, subst, List, ◌∷◌, [], ◌++◌, Bool, true, false, none, some, ◌==◌,
  if◌then◌else◌, update, Bool-cases, inl, inr, ==_refl, ==_iff, some_inj, ◌↔◌,
}
use mathlib.Core.Path.{fun_ext}
use osh.Net.CString.{c_string}
use osh.Net.Line.{
  then_run-finished, checked-finished, finished, Reads, empty_line, read_loop, read_line,
}
use osh.Net.Hi.{Process, Step, Steps, Setup, Start, open_server, pthreads_server}
use osh.Net.Hi.Handlers.Track.{is_serving}
use osh.Net.Hi.Handlers.Simulation.{Acts-refines}
use osh.Net.Hi
use osh.Net.Hi.Handlers.{
  testing, closing, Crowd, create, create_fails, print, close, Acts, done, next, alone,
}
use osh.Net.Hi.Handlers.Turns.{append-Acts, read_loop-Acts}

-- The process with its threads before their first turn, where `future` is what each thread's client
-- is going to send, and the byte in its `tmpchar`.
abbrev starting : Process → (ℕ → Reads × ℕ) → Crowd
starting p future = record {
  is_open = p.is_open;
  handlers =
      λ j. if p.served j then some (testing (future j).0 0 (future j).1 false empty_line) else none;
  printed = p.printed;
}

created :
    (p : Process) (newfd : ℕ) (future : ℕ → Reads × ℕ)
    → update
        (starting p future).handlers
        newfd
        (some (testing (future newfd).0 0 (future newfd).1 false empty_line))
      ≡ (starting
          (record p { is_open = update p.is_open newfd true; served = update p.served newfd true })
          future).handlers
created p newfd future = fun_ext λ j. elim (Bool-cases (newfd == j)) [
  | inl t ↦ let same : newfd ≡ j = (==_iff newfd j).0 t in rw (t, same) refl
  | inr t ↦ rw t refl
]

-- A whole step of a thread, turn by turn.
handled :
    (p : Process) (line_fuel c_fd tmpchar : ℕ) (reads : Reads) (line : List ℕ)
    (future : ℕ → Reads × ℕ)
    → p.served c_fd ≡ true
    → read_line line_fuel reads tmpchar ≡ finished line
    → Acts (starting p (update future c_fd (reads, tmpchar))) (
        starting
          (record {
            is_open = update p.is_open c_fd false;
            served = update p.served c_fd false;
            printed = p.printed ++ (c_fd, line) ∷ [];
          })
          future)
unfolding read_line
handled p line_fuel c_fd tmpchar reads line future serves e =
    let before = update future c_fd (reads, tmpchar) in
    let p0 : Crowd = starting p before in
    let (l, ran, shown) =
      then_run-finished (read_loop line_fuel reads 0 tmpchar false empty_line) _ e in
    let (hs, acts, there, others) =
      read_loop-Acts line_fuel p0 c_fd 0 tmpchar reads false empty_line l.0 l.1
        (rw (serves, ==_refl c_fd) refl) ran in
    let p1 : Crowd = record p0 { handlers = hs } in
    let p2 : Crowd = record p1 {
      handlers = update hs c_fd (some closing);
      printed = p.printed ++ (c_fd, line) ∷ [];
    } in
    let p3 : Crowd = record p2 {
      is_open = update p.is_open c_fd false;
      handlers = update p2.handlers c_fd none;
    } in
    let last : p3.handlers ≡ (λ j.
      if update p.served c_fd false j
      then some (testing (future j).0 0 (future j).1 false empty_line)
      else none) =
      fun_ext λ j. elim (Bool-cases (c_fd == j)) [
        | inl t ↦ rw t refl
        | inr t ↦ rw t (others j t ∙ rw t refl)
      ] in
    subst (λ handlers. Acts p0 (record p3 { handlers = handlers })) last
      (append-Acts acts (
        next p1 p2 p3 (print p1 c_fd l.0 line there (checked-finished (c_string l.0) shown))
          (next p2 p3 p3 (close p2 c_fd (rw ==_refl refl)) (done p3))))

Step-Acts :
    {p q : Process} (future : ℕ → Reads × ℕ)
    → Step p q
    → (before : ℕ → Reads × ℕ) × Acts (starting p before) (starting q future)
unfolding read_line
Step-Acts future (Hi.accept_fails p) = (future, done _)
Step-Acts future (Hi.create p newfd free) =
    let p' : Process = record p {
      is_open = update p.is_open newfd true;
      served = update p.served newfd true;
    } in
    (
      future,
      subst (λ hs. Acts (starting p future) (record (starting p' future) { handlers = hs }))
          (created p newfd future)
          (next _ _ _ (create (starting p future) newfd (future newfd).1 (future newfd).0 free)
            (done _)),
    )
Step-Acts future (Hi.create_fails p newfd free) =
    (future, next _ _ _ (create_fails (starting p future) newfd free) (done _))
Step-Acts future (Hi.handle p line_fuel c_fd tmpchar reads line serves e) = (
  update future c_fd (reads, tmpchar),
  handled p line_fuel c_fd tmpchar reads line future serves e,
)

Steps-Acts :
    {p q : Process}
    → Steps p q
    → (before after : ℕ → Reads × ℕ) × Acts (starting p before) (starting q after)
Steps-Acts (Hi.done p) = ((λ _. ((λ _. none), 0)), (λ _. ((λ _. none), 0)), done _)
Steps-Acts (Hi.next p q r step rest) =
    let (middle, after, acts) = Steps-Acts rest in
    let (before, first) = Step-Acts middle step in (before, after, append-Acts first acts)

serving_at :
    (p : Process) (future : ℕ → Reads × ℕ) (j : ℕ)
    → is_serving ((starting p future).handlers j) ≡ p.served j
serving_at p future j = elim (Bool-cases (p.served j)) [ inl t ↦ rw t refl | inr t ↦ rw t refl ]

-- From the loop of the server on, taken turn by turn, its main thread and its clients' threads can
-- come to print some lines in some order, and to serve some descriptors by threads that have not
-- printed, exactly if they can do so where a thread reads, prints and closes in one step.
pub Acts-Steps :
    (os : Setup) (s_fd : ℕ) (p : Process) (lines : List (ℕ × List ℕ)) (serving : ℕ → Bool)
    → open_server os ≡ Start.listening s_fd
    → pthreads_server os ≡ some p
    → ((r : Crowd) × Acts (alone s_fd) r
        × (r.printed ≡ lines)
        × ((j : ℕ) → is_serving (r.handlers j) ≡ serving j))
      ↔ ((q : Process) × Steps p q × (q.printed ≡ lines) × ((j : ℕ) → q.served j ≡ serving j))
unfolding pthreads_server
Acts-Steps os s_fd p lines serving e start = (
  λ (r, acts, printed, served).
      let (p', q, e', steps, same, serves, _) = Acts-refines os s_fd r e acts in
      let begin : p' ≡ p = some_inj (sym e' ∙ start) in
      (q, subst (λ (x : Process). Steps x q) begin steps, same ∙ printed, λ j. serves j ∙ served j),
  λ (q, steps, printed, served).
      let (before, after, acts) = Steps-Acts steps in
      let begin : p
          ≡ record { is_open = update (λ _. false) s_fd true; served = λ _. false; printed = [] } =
        some_inj (sym start ∙ rw (pthreads_server, e) refl) in
      let at_start : starting p before ≡ alone s_fd =
        ap (λ (x : Process). starting x before) begin in
      (
        starting q after,
        subst (λ (c : Crowd). Acts c (starting q after)) at_start acts,
        printed,
        λ j. serving_at q after j ∙ served j,
      ),
)
