-- ===== src/Net/Select/Rounds.antt =====
-- The whole of TCPserverSelectHi.c over rounds in which every ready client sends its line.
use osh.Prelude.{
  ℕ, ◌<◌, ◌≡◌, refl, sym, ap, ◌∙◌, subst, List, [], ◌∷◌, ◌++◌, true, false, some, arith, lt→ltb,
  update, append_assoc, append-nil,
}
use mathlib.Core.List.{map}
use osh.Net.Line.{finished}
use osh.Net.Hi.{Setup, Start, open_server}
use osh.Net.Select.{
  FdSet, fd_setsize, Event, Server, Round, start, serve_rounds, serve_from, select_server,
}
use osh.Net.Select.Invariant.{IsServer}
use osh.Net.Select.Visit.{IsOrderly, after_round, log}
use osh.Net.Select.Sweep.{sweep-round}

-- A round, the descriptor of its connection, and the line of each client.
abbrev pub Story : Type 0
Story = Round × ℕ × (ℕ → List ℕ)

abbrev pub rounds_of : List Story → List Round
rounds_of = map (λ s. s.0)

-- Every round is orderly for the set that the rounds before it leave.
abbrev pub AreOrderly : ℕ → ℕ → FdSet → List Story → Type 0
AreOrderly line_fuel s_fd before [] = Unit
AreOrderly line_fuel s_fd before ((r, newfd, text) ∷ rest) =
    IsOrderly line_fuel s_fd newfd text before r
    × AreOrderly line_fuel s_fd (after_round s_fd newfd text r before) rest

-- what happens, round by round
abbrev pub logs : ℕ → List Story → List Event
logs s_fd [] = []
logs s_fd ((r, newfd, text) ∷ rest) = log s_fd newfd text r fd_setsize ++ logs s_fd rest

serve_rounds-logs :
    (line_fuel s_fd : ℕ) (stories : List Story) (s : Server)
    → IsServer s_fd s
    → AreOrderly line_fuel s_fd s.master stories
    → (s' : Server) × (serve_rounds line_fuel s_fd (rounds_of stories) s ≡ finished s')
      × IsServer s_fd s'
      × (s'.events ≡ s.events ++ logs s_fd stories)
unfolding serve_rounds
serve_rounds-logs line_fuel s_fd [] s h o = (s, refl, h, sym (append-nil s.events))
serve_rounds-logs line_fuel s_fd ((r, newfd, text) ∷ rest) s h o =
    let (s₁, e₁, h₁, set, told) =
      sweep-round s_fd newfd text r line_fuel s.master o.0 (h.listening) s.events s h refl refl in
    let same : s₁.master ≡ after_round s_fd newfd text r s.master = λ i j. set j i in
    let (s₂, e₂, h₂, more) =
      serve_rounds-logs line_fuel s_fd rest s₁ h₁
        (subst (λ m. AreOrderly line_fuel s_fd m rest) (sym same) o.1) in
    (
      s₂,
      rw e₁ e₂,
      h₂,
      more
          ∙ ap (λ l. l ++ logs s_fd rest) told
          ∙ append_assoc s.events (log s_fd newfd text r fd_setsize) (logs s_fd rest),
    )

-- The server whose socket is opened below FD_SETSIZE serves to its end any sequence of rounds in
-- which select() gives descriptors of the set, accept() a free one below FD_SETSIZE, and every ready
-- client's line is read: in each round it greets and serves the ready clients, in the order of
-- their descriptors, and accepts the connection, each once and nothing else; its set and maximum
-- are consistent afterwards.
pub select_server-logs :
    (line_fuel s_fd : ℕ) (os : Setup) (stories : List Story)
    → open_server os ≡ Start.listening s_fd
    → s_fd < fd_setsize
    → AreOrderly line_fuel s_fd (update (λ _. false) s_fd true) stories
    → (s' : Server) × (select_server line_fuel os (rounds_of stories) ≡ finished (some s'))
      × IsServer s_fd s'
      × (s'.events ≡ logs s_fd stories)
unfolding select_server start
select_server-logs line_fuel s_fd os stories e small o =
    let begin : Server = record {
      master = update (λ _. false) s_fd true;
      fdmax = s_fd;
      events = [];
    } in
    let sound : IsServer s_fd begin = record {
      listening = ground arith;
      reached = ground arith;
      above = λ j. ground arith;
      in_range = small;
    } in
    let (s', p, h, q) = serve_rounds-logs line_fuel s_fd stories begin sound o in
    (s', ap (serve_from line_fuel (rounds_of stories)) e ∙ rw (lt→ltb _ _ small) (rw p), h, q)
