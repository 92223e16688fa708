-- ===== src/Net/Examples/Rounds.antt =====
-- The theorems on the select server at concrete inputs.
use osh.Prelude.{
  ℕ, false, ◌+◌, ◌≡◌, refl, List, [], ◌∷◌, ◌++◌, true, none, some, arith, ◌==◌, ◌||◌, update,
}
use osh.Net.Line.{finished, running}
use osh.Net.Select.{FdSet, fd_setsize, Server, Round, sweep, select_server}
use osh.Net.Select.Invariant.{IsServer}
use osh.Net.Select.Visit.{IsOrderly, after_round, log}
use osh.Net.Select.Sweep.{sweep-round}
use osh.Net.Select.Blocked.{sweep-silent}
use osh.Net.Select.Rounds.{Story, rounds_of, logs, select_server-logs}
use osh.Net.Examples.{setup, setup-listening, hi_line-read, sent, hi_line, open_fds, server}

server-IsServer : IsServer 3 server
server-IsServer = record {
  listening = refl;
  reached = refl;
  above = λ j h. ground arith;
  in_range = omega arith;
}

-- a new connection 6, and a line from client 5
abbrev round : Round
round = record {
  read_fds = λ j. j == 3 || j == 5;
  connection = some 6;
  input = λ _. sent hi_line;
  tmpchar = 0;
}

round-IsOrderly : IsOrderly 4 3 6 (λ _. hi_line) open_fds round
round-IsOrderly = record {
  ready = λ j h. ground arith;
  connects = λ _. refl;
  fresh = refl;
  fits = omega arith;
  lines = λ i h ne. hi_line-read;
}

sweep-round_example :
    (s' : Server) × (sweep 4 3 round (fd_setsize + 1) 0 server ≡ finished s')
    × IsServer 3 s'
    × ((j : ℕ) → s'.master j ≡ after_round 3 6 (λ _. hi_line) round open_fds j)
    × (s'.events ≡ [] ++ log 3 6 (λ _. hi_line) round fd_setsize)
sweep-round_example =
    sweep-round 3 6 (λ _. hi_line) round 4 open_fds round-IsOrderly refl [] server server-IsServer
      refl refl

abbrev failed_round : Round
failed_round = record {
  read_fds = λ j. j == 3;
  connection = none;
  input = λ _. sent [];
  tmpchar = 0;
}

-- Client 4 connects, and then sends its line.
abbrev connecting : Round
connecting = record {
  read_fds = λ j. j == 3;
  connection = some 4;
  input = λ _. sent [];
  tmpchar = 0;
}

abbrev sending : Round
sending = record {
  read_fds = λ j. j == 4;
  connection = none;
  input = λ _. sent hi_line;
  tmpchar = 0;
}

abbrev only_server : FdSet
only_server = update (λ _. false) 3 true

connecting-IsOrderly : IsOrderly 4 3 4 (λ _. hi_line) only_server connecting
connecting-IsOrderly = record {
  ready = λ j h. ground arith;
  connects = λ _. refl;
  fresh = refl;
  fits = omega arith;
  lines = λ i h ne. ground arith;
}

sending-IsOrderly :
    IsOrderly 4 3 5 (λ _. hi_line) (after_round 3 4 (λ _. hi_line) connecting only_server) sending
sending-IsOrderly = record {
  ready = λ j h. ground arith;
  connects = λ h. ground arith;
  fresh = refl;
  fits = omega arith;
  lines = λ i h ne. hi_line-read;
}

abbrev stories : List Story
stories = (connecting, 4, λ _. hi_line) ∷ (sending, 5, λ _. hi_line) ∷ []

select_server-logs_example :
    (s' : Server) × (select_server 4 setup (rounds_of stories) ≡ finished (some s'))
    × IsServer 3 s'
    × (s'.events ≡ logs 3 stories)
select_server-logs_example =
    select_server-logs 4 3 setup stories setup-listening (omega arith)
      (connecting-IsOrderly, (sending-IsOrderly, tt))

-- client 4 sends NULs
abbrev silent_round : Round
silent_round = record {
  read_fds = λ j. j == 4;
  connection = none;
  input = λ _ _. some 0;
  tmpchar = 7;
}

sweep-silent_example : sweep 1000 3 silent_round (fd_setsize + 1) 0 server ≡ running
sweep-silent_example =
    sweep-silent 1000 3 silent_round (fd_setsize + 1) 4 0 4 server refl (omega arith)
      (λ j h. ground arith) refl (omega arith) (omega arith) refl (λ j. refl)
