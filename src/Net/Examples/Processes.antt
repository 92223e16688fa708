-- ===== src/Net/Examples/Processes.antt =====
-- The theorems on the fork and pthreads servers at concrete inputs.
use osh.Prelude.{false, ◌≡◌, refl, List, [], ◌∷◌, true, some, update}
use osh.Net.Hi.{
  Process, create, handle, Steps, done, next, Children, Signals, fork_server, create_fails,
}
use mathlib.Core.List.{map}
use osh.Net.Line.{finished}
use osh.Net.Hi.Forks.{Guest, absent, turned_away, welcome, turn_of, fork_server-lines}
use osh.Net.Hi.Leaks.{IsAccounted, lost, pthreads_server-IsAccounted}
use osh.Net.Examples.{idle, idle-start, setup, setup-listening, hi_line-read, sent, hi_line}

-- a child that reads its line, a failed accept(), and a failed fork()
abbrev guests : List Guest
guests = welcome 4 (sent hi_line) 0 hi_line ∷ absent ∷ turned_away 5 ∷ []

abbrev signals : Signals
signals = record { sigfillset = true; sigaction = true }

fork_server-lines_example :
    fork_server 4 signals setup (map turn_of guests)
    ≡ some (record { descriptors = 5 ∷ 4 ∷ 3 ∷ []; children = (4, finished hi_line) ∷ [] })
fork_server-lines_example =
    fork_server-lines 4 3 signals setup guests refl refl setup-listening (hi_line-read, tt)

abbrev serving : Process
serving = record {
  is_open = update idle.is_open 4 true;
  served = update (λ _. false) 4 true;
  printed = [];
}

abbrev served_hi : Process
served_hi = record {
  is_open = update serving.is_open 4 false;
  served = update serving.served 4 false;
  printed = (4, hi_line) ∷ [];
}

-- three running children, of which two exit
abbrev busy : Children
busy = record { running_count = 3; zombies = 0; pending = false }

-- afterwards, when the third child has exited and been waited for
abbrev later_on : Children
later_on = record { running_count = 0; zombies = 1; pending = false }

-- Client 4 connects and sends its line; pthread_create() fails for the next connection.
abbrev leaking : Process
leaking = record served_hi { is_open = update served_hi.is_open 4 true }

abbrev leak : Steps idle leaking
leak = next idle serving leaking (create idle 4 refl) (
    next serving served_hi leaking (handle serving 4 4 0 (sent hi_line) hi_line refl hi_line-read)
      (next served_hi leaking leaking (create_fails served_hi 4 refl) (done leaking)))

pthreads_server-IsAccounted_example : IsAccounted 3 (lost leak) leaking
pthreads_server-IsAccounted_example =
    pthreads_server-IsAccounted 3 setup setup-listening idle-start leak
