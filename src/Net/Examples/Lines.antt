-- ===== src/Net/Examples/Lines.antt =====
-- The theorems on the line loop at concrete inputs.
use osh.Prelude.{
  ◌⊎◌, ◌≢◌, ℕ, zero, suc, ◌+◌, ◌<◌, ◌≡◌, refl, List, [], ◌∷◌, ◌++◌, none, some, arith, replicate,
  All,
}
use osh.Net.Line.{finished, faulted, Reads, read_line, newline}
use osh.Net.Line.Turns.{IsPlain, Sends}
use osh.Net.Line.Closed.{read_line-closed}
use osh.Net.Line.Ends.{read_line-ends}
use osh.Net.Examples.{sent, hi, hi-IsPlain}

-- the character a, without end
abbrev endless : Reads
endless _ = some 97

replicate-IsPlain : (n : ℕ) → All IsPlain (replicate n 97)
replicate-IsPlain zero = tt
replicate-IsPlain (suc n) = ((omega arith, omega arith), replicate-IsPlain n)

replicate-sent : (n k : ℕ) → Sends endless k (replicate n 97 ++ 97 ∷ [])
replicate-sent zero k = (refl, tt)
replicate-sent (suc n) k = (refl, replicate-sent n (k + 1))

hi-closed : (j : ℕ) → 1 < j → sent hi j ≡ none
hi-closed zero h = ground arith
hi-closed (suc zero) h = ground arith
hi-closed (suc (suc j)) h = refl

read_line-closed_example : read_line 128 (sent hi) 0 ≡ faulted
read_line-closed_example =
    read_line-closed (104 ∷ []) 105 0 128 (sent hi) (hi-IsPlain.0, tt) (omega arith, omega arith)
      (omega arith) (refl, (refl, tt)) hi-closed (omega arith)

endless_ne : (j : ℕ) → endless j ≢ some 0
endless_ne j = λ e. cc

-- the character a, without end, where the stale byte is the character b
read_line-ends_example :
    ((line : List ℕ) × All IsPlain line
      × (read_line 129 endless 98 ≡ finished (line ++ newline ∷ [])))
    ⊎ (read_line 129 endless 98 ≡ faulted)
read_line-ends_example =
    read_line-ends 98 129 endless (λ j. endless_ne j) (omega arith) (omega arith)
