-- ===== src/Coursework/Testbench/Race.antt =====
-- The number that run_driver() reads when other threads are about.
use osh.Prelude.{ℕ, ◌≡◌, refl, ap, ◌∙◌, List, [], ◌∷◌, ◌++◌, All}
use osh.Coursework.Testbench.{Access, tids}

abbrev pub IsRead : Access → Type 0
IsRead (Access.writes t) = ⊥
IsRead (Access.reads t) = Unit

-- the reads among the accesses, all of the same number
abbrev pub readers : ℕ → List Access → List (ℕ × ℕ)
readers n [] = []
readers n (Access.writes t ∷ rest) = readers n rest
readers n (Access.reads t ∷ rest) = (t, n) ∷ readers n rest

tids-IsRead :
    (mid rest : List Access) (n : ℕ)
    → All IsRead mid
    → tids (mid ++ rest) n ≡ readers n mid ++ tids rest n
unfolding tids
tids-IsRead [] rest n h = refl
tids-IsRead (Access.writes t ∷ mid) rest n h = elim h.0 [ ]
tids-IsRead (Access.reads t ∷ mid) rest n h = ap (λ l. (t, n) ∷ l) (tids-IsRead mid rest n h.1)

tids-append :
    (before rest : List Access) (n : ℕ)
    → (last : ℕ) × (tids (before ++ rest) n ≡ tids before n ++ tids rest last)
unfolding tids
tids-append [] rest n = (n, refl)
tids-append (Access.writes t ∷ before) rest n = tids-append before rest t
tids-append (Access.reads t ∷ before) rest n =
    let (last, e) = tids-append before rest n in (last, ap (λ l. (t, n) ∷ l) e)

-- In every order of the threads' accesses, a thread that reads its number gets the one that was
-- written last, and so does every thread that reads in between: not its own, if another thread has
-- started since it wrote.
pub tids-last_write :
    (before mid after : List Access) (u t n : ℕ)
    → All IsRead mid
    → tids (before ++ (Access.writes u ∷ (mid ++ (Access.reads t ∷ after)))) n
      ≡ tids before n ++ (readers u mid ++ ((t, u) ∷ tids after u))
unfolding tids
tids-last_write before mid after u t n h =
    let (last, e) = tids-append before (Access.writes u ∷ (mid ++ (Access.reads t ∷ after))) n in
    e ∙ ap (λ l. tids before n ++ l) (tids-IsRead mid (Access.reads t ∷ after) u h)
