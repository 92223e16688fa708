-- ===== src/Coursework/Testbench.antt =====
-- testbench.c: threads that each hand a data set to the driver and check what comes back.
pub mod Check
pub mod Success
pub mod Race
use osh.Prelude.{
  ℕ, zero, suc, ◌+◌, ◌*◌, ◌%◌, ◌^◌, List, [], ◌∷◌, Bool, true, false, Option, none, some, ◌==◌,
  if◌then◌else◌, ◌>>=◌, word,
}
use osh.Coursework.Ints.{ℤ, add_int, sub_int, mul_int, to_int, equals_zero}

-- `run_driver`, which students write: from the two input buffers and the weights, what it leaves in
-- the output buffer. Its status is not looked at.
abbrev pub RunDriver : Type 0
RunDriver = List ℤ → List ℤ → ℤ → ℤ → List ℤ

-- `(i+1)*(tinfo->thread_num+1)` and `(i+1)*(tinfo->thread_num+2)`: an `unsigned int` times an
-- `unsigned long long`, converted to `int`
abbrev pub datum_a : ℕ → ℕ → ℤ
datum_a thread_num i = to_int ((i + 1) % 2 ^ 32 * ((thread_num + 1) % word) % word)

abbrev pub datum_b : ℕ → ℕ → ℤ
datum_b thread_num i = to_int ((i + 1) % 2 ^ 32 * ((thread_num + 2) % word) % word)

-- a loop that fills an array from index `i` on
abbrev pub filled : ℕ → ℕ → (ℕ → ℤ) → List ℤ
filled zero i f = []
filled (suc n) i f = f i ∷ filled n (i + 1) f

-- `w1*mA[i]*mA[i]+w2*mB[i]*mB[i]`
unfoldable pub reference : ℤ → ℤ → ℤ → ℤ → Option ℤ
reference w1 w2 a b = do
  p ← mul_int w1 a
  pa ← mul_int p a
  q ← mul_int w2 b
  qb ← mul_int q b
  add_int pa qb

unfoldable pub references : ℤ → ℤ → List ℤ → List ℤ → Option (List ℤ)
unfolding reference
references w1 w2 [] mB = some []
references w1 w2 (a ∷ mA) [] = some []
references w1 w2 (a ∷ mA) (b ∷ mB) = do
  c ← reference w1 w2 a b
  mCref ← references w1 w2 mA mB
  some (c ∷ mCref)

-- The loop that compares the results, from index 0 on; an array that is too short is read past its
-- end.
unfoldable pub count_correct : List ℤ → List ℤ → Option ℕ
count_correct mC [] = some 0
count_correct [] (r ∷ rs) = none
count_correct (c ∷ cs) (r ∷ rs) = do
  reldiff ← sub_int c r
  correct ← count_correct cs rs
  some (if equals_zero reldiff then suc correct else correct)

-- What a thread prints.
pub record Report : Type 0 where
  pub correct : ℕ
  pub m_size : ℕ
  pub thread_num : ℕ
  pub success : Bool

unfoldable pub thread_start : ℕ → ℤ → ℤ → RunDriver → ℕ → Option Report
unfolding references count_correct
thread_start m_size w1 w2 run_driver thread_num = do
  let mA = filled m_size 0 (datum_a thread_num)
  let mB = filled m_size 0 (datum_b thread_num)
  mCref ← references w1 w2 mA mB
  let mC = run_driver mA mB w1 w2
  correct ← count_correct mC mCref
  some (record {
    correct = correct;
    m_size = m_size;
    thread_num = thread_num;
    success = correct == m_size;
  })

-- The numbers of the threads that `main` starts before pthread_create() fails, and whether it does.
unfoldable pub create_threads : (ℕ → Bool) → ℕ → ℕ → List ℕ × Bool
create_threads created zero tnum = ([], true)
create_threads created (suc n) tnum =
    let more = create_threads created n (tnum + 1) in
    if created tnum then ((tnum + 1) ∷ more.0, more.1) else ([], false)

-- The loop of pthread_join().
unfoldable pub join_threads : (ℕ → Bool) → ℕ → ℕ → Bool
join_threads joined zero tnum = true
join_threads joined (suc n) tnum =
    let more = join_threads joined n (tnum + 1) in if joined tnum then more else false

-- `main` between the driver's start and its end: the threads that were started, and whether it
-- goes on to shutdown_driver().
unfoldable pub run_threads : ℕ → Bool → (ℕ → Bool) → (ℕ → Bool) → List ℕ × Bool
unfolding create_threads join_threads
run_threads num_threads calloc created joined =
    let threads = create_threads created num_threads 0 in
    let all = join_threads joined num_threads 0 in
    if calloc then (if threads.1 then (threads.0, all) else threads) else ([], false)

-- An access to `ocl->thread_num`, which all threads share: thread_start() writes the thread's
-- number there, run_driver() reads it back.
pub data Access : Type 0 where
  writes : ℕ → Access
  reads : ℕ → Access

-- The accesses in the order in which they happen: each read gives the reader and what it gets.
unfoldable pub tids : List Access → ℕ → List (ℕ × ℕ)
tids [] thread_num = []
tids (writes t ∷ rest) thread_num = tids rest t
tids (reads t ∷ rest) thread_num = (t, thread_num) ∷ tids rest thread_num
