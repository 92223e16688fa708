-- ===== src/Coursework/Program.antt =====
-- `main` of testbench.c: the driver's start, the threads, and the driver's end.
use osh.Prelude.{
  numbers, ℕ, zero, suc, ◌+◌, ◌≡◌, refl, sym, ap, ◌∙◌, List, [], ◌∷◌, ◌++◌, Bool, true, false,
  Option, none, some, if◌then◌else◌, Bool-cases, inl, inr, append-nil,
}
use osh.Net.Line.{Run, finished, ◌then_run◌}
use osh.Coursework.Driver.Lifetime.{
  finished_inj, is_empty, then_run-eq-finished, shutdown_driver-prefix,
}
use osh.Coursework.Testbench.{create_threads, run_threads}
use osh.Coursework.Driver.{ClObject, InitOs, init_driver, Handle, ShutdownOs, shutdown_driver}

-- What the calls of `main` and of the driver answer.
pub record ProgramOs : Type 0 where
  pub init : InitOs
  pub calloc : Bool
  pub created : ℕ → Bool
  pub joined : ℕ → Bool
  pub shutdown : ShutdownOs

-- The status of the process (true for EXIT_SUCCESS), the numbers of the threads that were started,
-- and the handles that were released.
pub record Outcome : Type 0 where
  pub success : Bool
  pub threads : List ℕ
  pub released : List Handle

-- `main` after init_driver()
unfoldable with_driver : ℕ → ProgramOs → Option ClObject → Outcome
unfolding run_threads shutdown_driver
with_driver nth os none = record { success = false; threads = []; released = [] }
with_driver nth os (some ocl) =
    let threads = run_threads nth os.calloc os.created os.joined in
    let released = shutdown_driver ocl os.shutdown in
    if threads.1
    then record { success = released.1; threads = threads.0; released = released.0 }
    else record { success = false; threads = threads.0; released = [] }

-- `main`; `thread_num` is what malloc() leaves in the object.
unfoldable pub testbench : (ClObject → Run (Option ClObject)) → ℕ → ℕ → ProgramOs → Run Outcome
unfolding with_driver
testbench section nth thread_num os =
    init_driver section os.init thread_num then_run λ ocl. finished (with_driver nth os ocl)

create_threads-numbers :
    (created : ℕ → Bool) (n tnum : ℕ)
    → (create_threads created n tnum).1 ≡ true
    → (create_threads created n tnum).0 ≡ numbers n (tnum + 1)
unfolding create_threads
create_threads-numbers created zero tnum h = refl
create_threads-numbers created (suc n) tnum h = elim (Bool-cases (created tnum)) [
  | inl t ↦
      rw t (ap (λ l. (tnum + 1) ∷ l) (create_threads-numbers created n (tnum + 1) (rw t at h)))
  | inr t ↦ let bad = rw t at h in cc
]

run_threads-numbers :
    (nth : ℕ) (calloc : Bool) (created joined : ℕ → Bool)
    → (run_threads nth calloc created joined).1 ≡ true
    → (run_threads nth calloc created joined).0 ≡ numbers nth 1
unfolding run_threads
run_threads-numbers nth true created joined h = elim (Bool-cases (create_threads created nth 0).1) [
  | inl t ↦ rw t (create_threads-numbers created nth 0 t)
  | inr t ↦ let bad : (create_threads created nth 0).1 ≡ true = rw t at h in cc
]
run_threads-numbers nth false created joined h = cc

with_driver-success :
    (nth : ℕ) (os : ProgramOs) (made : Option ClObject)
    → (with_driver nth os made).success ≡ true
    → (ocl : ClObject) × (made ≡ some ocl)
      × (run_threads nth os.calloc os.created os.joined).1 ≡ true
      × (shutdown_driver ocl os.shutdown).1 ≡ true
      × ((with_driver nth os made).threads ≡ (run_threads nth os.calloc os.created os.joined).0)
      × ((with_driver nth os made).released ≡ (shutdown_driver ocl os.shutdown).0)
unfolding with_driver
with_driver-success nth os none h = cc
with_driver-success nth os (some ocl) h =
    elim (Bool-cases (run_threads nth os.calloc os.created os.joined).1) [
      | inl t ↦ (ocl, refl, t, rw t at h, rw t refl, rw t refl)
      | inr t ↦ let bad : false ≡ true = rw t at h in cc
    ]

none_left :
    {done all : List Handle} (left : List Handle)
    → done ++ left ≡ all
    → is_empty left ≡ true
    → done ≡ all
none_left {done} [] e t = sym (append-nil done) ∙ e
none_left (x ∷ left) e t = cc

all_released :
    (ocl : ClObject) (os : ShutdownOs)
    → (shutdown_driver ocl os).1 ≡ true
    → (shutdown_driver ocl os).0
      ≡ Handle.program ocl.program
        ∷ Handle.kernel ocl.kernel
        ∷ Handle.command_queue ocl.command_queue
        ∷ Handle.context ocl.context
        ∷ []
all_released ocl os h =
    let (left, e, t) = shutdown_driver-prefix ocl os in none_left left e (sym t ∙ h)

-- A testbench that exits with EXIT_SUCCESS has been given an object by init_driver(), has started
-- the threads 1 to NTH, each once and in this order, and has released the four handles of the
-- object.
pub testbench-success :
    (section : ClObject → Run (Option ClObject)) (nth thread_num : ℕ) (os : ProgramOs) (r : Outcome)
    → testbench section nth thread_num os ≡ finished r
    → r.success ≡ true
    → (ocl : ClObject) × (init_driver section os.init thread_num ≡ finished (some ocl))
      × (r.threads ≡ numbers nth 1)
      × (r.released
          ≡ Handle.program ocl.program
            ∷ Handle.kernel ocl.kernel
            ∷ Handle.command_queue ocl.command_queue
            ∷ Handle.context ocl.context
            ∷ [])
unfolding testbench
testbench-success section nth thread_num os r h s =
    let (made, i, e) = then_run-eq-finished (init_driver section os.init thread_num) _ h in
    let whole : with_driver nth os made ≡ r = finished_inj e in
    let (ocl, m, t, d, threads, released) =
      with_driver-success nth os made (ap (λ (o : Outcome). o.success) whole ∙ s) in
    (
      ocl,
      i ∙ ap (λ o. finished o) m,
      sym (ap (λ (o : Outcome). o.threads) whole)
          ∙ threads
          ∙ run_threads-numbers nth os.calloc os.created os.joined t,
      sym (ap (λ (o : Outcome). o.released) whole) ∙ released ∙ all_released ocl os.shutdown d,
    )
