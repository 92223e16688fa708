-- ===== src/Coursework/Driver.antt =====
-- driver.c and driver.h: the OpenCL objects from their creation to their release. What the calls
-- answer are arguments; a handle is a number; the sections to be filled in are parameters.
pub mod Lifetime
use osh.Prelude.{ℕ, List, [], ◌∷◌, Bool, true, false, Option, none, some, ◌==◌, if◌then◌else◌}
use osh.Net.Line.{Run, finished, faulted, ◌then_run◌}

pub record ClObject : Type 0 where
  pub device_id : ℕ
  pub context : ℕ
  pub command_queue : ℕ
  pub program : ℕ
  pub kernel : ℕ
  pub thread_num : ℕ

-- What the calls of init_driver() answer: `none` or `false` is an error, or a null pointer.
pub record InitOs : Type 0 where
  pub malloc_ocl : Bool
  pub platform_count : Option ℕ
  pub malloc_platforms : Bool
  pub platform_ids : Bool
  pub device : Option ℕ
  pub context : Option ℕ
  pub command_queue : Option ℕ
  pub firmware_cl : Option (List ℕ)
  pub malloc_buffer : Bool
  pub create_program : List ℕ → Option ℕ
  pub build : Bool
  pub create_kernel : Option ℕ

-- A step that gives a value or ends the process with EXIT_FAILURE.
abbrev pub or_exit {ℓ κ} :
    {A : Type ℓ} {B : Type κ} → Option A → (A → Run (Option B)) → Run (Option B)
or_exit none f = finished none
or_exit (some a) f = f a

-- a pointer that is used without a test: null is undefined behaviour
abbrev pub or_fault {ℓ κ} : {A : Type ℓ} {B : Type κ} → Option A → (A → Run B) → Run B
or_fault none f = faulted
or_fault (some a) f = f a

abbrev pub given : Bool → Option (Unit {0})
given true = some tt
given false = none

-- the platforms: `platforms[0]` is read whenever the second call succeeds
unfoldable pub first_platform : InitOs → Run (Option (Unit {0}))
first_platform os = or_exit os.platform_count λ nplatforms. or_exit (given os.platform_ids) λ _.
    or_fault (given os.malloc_platforms)
      λ _. if nplatforms == 0 then faulted else finished (some tt)

-- the file firmware.cl in a buffer, and the program made of it
unfoldable pub load_program : InitOs → Run (Option ℕ)
load_program os = or_fault os.firmware_cl λ source.
    or_fault (given os.malloc_buffer)
      λ _. or_exit (os.create_program source) λ program. finished (some program)

-- What stands in the object before the section to be filled in; `thread_num` is not set.
unfoldable pub create_objects : InitOs → ℕ → Run (Option ClObject)
unfolding first_platform load_program
create_objects os thread_num = first_platform os then_run λ platform. or_exit platform λ _.
    or_exit os.device λ device_id. or_exit os.context λ context.
      or_exit os.command_queue λ command_queue. load_program os then_run λ loaded.
      or_exit loaded λ program. or_exit (given os.build) λ _. or_exit os.create_kernel λ kernel.
        or_fault (given os.malloc_ocl) λ _. finished (
          some (record {
            device_id = device_id;
            context = context;
            command_queue = command_queue;
            program = program;
            kernel = kernel;
            thread_num = thread_num;
          }))

-- `init_driver`, with the section to be filled in, which may set more of the object
unfoldable pub init_driver : (ClObject → Run (Option ClObject)) → InitOs → ℕ → Run (Option ClObject)
unfolding create_objects
init_driver section os thread_num =
    create_objects os thread_num then_run λ created. or_exit created λ ocl. section ocl

-- A handle and the kind of object it is for.
pub data Handle : Type 0 where
  program kernel command_queue context : ℕ → Handle

-- The releases of shutdown_driver() in order, with what each call answers: the handles that have
-- been released, and whether all are.
unfoldable pub release_all : List (Handle × Bool) → List Handle × Bool
release_all [] = ([], true)
release_all ((h, ok) ∷ rest) =
    let more = release_all rest in if ok then (h ∷ more.0, more.1) else ([], false)

pub record ShutdownOs : Type 0 where
  pub release_program : Bool
  pub release_kernel : Bool
  pub release_queue : Bool
  pub release_context : Bool

-- `shutdown_driver` up to the section to be filled in: what it has released, and whether it returns
unfoldable pub shutdown_driver : ClObject → ShutdownOs → List Handle × Bool
unfolding release_all
shutdown_driver ocl os = release_all (
    (Handle.program ocl.program, os.release_program)
    ∷ (Handle.kernel ocl.kernel, os.release_kernel)
    ∷ (Handle.command_queue ocl.command_queue, os.release_queue)
    ∷ (Handle.context ocl.context, os.release_context)
    ∷ [])

-- `run_driver`, with the section to be filled in: it is given the thread's number, the largest size
-- of a work group and the global range, and leaves the status. `work_group` is what
-- clGetKernelWorkGroupInfo() answers.
unfoldable pub run_driver {ℓ} :
    {A : Type ℓ} → (ℕ → ℕ → ℕ → Run (Option A)) → ClObject → Option ℕ → ℕ → Run (Option A)
run_driver section ocl work_group buffer_size =
    let tid = ocl.thread_num in
    or_exit work_group λ local. let global = buffer_size in section tid local global
