-- ===== src/Coursework/Driver/Lifetime.antt =====
-- The objects that are created are those that are released.
use osh.Prelude.{
  ℕ, ◌≡◌, ◌≢◌, refl, ap, ◌∙◌, List, [], ◌∷◌, ◌++◌, Bool, true, false, Option, none, some, some_inj,
  ne→==,
}
use mathlib.Core.List.{map}
use osh.Net.Line.{Run, finished, faulted, running, ◌then_run◌}
use osh.Coursework.Driver.{
  ClObject, InitOs, or_exit, or_fault, given, first_platform, load_program, create_objects, Handle,
  release_all, ShutdownOs, shutdown_driver,
}

pub finished_inj {ℓ} : {A : Type ℓ} {a b : A} → finished a ≡ finished b → a ≡ b
finished_inj {a} {b} h = cc

-- Steps that have come to a value, taken apart.
or_exit-eq-some {ℓ κ} :
    {A : Type ℓ} {B : Type κ} (o : Option A) (f : A → Run (Option B)) {b : B}
    → or_exit o f ≡ finished (some b)
    → (a : A) × (o ≡ some a) × (f a ≡ finished (some b))
or_exit-eq-some none f h = let e = finished_inj h in cc
or_exit-eq-some (some a) f h = (a, refl, h)

or_fault-eq-finished {ℓ κ} :
    {A : Type ℓ} {B : Type κ} (o : Option A) (f : A → Run B) {b : B}
    → or_fault o f ≡ finished b
    → (a : A) × (o ≡ some a) × (f a ≡ finished b)
or_fault-eq-finished none f h = cc
or_fault-eq-finished (some a) f h = (a, refl, h)

pub then_run-eq-finished {ℓ κ} :
    {A : Type ℓ} {B : Type κ} (m : Run A) (f : A → Run B) {b : B}
    → (m then_run f) ≡ finished b
    → (a : A) × (m ≡ finished a) × (f a ≡ finished b)
then_run-eq-finished (finished a) f h = (a, refl, h)
then_run-eq-finished faulted f h = cc
then_run-eq-finished running f h = cc

given-true : (b : Bool) {u : Unit {0}} → given b ≡ some u → b ≡ true
given-true true h = refl
given-true false h = cc

load_program-eq-some :
    (os : InitOs) {program : ℕ}
    → load_program os ≡ finished (some program)
    → (source : List ℕ) × (os.firmware_cl ≡ some source) × (os.create_program source ≡ some program)
unfolding load_program
load_program-eq-some os {program} h =
    let (source, p, h₁) = or_fault-eq-finished os.firmware_cl _ h in
    let (_, _, h₂) = or_fault-eq-finished (given os.malloc_buffer) _ h₁ in
    let (made, q, h₃) = or_exit-eq-some (os.create_program source) _ h₂ in
    (source, p, q ∙ finished_inj h₃)

-- An object that init_driver() has created holds what the calls have given: its device, context and
-- queue, the program made of the text of firmware.cl, which has been built, and its kernel.
pub create_objects-eq-some :
    (os : InitOs) (thread_num : ℕ) {ocl : ClObject}
    → create_objects os thread_num ≡ finished (some ocl)
    → (source : List ℕ) × (os.device ≡ some ocl.device_id)
      × (os.context ≡ some ocl.context)
      × (os.command_queue ≡ some ocl.command_queue)
      × (os.firmware_cl ≡ some source)
      × (os.create_program source ≡ some ocl.program)
      × (os.build ≡ true)
      × (os.create_kernel ≡ some ocl.kernel)
unfolding create_objects
create_objects-eq-some os thread_num {ocl} h =
    let (platform, _, h₁) = then_run-eq-finished (first_platform os) _ h in
    let (_, _, h₂) = or_exit-eq-some platform _ h₁ in
    let (device_id, d, h₃) = or_exit-eq-some os.device _ h₂ in
    let (context, c, h₄) = or_exit-eq-some os.context _ h₃ in
    let (queue, q, h₅) = or_exit-eq-some os.command_queue _ h₄ in
    let (loaded, l, h₆) = then_run-eq-finished (load_program os) _ h₅ in
    let (program, p, h₇) = or_exit-eq-some loaded _ h₆ in
    let (_, b, h₈) = or_exit-eq-some (given os.build) _ h₇ in
    let (kernel, k, h₉) = or_exit-eq-some os.create_kernel _ h₈ in
    let (_, _, h₁₀) = or_fault-eq-finished (given os.malloc_ocl) _ h₉ in
    let whole : record {
      device_id = device_id;
      context = context;
      command_queue = queue;
      program = program;
      kernel = kernel;
      thread_num = thread_num;
    }
        ≡ ocl =
      some_inj (finished_inj h₁₀) in
    let (source, f, made) = load_program-eq-some os (l ∙ ap (λ o. finished o) p) in
    (
      source,
      d ∙ ap (λ (o : ClObject). some o.device_id) whole,
      c ∙ ap (λ (o : ClObject). some o.context) whole,
      q ∙ ap (λ (o : ClObject). some o.command_queue) whole,
      f,
      made ∙ ap (λ (o : ClObject). some o.program) whole,
      given-true os.build b,
      k ∙ ap (λ (o : ClObject). some o.kernel) whole,
    )

-- A missing firmware.cl is not noticed: with every call before it successful, and at least one
-- platform, the null pointer that fopen() gives is handed to fseek().
pub create_objects-no_firmware :
    (os : InitOs) (thread_num nplatforms device_id context queue : ℕ)
    → os.platform_count ≡ some nplatforms
    → nplatforms ≢ 0
    → os.malloc_platforms ≡ true
    → os.platform_ids ≡ true
    → os.device ≡ some device_id
    → os.context ≡ some context
    → os.command_queue ≡ some queue
    → os.firmware_cl ≡ none
    → create_objects os thread_num ≡ faulted
unfolding create_objects
create_objects-no_firmware os thread_num nplatforms device_id context queue count ne room ids d c q
      missing =
    rw (count, ids, room) (rw (ne→== nplatforms 0 ne) (rw (d, c, q, missing)))

abbrev pub is_empty {ℓ} : {A : Type ℓ} → List A → Bool
is_empty [] = true
is_empty (x ∷ xs) = false

release_all-prefix :
    (hs : List (Handle × Bool))
    → (left : List Handle) × ((release_all hs).0 ++ left ≡ map (λ h. h.0) hs)
      × ((release_all hs).1 ≡ is_empty left)
unfolding release_all
release_all-prefix [] = ([], refl, refl)
release_all-prefix ((h, true) ∷ rest) =
    let (left, e, all) = release_all-prefix rest in (left, ap (λ l. h ∷ l) e, all)
release_all-prefix ((h, false) ∷ rest) = (h ∷ map (λ p. p.0) rest, refl, refl)

-- Whatever the calls answer, shutdown_driver() releases the program, the kernel, the queue and the
-- context of the object in this order, each once, up to the first call that fails; and it returns
-- exactly if none is left.
pub shutdown_driver-prefix :
    (ocl : ClObject) (os : ShutdownOs)
    → (left : List Handle) × ((shutdown_driver ocl os).0 ++ left
        ≡ Handle.program ocl.program
          ∷ Handle.kernel ocl.kernel
          ∷ Handle.command_queue ocl.command_queue
          ∷ Handle.context ocl.context
          ∷ [])
      × ((shutdown_driver ocl os).1 ≡ is_empty left)
unfolding shutdown_driver
shutdown_driver-prefix ocl os = release_all-prefix (
    (Handle.program ocl.program, os.release_program)
    ∷ (Handle.kernel ocl.kernel, os.release_kernel)
    ∷ (Handle.command_queue ocl.command_queue, os.release_queue)
    ∷ (Handle.context ocl.context, os.release_context)
    ∷ [])
