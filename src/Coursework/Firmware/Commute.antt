-- ===== src/Coursework/Firmware/Commute.antt =====
-- Work-items commute, whatever they compute and wherever they fail.
use osh.Prelude.{
  ℕ, zero, suc, ◌≡◌, ◌≢◌, refl, sym, ap, ◌∙◌, List, [], ◌∷◌, Option, some, none, arith, ltb, ◌==◌,
  if◌then◌else◌, ◌>>=◌, get_elem?, write?,
}
use mathlib.Core.Path.{fun_ext}
use mathlib.Core.List.{Perm, foldr}
use mathlib.Core.List.Perm
use native.Mathlib.Decide.{ℕ_discrete}
use osh.Coursework.Ints.{ℤ, pos}
use osh.Coursework.Firmware.{Device, weighted, firmware, run_items}

launch-set : IsSet (Device → Option Device)
launch-set = hlevel

module _ {ℓ κ μ} {A : Type ℓ} {B : Type κ} {C : Type μ} where
  bind_assoc :
      (o : Option A) (f : A → Option B) (g : B → Option C)
      → ((o >>= f) >>= g) ≡ (o >>= λ a. f a >>= g)
  bind_assoc none f g = refl
  bind_assoc (some a) f g = refl

  -- Two values that do not depend on each other, in either order.
  bind_comm :
      (o : Option A) (p : Option B) (f : A → B → Option C)
      → (o >>= λ a. p >>= λ b. f a b) ≡ (p >>= λ b. o >>= λ a. f a b)
  bind_comm none none f = refl
  bind_comm none (some b) f = refl
  bind_comm (some a) none f = refl
  bind_comm (some a) (some b) f = refl

-- Writes at two indices, in either order.
write?_comm {ℓ} :
    {A : Type ℓ} (xs : List A) (i j : ℕ) (v u : A)
    → i ≢ j
    → (write? xs i v >>= λ ys. write? ys j u) ≡ (write? xs j u >>= λ ys. write? ys i v)
write?_comm [] i j v u ne = refl
write?_comm (x ∷ xs) zero zero v u ne = absurd (ne refl)
write?_comm (x ∷ xs) zero (suc j) v u ne =
    sym (bind_assoc (write? xs j u) (λ r. some (x ∷ r)) (λ ys. write? ys 0 v))
write?_comm (x ∷ xs) (suc i) zero v u ne =
    bind_assoc (write? xs i v) (λ r. some (x ∷ r)) (λ ys. write? ys 0 u)
write?_comm (x ∷ xs) (suc i) (suc j) v u ne =
    bind_assoc (write? xs i v) (λ r. some (x ∷ r)) (λ ys. write? ys (suc j) u)
    ∙ sym (bind_assoc (write? xs i v) (λ ys. write? ys j u) (λ r. some (x ∷ r)))
    ∙ ap (λ o. o >>= λ r. some (x ∷ r)) (write?_comm xs i j v u (λ e. ne (ap suc e)))
    ∙ bind_assoc (write? xs j u) (λ ys. write? ys i v) (λ r. some (x ∷ r))
    ∙ sym (bind_assoc (write? xs j u) (λ r. some (x ∷ r)) (λ ys. write? ys (suc i) v))

-- the status once work-item `i` has run
abbrev reset : ℕ → ℤ → ℤ
reset i status = if i == 0 then pos 0 else status

reset_comm : (i j : ℕ) (status : ℤ) → reset j (reset i status) ≡ reset i (reset j status)
reset_comm i j status = ground arith

abbrev stored : ℤ → List ℤ → Option Device
stored status output = some (record { output = output; status = status })

-- The effect of work-item `i` with the value that it computes, if it is in range.
abbrev put : ℕ → Option ℤ → Device → Option Device
put i none d = stored (reset i d.status) d.output
put i (some v) d = write? d.output i v >>= stored (reset i d.status)

put_comm :
    (i j : ℕ) (v u : Option ℤ) (d : Device)
    → i ≢ j
    → (put i v d >>= put j u) ≡ (put j u d >>= put i v)
put_comm i j none none d ne = ap (λ s. stored s d.output) (reset_comm i j d.status)
put_comm i j none (some u) d ne =
    ap (λ s. write? d.output j u >>= stored s) (reset_comm i j d.status)
    ∙ sym (bind_assoc (write? d.output j u) (stored (reset j d.status)) (put i none))
put_comm i j (some v) none d ne =
    bind_assoc (write? d.output i v) (stored (reset i d.status)) (put j none)
    ∙ ap (λ s. write? d.output i v >>= stored s) (reset_comm i j d.status)
put_comm i j (some v) (some u) d ne =
    bind_assoc (write? d.output i v) (stored (reset i d.status)) (put j (some u))
    ∙ sym (
        bind_assoc (write? d.output i v) (λ ys. write? ys j u)
          (stored (reset j (reset i d.status))))
    ∙ ap (λ o. o >>= stored (reset j (reset i d.status))) (write?_comm d.output i j v u ne)
    ∙ ap (λ s. (write? d.output j u >>= λ ys. write? ys i v) >>= stored s) (reset_comm i j d.status)
    ∙ bind_assoc (write? d.output j u) (λ ys. write? ys i v) (stored (reset i (reset j d.status)))
    ∙ sym (bind_assoc (write? d.output j u) (stored (reset j d.status)) (put i (some v)))

module _ (input1 input2 : List ℤ) (w1 w2 : ℤ) (count : ℕ) where
  -- what a work-item computes; nothing where it is out of range
  abbrev value : ℕ → Option (Option ℤ)
  value i =
      if ltb i count
      then (get_elem? input1 i >>= λ x.
          get_elem? input2 i >>= λ y. weighted w1 w2 x y >>= λ v. some (some v))
      else some none

  firmware-put :
      (i : ℕ) (d : Device) → firmware input1 input2 w1 w2 count i d ≡ (value i >>= λ v. put i v d)
  unfolding firmware
  firmware-put i d = ground arith

  -- Two work-items one after the other, with what they compute taken out.
  firmware_twice :
      (i j : ℕ) (d : Device)
      → (firmware input1 input2 w1 w2 count i d >>= firmware input1 input2 w1 w2 count j)
        ≡ (value i >>= λ v. value j >>= λ u. put i v d >>= put j u)
  firmware_twice i j d =
      (λ k. firmware-put i d k >>= λ d'. firmware-put j d' k)
      ∙ bind_assoc (value i) (λ v. put i v d) (λ d'. value j >>= λ u. put j u d')
      ∙ ap (λ f. value i >>= f) (fun_ext λ v. bind_comm (put i v d) (value j) (λ d' u. put j u d'))

  firmware_comm :
      (i j : ℕ) (d : Device)
      → (firmware input1 input2 w1 w2 count i d >>= firmware input1 input2 w1 w2 count j)
        ≡ (firmware input1 input2 w1 w2 count j d >>= firmware input1 input2 w1 w2 count i)
  firmware_comm i j d = elim (ℕ_discrete i j) [
    | yes e ↦ rw e refl
    | no ne ↦
        firmware_twice i j d
        ∙ (λ k. value i >>= λ v. value j >>= λ u. put_comm i j v u d ne k)
        ∙ bind_comm (value i) (value j) (λ v u. put j u d >>= put i v)
        ∙ sym (firmware_twice j i d)
  ]

  -- run_items() as a fold of steps
  step : ℕ → (Device → Option Device) → Device → Option Device
  step i rest d = firmware input1 input2 w1 w2 count i d >>= rest

  step_comm :
      (i j : ℕ) (rest : Device → Option Device) → step i (step j rest) ≡ step j (step i rest)
  unfolding step
  step_comm i j rest = fun_ext λ d.
      sym (
        bind_assoc (firmware input1 input2 w1 w2 count i d) (firmware input1 input2 w1 w2 count j)
          rest)
      ∙ ap (λ o. o >>= rest) (firmware_comm i j d)
      ∙ bind_assoc (firmware input1 input2 w1 w2 count j d) (firmware input1 input2 w1 w2 count i)
          rest

  run_items-foldr : (is : List ℕ) → run_items input1 input2 w1 w2 count is ≡ foldr step some is
  unfolding run_items step
  run_items-foldr [] = refl
  run_items-foldr (i ∷ is) = ap (step i) (run_items-foldr is)

  -- Two orders of the same work-items, each as often in both, give the same outcome: the same
  -- buffers, or undefined behaviour in both, whatever the inputs are.
  pub run_items-Perm :
      (is js : List ℕ) (d : Device)
      → Perm is js
      → run_items input1 input2 w1 w2 count is d ≡ run_items input1 input2 w1 w2 count js d
  run_items-Perm is js d p =
      ap (λ f. f d)
        (run_items-foldr is
          ∙ Perm.foldr-eq launch-set step step_comm p some
          ∙ sym (run_items-foldr js))
