-- ===== src/Coursework/Firmware.antt =====
-- firmware.cl: the kernel, and its work-items in any order.
pub mod Order
pub mod Commute
use osh.Prelude.{ℕ, List, [], ◌∷◌, Option, some, ltb, ◌==◌, if◌then◌else◌, ◌>>=◌, get_elem?, write?}
use osh.Coursework.Ints.{ℤ, pos, add_int, mul_int}

-- the buffers in the device's memory that the kernel writes
pub record Device : Type 0 where
  pub output : List ℤ
  pub status : ℤ

-- `w1*input1[i] * input1[i] + w2*input2[i] * input2[i]`
unfoldable pub weighted : ℤ → ℤ → ℤ → ℤ → Option ℤ
weighted w1 w2 x y = do
  p ← mul_int w1 x
  px ← mul_int p x
  q ← mul_int w2 y
  qy ← mul_int q y
  add_int px qy

-- the body of `if(i < count)`
abbrev compute_item : List ℤ → List ℤ → ℤ → ℤ → ℕ → Device → Option Device
compute_item input1 input2 w1 w2 i d = do
  x ← get_elem? input1 i
  y ← get_elem? input2 i
  v ← weighted w1 w2 x y
  output ← write? d.output i v
  some (record d { output = output })

-- The kernel, for the work-item with global id `i`.
unfoldable pub firmware : List ℤ → List ℤ → ℤ → ℤ → ℕ → ℕ → Device → Option Device
unfolding weighted
firmware input1 input2 w1 w2 count i d =
    let d' : Device = record d { status = if i == 0 then pos 0 else d.status } in
    if ltb i count then compute_item input1 input2 w1 w2 i d' else some d'

-- The work-items in the order in which the device runs them.
unfoldable pub run_items : List ℤ → List ℤ → ℤ → ℤ → ℕ → List ℕ → Device → Option Device
unfolding firmware
run_items input1 input2 w1 w2 count [] d = some d
run_items input1 input2 w1 w2 count (i ∷ is) d =
    firmware input1 input2 w1 w2 count i d >>= run_items input1 input2 w1 w2 count is
