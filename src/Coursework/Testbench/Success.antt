-- ===== src/Coursework/Testbench/Success.antt =====
-- The testbench with a driver that runs the kernel on the data sets.
use osh.Prelude.{
  ℕ, zero, suc, ◌+◌, ◌*◌, ◌%◌, ◌^◌, ◌≤◌, ◌<◌, ◌≡◌, refl, ap, ◌∙◌, List, [], ◌∷◌, some, some_inj,
  arith, get_elem?, length, All, true, word, ==_refl,
}
use native.Mathlib.Nat.{mul-le-mul_left, mul-le-mul_right, le_trans}
use osh.Coursework.Ints.{ℤ, pos, to_int, to_int-pos, mul_int-pos, add_int-pos, sub_int_self}
use osh.Coursework.Firmware.{Device, weighted, run_items}
use osh.Coursework.Firmware.Order.{Among, Computes, run_items-order}
use osh.Coursework.Testbench.{
  RunDriver, datum_a, datum_b, filled, reference, references, count_correct, thread_start,
}

mul-le-mul : (a b c d : ℕ) → a ≤ b → c ≤ d → a * c ≤ b * d
mul-le-mul a b c d h k = le_trans (mul-le-mul_right c h) (mul-le-mul_left b k)

-- The products of the data, as natural numbers.
module _ (w1 w2 : ℕ) where
  abbrev pub sum_of : ℕ → ℕ → ℕ
  sum_of x y = w1 * x * x + w2 * y * y

  reference-pos :
      (x y : ℕ)
      → 1 ≤ x
      → 1 ≤ y
      → sum_of x y < 2 ^ 31
      → reference (pos w1) (pos w2) (pos x) (pos y) ≡ some (pos (sum_of x y))
  unfolding reference
  reference-pos x y hx hy h =
      let px : w1 * x ≤ w1 * x * x = omega (arith, mul-le-mul_left (w1 * x) hx) in
      let qy : w2 * y ≤ w2 * y * y = omega (arith, mul-le-mul_left (w2 * y) hy) in
      rw
        (
          mul_int-pos w1 x (omega arith),
          mul_int-pos (w1 * x) x (omega arith),
          mul_int-pos w2 y (omega arith),
          mul_int-pos (w2 * y) y (omega arith),
        )
        (add_int-pos (w1 * x * x) (w2 * y * y) h)

get_elem?-filled : (n i j : ℕ) (f : ℕ → ℤ) → j < n → get_elem? (filled n i f) j ≡ some (f (i + j))
get_elem?-filled zero i j f h = absurd (omega arith)
get_elem?-filled (suc n) i zero f h =
    let e : i ≡ i + 0 = omega arith in ap (λ (k : ℕ). some (f k)) e
get_elem?-filled (suc n) i (suc j) f h =
    let e : i + 1 + j ≡ i + suc j = omega arith in
    get_elem?-filled n (i + 1) j f (omega arith) ∙ ap (λ (k : ℕ). some (f k)) e

-- A list with the values of `f` at its places is the list that the loop fills.
filled_ext :
    (l : List ℤ) (n i : ℕ) (f : ℕ → ℤ)
    → length l ≡ n
    → ((j : ℕ) → j < n → get_elem? l j ≡ some (f (i + j)))
    → l ≡ filled n i f
filled_ext [] zero i f len h = refl
filled_ext [] (suc n) i f len h = absurd (omega arith)
filled_ext (x ∷ l) zero i f len h = absurd (omega arith)
filled_ext (x ∷ l) (suc n) i f len h =
    let e : i + 0 ≡ i = omega arith in
    let first : x ≡ f i = some_inj (h 0 (omega arith)) ∙ ap f e in
    rw (
      first,
      filled_ext l n (i + 1) f (omega arith) (λ j lt.
          let e' : i + suc j ≡ i + 1 + j = omega arith in
          h (suc j) (omega arith) ∙ ap (λ (k : ℕ). some (f k)) e'),
    )

references-filled :
    (n i : ℕ) (w1 w2 : ℤ) (f g value : ℕ → ℤ)
    → ((j : ℕ) → i ≤ j → j < i + n → reference w1 w2 (f j) (g j) ≡ some (value j))
    → references w1 w2 (filled n i f) (filled n i g) ≡ some (filled n i value)
unfolding references
references-filled zero i w1 w2 f g value h = refl
references-filled (suc n) i w1 w2 f g value h =
    rw (h i (omega arith) (omega arith)) (
      rw (references-filled n (i + 1) w1 w2 f g value (λ j le lt. h j (omega arith) (omega arith))))

count_correct_self :
    (n i : ℕ) (v : ℕ → ℕ)
    → count_correct (filled n i (λ j. pos (v j))) (filled n i (λ j. pos (v j))) ≡ some n
unfolding count_correct
count_correct_self zero i v = refl
count_correct_self (suc n) i v = rw (sub_int_self (v i)) (rw (count_correct_self n (i + 1) v))

-- the data of a thread, as natural numbers
module _ (m_size thread_num : ℕ) (small : m_size * (thread_num + 2) < 2 ^ 31) where
  abbrev a_of : ℕ → ℕ
  a_of i = (i + 1) * (thread_num + 1)

  abbrev b_of : ℕ → ℕ
  b_of i = (i + 1) * (thread_num + 2)

  a_of-le : (i : ℕ) → i < m_size → a_of i ≤ m_size * (thread_num + 2)
  a_of-le i h =
      mul-le-mul (i + 1) m_size (thread_num + 1) (thread_num + 2) (omega arith) (omega arith)

  b_of-le : (i : ℕ) → i < m_size → b_of i ≤ m_size * (thread_num + 2)
  b_of-le i h = mul-le-mul_right (thread_num + 2) (omega arith)

  m_size-le : m_size ≤ m_size * (thread_num + 2)
  m_size-le = omega (arith, mul-le-mul m_size m_size 1 (thread_num + 2) (omega arith) (omega arith))

  thread_num-le : (i : ℕ) → i < m_size → thread_num + 2 ≤ m_size * (thread_num + 2)
  thread_num-le i h =
      omega
        (arith, mul-le-mul 1 m_size (thread_num + 2) (thread_num + 2) (omega arith) (omega arith))

  -- A product that is small is no different for the conversions.
  datum_lem :
      (i k : ℕ)
      → i < m_size
      → k ≤ thread_num + 2
      → (i + 1) * k < 2 ^ 31
      → to_int ((i + 1) % 2 ^ 32 * (k % word) % word) ≡ pos ((i + 1) * k)
  datum_lem i k h le fits =
      let e1 : (i + 1) % 2 ^ 32 ≡ i + 1 = omega (arith, m_size-le) in
      let e2 : k % word ≡ k = omega (arith, thread_num-le i h) in
      let e3 : (i + 1) * k % word ≡ (i + 1) * k = omega arith in
      rw (e1, e2) (rw e3 (to_int-pos ((i + 1) * k) fits))

  datum_a-pos : (i : ℕ) → i < m_size → datum_a thread_num i ≡ pos (a_of i)
  datum_a-pos i h = datum_lem i (thread_num + 1) h (omega arith) (omega (arith, a_of-le i h))

  datum_b-pos : (i : ℕ) → i < m_size → datum_b thread_num i ≡ pos (b_of i)
  datum_b-pos i h = datum_lem i (thread_num + 2) h (omega arith) (omega (arith, b_of-le i h))

  module _ (w1 w2 : ℕ)
      (fits : sum_of w1 w2 (m_size * (thread_num + 2)) (m_size * (thread_num + 2)) < 2 ^ 31) where
    abbrev value_of : ℕ → ℕ
    value_of i = sum_of w1 w2 (a_of i) (b_of i)

    value_of-lt : (i : ℕ) → i < m_size → value_of i < 2 ^ 31
    value_of-lt i h =
        let top = m_size * (thread_num + 2) in
        let p =
          mul-le-mul (w1 * a_of i) (w1 * top) (a_of i) top (mul-le-mul_left w1 (a_of-le i h))
            (a_of-le i h) in
        let q =
          mul-le-mul (w2 * b_of i) (w2 * top) (b_of i) top (mul-le-mul_left w2 (b_of-le i h))
            (b_of-le i h) in
        omega arith

    reference_at :
        (i : ℕ)
        → i < m_size
        → reference (pos w1) (pos w2) (datum_a thread_num i) (datum_b thread_num i)
          ≡ some (pos (value_of i))
    reference_at i h =
        let one_a : 1 ≤ a_of i =
          mul-le-mul 1 (i + 1) 1 (thread_num + 1) (omega arith) (omega arith) in
        let one_b : 1 ≤ b_of i =
          mul-le-mul 1 (i + 1) 1 (thread_num + 2) (omega arith) (omega arith) in
        rw (datum_a-pos i h, datum_b-pos i h)
          (reference-pos w1 w2 (a_of i) (b_of i) one_a one_b (value_of-lt i h))

    computes :
        Computes
          (filled m_size 0 (datum_a thread_num))
          (filled m_size 0 (datum_b thread_num))
          (pos w1)
          (pos w2)
          m_size
          (λ i. pos (value_of i))
    unfolding weighted reference
    computes i h = (
      datum_a thread_num i,
      datum_b thread_num i,
      get_elem?-filled m_size 0 i (datum_a thread_num) h
          ∙ ap (λ (k : ℕ). some (datum_a thread_num k)) (omega arith),
      get_elem?-filled m_size 0 i (datum_b thread_num) h
          ∙ ap (λ (k : ℕ). some (datum_b thread_num k)) (omega arith),
      reference_at i h,
    )

    -- A thread whose data do not overflow, with a driver that hands its two data sets to the kernel,
    -- lets the device run work-items that cover the output buffer in any order, and copies that
    -- buffer back, reports SUCCESS, with every value correct.
    pub thread_start-success :
        (run_driver : RunDriver) (is : List ℕ) (d : Device)
        → 0 < m_size
        → All (λ i. i < m_size) is
        → ((j : ℕ) → j < m_size → Among j is)
        → length d.output ≡ m_size
        → ((d' : Device)
            → run_items
                (filled m_size 0 (datum_a thread_num))
                (filled m_size 0 (datum_b thread_num))
                (pos w1)
                (pos w2)
                m_size
                is
                d
              ≡ some d'
            → run_driver
                (filled m_size 0 (datum_a thread_num))
                (filled m_size 0 (datum_b thread_num))
                (pos w1)
                (pos w2)
              ≡ d'.output)
        → thread_start m_size (pos w1) (pos w2) run_driver thread_num
          ≡ some (record {
            correct = m_size;
            m_size = m_size;
            thread_num = thread_num;
            success = true;
          })
    unfolding thread_start
    thread_start-success run_driver is d some_item inside every len drives =
        let mA = filled m_size 0 (datum_a thread_num) in
        let mB = filled m_size 0 (datum_b thread_num) in
        let (d', e, len', reads, status) =
          run_items-order mA mB (pos w1) (pos w2) m_size (λ i. pos (value_of i)) is d computes
            inside every some_item len in
        let mC : run_driver mA mB (pos w1) (pos w2) ≡ filled m_size 0 (λ i. pos (value_of i)) =
          drives d' e
          ∙ filled_ext d'.output m_size 0 (λ i. pos (value_of i)) len'
              (λ j lt. reads j lt ∙ ap (λ (k : ℕ). some (pos (value_of k))) (omega arith)) in
        let refs =
          references-filled m_size 0 (pos w1) (pos w2) (datum_a thread_num) (datum_b thread_num)
            (λ i. pos (value_of i)) (λ j le lt. reference_at j (omega arith)) in
        rw refs (rw mC (rw (count_correct_self m_size 0 value_of, ==_refl m_size)))
