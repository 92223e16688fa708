-- ===== src/Coursework/Testbench/Check.antt =====
-- What it means that a thread reports SUCCESS.
use osh.Prelude.{
  ℕ, zero, suc, ◌≤◌, ◌≡◌, refl, sym, ap, ◌∙◌, List, [], ◌∷◌, some, some_inj, >>=-eq-some, arith,
  ◌==◌, if◌then◌else◌, length, true, Bool-cases, inl, inr,
}
use osh.Coursework.Ints.{ℤ, pos, negsuc, sub_int, equals_zero}
use osh.Coursework.Testbench.{
  references, count_correct, Report, RunDriver, thread_start, filled, datum_a, datum_b,
}

-- A difference of zero is between equal values.
sub_int-zero : (a b z : ℤ) → sub_int a b ≡ some z → equals_zero z ≡ true → a ≡ b
sub_int-zero (pos a) (pos zero) z e h = ground arith
sub_int-zero (pos a) (pos (suc b)) z e h = ground arith
sub_int-zero (pos a) (negsuc b) z e h = ground arith
sub_int-zero (negsuc a) (pos zero) z e h = ground arith
sub_int-zero (negsuc a) (pos (suc b)) z e h = ground arith
sub_int-zero (negsuc a) (negsuc b) z e h = ground arith

-- the equal places, counted
count_correct-step :
    (c r : ℤ) (mC mCref : List ℤ) {n : ℕ}
    → count_correct (c ∷ mC) (r ∷ mCref) ≡ some n
    → (z : ℤ) × (k : ℕ) × (sub_int c r ≡ some z)
      × (count_correct mC mCref ≡ some k)
      × (n ≡ (if equals_zero z then suc k else k))
unfolding count_correct
count_correct-step c r mC mCref e =
    let (z, p, e₁) = >>=-eq-some (sub_int c r) _ e in
    let (k, q, e₂) = >>=-eq-some (count_correct mC mCref) _ e₁ in (z, k, p, q, sym (some_inj e₂))

count_correct-le : (mC mCref : List ℤ) {n : ℕ} → count_correct mC mCref ≡ some n → n ≤ length mCref
unfolding count_correct
count_correct-le mC [] e = let p = some_inj e in omega arith
count_correct-le [] (r ∷ mCref) e = cc
count_correct-le (c ∷ mC) (r ∷ mCref) {n} e =
    let (z, k, p, q, count) = count_correct-step c r mC mCref e in
    ground (arith, count_correct-le mC mCref q)

count_correct-all :
    (mC mCref : List ℤ)
    → length mC ≡ length mCref
    → count_correct mC mCref ≡ some (length mCref)
    → mC ≡ mCref
unfolding count_correct
count_correct-all [] [] len e = refl
count_correct-all [] (r ∷ mCref) len e = cc
count_correct-all (c ∷ mC) [] len e = absurd (omega arith)
count_correct-all (c ∷ mC) (r ∷ mCref) len e =
    let (z, k, p, q, count) = count_correct-step c r mC mCref e in
    elim (Bool-cases (equals_zero z)) [
      | inl t ↦
          let same : length mCref ≡ k = ground (arith, count) in
          rw (
            sub_int-zero c r z p t,
            count_correct-all mC mCref (omega arith) (q ∙ ap some (sym same)),
          )
      | inr f ↦
          let more : suc (length mCref) ≡ k = ground (arith, count) in
          absurd (omega (arith, count_correct-le mC mCref q))
    ]

-- A thread that reports SUCCESS has got from the driver exactly the values that it computed itself.
pub thread_start_sound :
    (m_size : ℕ) (w1 w2 : ℤ) (run_driver : RunDriver) (thread_num : ℕ) (mCref : List ℤ)
    {report : Report}
    → references w1 w2 (filled m_size 0 (datum_a thread_num)) (filled m_size 0 (datum_b thread_num))
      ≡ some mCref
    → length mCref ≡ m_size
    → length (
        run_driver
          (filled m_size 0 (datum_a thread_num))
          (filled m_size 0 (datum_b thread_num))
          w1
          w2)
      ≡ m_size
    → thread_start m_size w1 w2 run_driver thread_num ≡ some report
    → report.success ≡ true
    → run_driver (filled m_size 0 (datum_a thread_num)) (filled m_size 0 (datum_b thread_num)) w1 w2
      ≡ mCref
unfolding thread_start
thread_start_sound m_size w1 w2 run_driver thread_num mCref {report} refs len lens e ok =
    let mC : List ℤ =
      run_driver (filled m_size 0 (datum_a thread_num)) (filled m_size 0 (datum_b thread_num)) w1
        w2 in
    let (cs, p, e₁) = >>=-eq-some (references w1 w2 _ _) _ e in
    let same : cs ≡ mCref = some_inj (sym p ∙ refs) in
    let (correct, q, e₂) = >>=-eq-some (count_correct mC cs) _ e₁ in
    let told : report ≡ record {
      correct = correct;
      m_size = m_size;
      thread_num = thread_num;
      success = correct == m_size;
    } =
      sym (some_inj e₂) in
    let all : correct ≡ m_size = ground (arith, ap (λ (r : Report). r.success) told) in
    count_correct-all mC mCref (lens ∙ sym len)
      (ap (count_correct mC) (sym same) ∙ q ∙ ap some (all ∙ sym len))
