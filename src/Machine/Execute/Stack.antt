-- ===== src/Machine/Execute/Stack.antt =====
-- What PUSH and POP do with the stack, and BL with its target.
use osh.Prelude.{
  ℕ, ◌+◌, ◌<◌, ◌≡◌, ◌≢◌, sym, ◌∙◌, List, some, arith, ne→==, ==_refl, get_elem?, write?, length,
  Ram, update, update_self, update_ne, lt→ltb, ◌>>=◌, add64, sub64, word, get_elem?-write?,
  write?_total, length-write?,
}
use osh.Machine.Opcode
use osh.Machine.Constants.{sp, nregs}
use osh.Machine.Execute.{execute_instruction}

-- PUSH and POP where every access is in range.
push_lem :
    (registers : List ℕ) (m : Ram) (r1 v top : ℕ) {registers' : List ℕ}
    → get_elem? registers sp ≡ some top
    → get_elem? registers r1 ≡ some v
    → top < m.size
    → write? registers sp (add64 top 1) ≡ some registers'
    → execute_instruction Opcode.push (r1, 0, 0) registers m
      ≡ some (registers', record m { cells = update m.cells top v })
unfolding execute_instruction
push_lem registers m r1 v top p q room w = rw p (rw q (rw (lt→ltb _ _ room) (rw w)))

pop_lem :
    (registers : List ℕ) (m : Ram) (r1 top at : ℕ) {registers₁ registers₂ : List ℕ}
    → get_elem? registers sp ≡ some top
    → top < m.size
    → write? registers r1 (m.cells top) ≡ some registers₁
    → get_elem? registers₁ sp ≡ some at
    → write? registers₁ sp (sub64 at 1) ≡ some registers₂
    → execute_instruction Opcode.pop (r1, 0, 0) registers m ≡ some (registers₂, m)
unfolding execute_instruction
pop_lem registers m r1 top at p room w₁ q w₂ = rw p (rw (lt→ltb _ _ room) (rw w₁ (rw q (rw w₂))))

-- PUSH of `r1` and then POP into `r2`, neither of them the stack pointer, with the pointer at `top`
-- below the last word: POP reads the word above the one that PUSH wrote, so the pushed value is not
-- what comes back, while the pointer returns to `top`.
pub push-pop :
    (registers : List ℕ) (m : Ram) (r1 r2 v top : ℕ)
    → length registers ≡ nregs
    → r2 < nregs
    → r2 ≢ sp
    → get_elem? registers r1 ≡ some v
    → get_elem? registers sp ≡ some top
    → top + 1 < m.size
    → m.size < word
    → (registers' : List ℕ) × (m' : Ram) × ((execute_instruction Opcode.push (r1, 0, 0) registers m
          >>= λ s. execute_instruction Opcode.pop (r2, 0, 0) s.0 s.1)
        ≡ some (registers', m'))
      × (m'.cells top ≡ v)
      × (get_elem? registers' r2 ≡ some (m.cells (top + 1)))
      × (get_elem? registers' sp ≡ some top)
push-pop registers m r1 r2 v top len in_range ne value pointer room fits =
    let up : add64 top 1 ≡ top + 1 = omega arith in
    let down : sub64 (top + 1) 1 ≡ top = omega arith in
    let (f₁, w₁) = write?_total registers sp (top + 1) (omega (arith, len)) in
    let len₁ : length f₁ ≡ nregs = length-write? registers sp (top + 1) w₁ ∙ len in
    let word_above : ℕ = m.cells (top + 1) in
    let (f₂, w₂) = write?_total f₁ r2 word_above (omega (arith, len₁)) in
    let at₁ : get_elem? f₁ sp ≡ some (top + 1) = get_elem?-write? registers sp (top + 1) w₁ sp in
    let at₂ : get_elem? f₂ sp ≡ some (top + 1) =
      get_elem?-write? f₁ r2 word_above w₂ sp ∙ rw (ne→== r2 sp ne) at₁ in
    let (f₃, w₃) =
      write?_total f₂ sp top (omega (arith, len₁, length-write? f₁ r2 word_above w₂)) in
    let m₁ : Ram = record m { cells = update m.cells top v } in
    (
      f₃,
      m₁,
      rw (push_lem registers m r1 v top {registers' = f₁} pointer value (omega arith) (rw up w₁)) (
          pop_lem f₁ m₁ r2 (top + 1) (top + 1) {registers₁ = f₂} {registers₂ = f₃} at₁ room
            (rw (update_ne m.cells top (top + 1) v (omega arith)) w₂) at₂ (rw down w₃)),
      update_self m.cells top v,
      get_elem?-write? f₂ sp top w₃ r2
          ∙ rw (ne→== sp r2 (λ e. ne (sym e)))
              (get_elem?-write? f₁ r2 word_above w₂ r2 ∙ rw ==_refl),
      get_elem?-write? f₂ sp top w₃ sp,
    )
