-- ===== src/Machine/Execute/Description.antt =====
-- The instruction set by an independent description: registers and memory as functions, numbers
-- modulo 2 ^ 64.
use osh.Prelude.{
  ℕ, ◌+◌, ◌-◌, ◌*◌, ◌/◌, ◌%◌, ◌^◌, List, not, ◌==◌, if◌then◌else◌, get_or, Ram, update,
}
use osh.Machine.Constants.{sp, lr, pc}
use osh.Machine.Decode.{Args}
use osh.Machine.Encode.Layout.{Op}

-- The contents of every register and of every word.
abbrev pub View : Type 0
View = (ℕ → ℕ) × (ℕ → ℕ)

abbrev pub view : List ℕ → Ram → View
view registers m = (λ j. get_or registers j 0, m.cells)

-- the results of the calculating instructions
abbrev pub calculate : Op → ℕ → ℕ → ℕ
calculate Op.add x y = (x + y) % 2 ^ 64
calculate Op.sub x y = (x + 2 ^ 64 - y) % 2 ^ 64
calculate Op.mul x y = x * y % 2 ^ 64
calculate Op.div x y = x / y
calculate Op.and x y = if x == 0 then 0 else if y == 0 then 0 else 1
calculate Op.or x y = if x == 0 then (if y == 0 then 0 else 1) else 1
calculate Op.eor x y = if x == 0 then (if y == 0 then 0 else 1) else if y == 0 then 1 else 0
calculate Op.ars x y = x / 2 ^ y
calculate Op.als x y = x * 2 ^ y % 2 ^ 64
calculate _ x y = 0

-- What an instruction does, where it has a result.
abbrev pub perform : Op → Args → View → View
perform Op.ldr (a1, a2, a3) (r, m) = (update r a1 (m a2), m)
perform Op.str (a1, a2, a3) (r, m) = (r, update m (r a2) (r a1))
perform Op.push (a1, a2, a3) (r, m) = (update r sp ((r sp + 1) % 2 ^ 64), update m (r sp) (r a1))
perform Op.pop (a1, a2, a3) (r, m) =
    let r' = update r a1 (m (r sp)) in (update r' sp ((r' sp + 2 ^ 64 - 1) % 2 ^ 64), m)
perform Op.cbz (a1, a2, a3) (r, m) = (if r a1 == 0 then update r pc a2 else r, m)
perform Op.cbnz (a1, a2, a3) (r, m) = (if not (r a1 == 0) then update r pc a2 else r, m)
perform Op.bl (a1, a2, a3) (r, m) = (update (update r lr (r pc)) pc a2, m)
perform Op.bx (a1, a2, a3) (r, m) = (update r pc (r a1), m)
perform Op.mov (a1, a2, a3) (r, m) = (update r a1 (r a2), m)
perform Op.set (a1, a2, a3) (r, m) = (update r a1 a2, m)
perform Op.nop args v = v
perform Op.wfi args v = v
perform op (a1, a2, a3) (r, m) = (update r a1 (calculate op (r a2) (r a3)), m)
