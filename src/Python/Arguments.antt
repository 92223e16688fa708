-- ===== src/Python/Arguments.antt =====
-- The arguments that the assemblers in C++ and in Python read of a line.
use osh.Prelude.{
  ℕ, zero, suc, ◌≡◌, ap, List, [], ◌∷◌, Bool, true, false, Option, none, some, some_inj,
  >>=-eq-some, if◌then◌else◌, ◌>>=◌, get_elem?, get_or, Option-cases, inl, inr,
}
use osh.Machine.Encode
use osh.Machine.Encode.{has_args, has_two_args, has_three_args}
use osh.Machine.Decode
use osh.Python.{Line, Args, third_arg, later_args, some_args, tested_args, read_args}

-- None is 0 in C++.
abbrev pub blank : Option ℕ → ℕ
blank none = 0
blank (some a) = a

abbrev pub blanks : Args → Decode.Args
blanks (arg1, arg2, arg3) = (blank arg1, blank arg2, blank arg3)

-- A line of the C++ program: the label or 0, and four more numbers, with 0 for those that are not
-- given.
abbrev pub ported : Line → Encode.Instr
ported (label, instr) =
    blank label ∷ get_or instr 0 0 ∷ get_or instr 1 0 ∷ get_or instr 2 0 ∷ get_or instr 3 0 ∷ []

pub get_or-found : (xs : List ℕ) (i : ℕ) {v : ℕ} → get_elem? xs i ≡ some v → get_or xs i 0 ≡ v
get_or-found [] i h = cc
get_or-found (x ∷ xs) zero h = some_inj h
get_or-found (x ∷ xs) (suc i) h = get_or-found xs i h

-- What the C++ assembler reads of a line, with the tests of the opcode taken out.
abbrev third_number : Bool → Encode.Instr → Option ℕ
third_number three instr = if three then get_elem? instr 4 else some 0

abbrev later_numbers : Bool → Encode.Instr → Option (ℕ × ℕ)
later_numbers three instr = do
  arg2 ← get_elem? instr 3
  arg3 ← third_number three instr
  some (arg2, arg3)

abbrev some_numbers : Bool → Bool → Encode.Instr → Option Decode.Args
some_numbers two three instr = do
  arg1 ← get_elem? instr 2
  (arg2, arg3) ← if two then later_numbers three instr else some (0, 0)
  some (arg1, arg2, arg3)

third_arg-read :
    (instr : List ℕ) (a2 : ℕ) {rest : Option ℕ × Option ℕ}
    → ◌>>=◌ {B = Option ℕ × Option ℕ} (third_arg true instr) (λ arg3. some (some a2, arg3))
      ≡ some rest
    → ◌>>=◌ {B = Option ℕ × Option ℕ} (get_elem? instr 3) (λ a3. some (some a2, some a3))
      ≡ some rest
third_arg-read instr a2 h = elim (Option-cases (get_elem? instr 3)) [
  | inl e ↦ rw e (rw e at h)
  | inr (a3, e) ↦ rw e (rw e at h)
]

later_args-ported :
    (label : Option ℕ) (instr : List ℕ) (three : Bool) {rest : Option ℕ × Option ℕ}
    → later_args three instr ≡ some rest
    → later_numbers three (ported (label, instr)) ≡ some (blank rest.0, blank rest.1)
later_args-ported label instr false h =
    let (a2, e2, h₁) = >>=-eq-some (get_elem? instr 2) _ h in
    rw (get_or-found instr 2 e2)
      (ap (λ (o : Option ℕ × Option ℕ). some (blank o.0, blank o.1)) (some_inj h₁))
later_args-ported label instr true h =
    let (a2, e2, h₁) = >>=-eq-some (get_elem? instr 2) _ h in
    let (a3, e3, h₂) = >>=-eq-some (get_elem? instr 3) _ (third_arg-read instr a2 h₁) in
    rw (get_or-found instr 2 e2, get_or-found instr 3 e3)
      (ap (λ (o : Option ℕ × Option ℕ). some (blank o.0, blank o.1)) (some_inj h₂))

some_args-ported :
    (label : Option ℕ) (instr : List ℕ) (two three : Bool) {args : Args}
    → some_args two three instr ≡ some args
    → some_numbers two three (ported (label, instr)) ≡ some (blanks args)
some_args-ported label instr false three h =
    let (a1, e1, h₁) = >>=-eq-some (get_elem? instr 1) _ h in
    rw (get_or-found instr 1 e1) (ap (λ (o : Args). some (blanks o)) (some_inj h₁))
some_args-ported label instr true three h =
    let (a1, e1, h₁) = >>=-eq-some (get_elem? instr 1) _ h in
    let (rest, e, h₂) = >>=-eq-some (later_args three instr) _ h₁ in
    rw (get_or-found instr 1 e1, later_args-ported label instr three e)
      (ap (λ (o : Args). some (blanks o)) (some_inj h₂))

tested_args-ported :
    (label : Option ℕ) (instr : List ℕ) (any two three : Bool) {args : Args}
    → tested_args any two three instr ≡ some args
    → (if any then some_numbers two three (ported (label, instr)) else some (0, 0, 0))
      ≡ some (blanks args)
tested_args-ported label instr false two three h = ap (λ (o : Args). some (blanks o)) (some_inj h)
tested_args-ported label instr true two three h = some_args-ported label instr two three h

pub read_args-ported :
    (label : Option ℕ) (opcode : ℕ) (instr : List ℕ) {args : Args}
    → read_args opcode instr ≡ some args
    → Encode.read_args opcode (ported (label, instr)) ≡ some (blanks args)
unfolding read_args Encode.read_args
read_args-ported label opcode instr h =
    tested_args-ported label instr (has_args opcode) (has_two_args opcode) (has_three_args opcode) h
