-- ===== src/Python/Words.antt =====
-- The words that the assemblers in C++ and in Python make of a line.
use osh.Prelude.{
  ℕ, ◌+◌, ◌*◌, ◌^◌, ◌<◌, ◌≡◌, sym, ap, List, ◌||◌, Bool, true, false, Option, none, some, some_inj,
  >>=-eq-some, ◌==◌, if◌then◌else◌, ◌>>=◌, get_elem?, word, add64, shl64, arith,
}
use osh.Machine.Opcode
use osh.Machine.Constants.{code}
use osh.Machine.Encode
use osh.Machine.Encode.{has_args, has_two_args, has_three_args}
use osh.Python.{Labels, Args, shifted, target, read_args, encode_word, encode_instruction}
use osh.Python.Arguments.{blank, blanks, ported, get_or-found, read_args-ported}

-- The storage reads as the dictionary at its keys.
abbrev pub Reads : List ℕ → Labels → Type 0
Reads storage labels = (l v : ℕ) → labels l ≡ some v → get_elem? storage l ≡ some v

target-ported :
    (arg : Option ℕ) (labels : Labels) (storage : List ℕ) {address : ℕ}
    → Reads storage labels
    → target arg labels ≡ some address
    → (line : ℕ) × (get_elem? storage (blank arg) ≡ some line) × (address ≡ line + code)
target-ported none labels storage reads h = cc
target-ported (some l) labels storage reads h =
    let (line, e, h₁) = >>=-eq-some (labels l) _ h in (line, reads l line e, some_inj (sym h₁))

shifted-ported : (arg : Option ℕ) (k : ℕ) {a : ℕ} → shifted arg k ≡ some a → a ≡ blank arg * 2 ^ k
shifted-ported none k h = cc
shifted-ported (some a) k h = some_inj (sym h)

jump-ported :
    (opcode : ℕ) (arg1 : Option ℕ) (labels : Labels) (storage : List ℕ) {w : ℕ}
    → Reads storage labels
    → w < word
    → (target arg1 labels >>= λ arg1_. some (opcode + arg1_ * 2 ^ 8)) ≡ some w
    → (get_elem? storage (blank arg1) >>= λ line. some (add64 opcode (shl64 (add64 line code) 8)))
      ≡ some w
jump-ported opcode arg1 labels storage {w} reads fits h =
    let (address, e, h₁) = >>=-eq-some (target arg1 labels) _ h in
    let (line, found, same) = target-ported arg1 labels storage reads e in
    let sum : opcode + address * 2 ^ 8 ≡ w = some_inj h₁ in
    let all : add64 opcode (shl64 (add64 line code) 8) ≡ w = omega arith in rw found (ap some all)

conditional-ported :
    (opcode : ℕ) (arg1 arg2 : Option ℕ) (labels : Labels) (storage : List ℕ) {w : ℕ}
    → Reads storage labels
    → w < word
    → (target arg2 labels >>= λ arg2_. shifted arg1 8 >>= λ a. some (opcode + a + arg2_ * 2 ^ 16))
      ≡ some w
    → (get_elem? storage (blank arg2) >>= λ line.
        some (add64 (add64 opcode (shl64 (blank arg1) 8)) (shl64 (add64 line code) 16)))
      ≡ some w
conditional-ported opcode arg1 arg2 labels storage {w} reads fits h =
    let (address, e, h₁) = >>=-eq-some (target arg2 labels) _ h in
    let (line, found, same) = target-ported arg2 labels storage reads e in
    let (a, e₁, h₂) = >>=-eq-some (shifted arg1 8) _ h₁ in
    let first = shifted-ported arg1 8 e₁ in
    let sum : opcode + a + address * 2 ^ 16 ≡ w = some_inj h₂ in
    let all : add64 (add64 opcode (shl64 (blank arg1) 8)) (shl64 (add64 line code) 16) ≡ w =
      omega (arith, first) in
    rw found (ap some all)

immediate-ported :
    (opcode : ℕ) (arg1 arg2 : Option ℕ) {w : ℕ}
    → w < word
    → (shifted arg1 8 >>= λ a. shifted arg2 16 >>= λ b. some (opcode + a + b)) ≡ some w
    → some (add64 (add64 opcode (shl64 (blank arg1) 8)) (shl64 (blank arg2) 16)) ≡ some w
immediate-ported opcode arg1 arg2 {w} fits h =
    let (a, e₁, h₁) = >>=-eq-some (shifted arg1 8) _ h in
    let (b, e₂, h₂) = >>=-eq-some (shifted arg2 16) _ h₁ in
    let sum : opcode + a + b ≡ w = some_inj h₂ in
    let all : add64 (add64 opcode (shl64 (blank arg1) 8)) (shl64 (blank arg2) 16) ≡ w =
      omega (arith, shifted-ported arg1 8 e₁, shifted-ported arg2 16 e₂) in
    ap some all

registers-ported :
    (opcode : ℕ) (arg1 arg2 arg3 : Option ℕ) {w : ℕ}
    → w < word
    → (shifted arg1 8 >>= λ a.
        shifted arg2 16 >>= λ b. shifted arg3 24 >>= λ c. some (opcode + a + b + c))
      ≡ some w
    → some (
        add64
          (add64 (add64 opcode (shl64 (blank arg1) 8)) (shl64 (blank arg2) 16))
          (shl64 (blank arg3) 24))
      ≡ some w
registers-ported opcode arg1 arg2 arg3 {w} fits h =
    let (a, e₁, h₁) = >>=-eq-some (shifted arg1 8) _ h in
    let (b, e₂, h₂) = >>=-eq-some (shifted arg2 16) _ h₁ in
    let (c, e₃, h₃) = >>=-eq-some (shifted arg3 24) _ h₂ in
    let sum : opcode + a + b + c ≡ w = some_inj h₃ in
    let all : add64 (add64 (add64 opcode (shl64 (blank arg1) 8)) (shl64 (blank arg2) 16))
          (shl64 (blank arg3) 24)
        ≡ w =
      omega
        (arith, shifted-ported arg1 8 e₁, shifted-ported arg2 16 e₂, shifted-ported arg3 24 e₃) in
    ap some all

-- One test in both.
branch {ℓ} :
    {A : Type ℓ} (test : Bool) {x y x' y' r : A}
    → (x ≡ r → x' ≡ r)
    → (y ≡ r → y' ≡ r)
    → (if test then x else y) ≡ r
    → (if test then x' else y') ≡ r
branch true f g h = f h
branch false f g h = g h

encode_word-ported :
    (opcode : ℕ) (args : Args) (labels : Labels) (storage : List ℕ) {w : ℕ}
    → Reads storage labels
    → w < word
    → encode_word opcode args labels ≡ some w
    → Encode.encode_word opcode (blanks args) storage ≡ some w
unfolding encode_word Encode.encode_word
encode_word-ported opcode (arg1, arg2, arg3) labels storage reads fits h =
    branch (opcode == Opcode.bl || opcode == Opcode.b)
      (jump-ported opcode arg1 labels storage reads fits)
      (branch (opcode == Opcode.cbz || opcode == Opcode.adr || opcode == Opcode.cbnz)
        (conditional-ported opcode arg1 arg2 labels storage reads fits)
        (branch
          (opcode == Opcode.mov
            || opcode == Opcode.set
            || opcode == Opcode.ldr
            || opcode == Opcode.str)
          (immediate-ported opcode arg1 arg2 fits)
          (branch (opcode == Opcode.nop || opcode == Opcode.wfi) (λ e. e)
            (registers-ported opcode arg1 arg2 arg3 fits))))
      h

pub encode_instruction-ported :
    (label : Option ℕ) (instr : List ℕ) (labels : Labels) (storage : List ℕ) {w : ℕ}
    → Reads storage labels
    → w < word
    → encode_instruction instr labels ≡ some w
    → Encode.encode_instruction (ported (label, instr)) storage ≡ some w
unfolding encode_instruction Encode.encode_instruction
encode_instruction-ported label instr labels storage reads fits h =
    let (opcode, e, h₁) = >>=-eq-some (get_elem? instr 0) _ h in
    let (args, e₁, h₂) = >>=-eq-some (read_args opcode instr) _ h₁ in
    rw (get_or-found instr 0 e) (
      rw (read_args-ported label opcode instr e₁)
        (encode_word-ported opcode args labels storage reads fits h₂))
