-- ===== src/Python/Port.antt =====
-- The assembler and the decoder in C++ against those in Python.
use osh.Prelude.{
  ℕ, suc, ◌+◌, ◌<◌, ◌≡◌, ◌≢◌, refl, sym, ap, ◌∙◌, List, [], ◌∷◌, ◌||◌, Bool, true, false, Option,
  none, some, some_inj, >>=-eq-some, ◌==◌, if◌then◌else◌, length, replicate, word, arith, All,
  ne→==, write?_total, get_elem?-write?, length-write?, length-replicate, subst,
}
use mathlib.Core.List.{map}
use osh.Machine.Opcode
use osh.Machine.Encode
use osh.Machine.Decode
use osh.Python.{
  Line, Labels, encode_instruction, define_label, encode_from, encode_program, decode_addr_arg,
  decode_reg_addr_args, decode_3reg_args, decode_instr, decode_args, decode_instruction,
}
use osh.Python.Arguments.{blanks, ported}
use osh.Python.Words.{Reads, encode_instruction-ported}

-- A label that a C++ program of `n` lines can have: a number from 1 to n - 1.
abbrev pub IsLabel : ℕ → Option ℕ → Type 0
IsLabel n none = Unit {0}
IsLabel n (some l) = (l ≢ 0) × (l < n)

define_label-ported :
    (label : Option ℕ) (instr : List ℕ) (pc : ℕ) (labels : Labels) (storage : List ℕ)
    → IsLabel (length storage) label
    → Reads storage labels
    → (storage' : List ℕ) × (Encode.define_label (ported (label, instr)) pc storage ≡ some storage')
      × (length storage' ≡ length storage)
      × Reads storage' (define_label label pc labels)
unfolding Encode.define_label
define_label-ported none instr pc labels storage is reads = (storage, refl, refl, reads)
define_label-ported (some l) instr pc labels storage is reads =
    let (storage', w) = write?_total storage l pc is.1 in
    (
      storage',
      rw (ne→== l 0 is.0) w,
      length-write? storage l pc w,
      λ k v e. ground (arith, get_elem?-write? storage l pc w k, reads k v),
    )

encode_from-ported :
    (program : List Line) (pc : ℕ) (labels : Labels) (storage ws : List ℕ)
    → All (λ line. IsLabel (length storage) line.0) program
    → All (λ w. w < word) ws
    → Reads storage labels
    → encode_from program pc labels ≡ some ws
    → Encode.encode_from (map ported program) pc storage ≡ some ws
unfolding encode_from Encode.encode_from
encode_from-ported [] pc labels storage ws are fit reads h = h
encode_from-ported ((label, instr) ∷ rest) pc labels storage ws are fit reads h =
    let (w, e, h₁) = >>=-eq-some (encode_instruction instr (define_label label pc labels)) _ h in
    let (more, e₁, h₂) =
      >>=-eq-some (encode_from rest (pc + 1) (define_label label pc labels)) _ h₁ in
    let (storage', d, same, reads') =
      define_label-ported label instr pc labels storage are.0 reads in
    let fit' : All (λ w. w < word) (w ∷ more) =
      subst (All (λ w. w < word)) (sym (some_inj h₂)) fit in
    rw d (
      rw
        (encode_instruction-ported label instr (define_label label pc labels) storage' reads' fit'.0
          e)
        (rw
          (encode_from-ported rest (pc + 1) (define_label label pc labels) storage' more
            (rw same are.1) fit'.1 reads' e₁)
          h₂))

-- A function of one of two values.
of_either {ℓ κ} :
    {A : Type ℓ} {B : Type κ} (f : A → B) (test : Bool) (x y : A) {x' y' : B}
    → x' ≡ f x
    → y' ≡ f y
    → (if test then x' else y') ≡ f (if test then x else y)
of_either f true x y p q = p
of_either f false x y p q = q

decode_args-ported : (instr ir : ℕ) → Decode.decode_args instr ir ≡ blanks (decode_args instr ir)
unfolding decode_args Decode.decode_args decode_addr_arg decode_reg_addr_args decode_3reg_args
    Decode.decode_addr_arg Decode.decode_reg_addr_args Decode.decode_3reg_args
decode_args-ported instr ir =
    of_either blanks
      (instr == Opcode.ldr
        || instr == Opcode.str
        || instr == Opcode.mov
        || instr == Opcode.set
        || instr == Opcode.cbz
        || instr == Opcode.cbnz)
      _ _ refl
      (of_either blanks (instr == Opcode.b || instr == Opcode.bl || instr == Opcode.bx) _ _ refl
        (of_either blanks (instr == Opcode.nop || instr == Opcode.wfi) _ _ refl refl))

-- what the Python decoder gives, with 0 for None
abbrev pub blanked : ℕ → ℕ × Decode.Args
blanked ir = ((decode_instruction ir).0, blanks (decode_instruction ir).1)

decode-ported : (ws : List ℕ) → map Decode.decode_instruction ws ≡ map blanked ws
unfolding decode_instruction Decode.decode_instruction decode_instr Decode.decode_instr
decode-ported [] = refl
decode-ported (w ∷ ws) =
    λ i. (decode_instr w, decode_args-ported (decode_instr w) w i) ∷ decode-ported ws i

unknown : {v : ℕ} → ¬ ◌≡◌ {A = Option ℕ} none (some v)
unknown e = cc

map-length : (program : List Line) → length (map ported program) ≡ length program
map-length [] = refl
map-length (line ∷ program) = ap suc (map-length program)

-- What the Python assembler makes of a program, with no exception and with words of 64 bits, the C++
-- assembler makes of it too, where a line without a label has the label 0 and the labels are numbers
-- from 1 up to below the number of the lines; and both decoders read these words alike, but for
-- None, which is 0 in C++.
pub encode_program-ported :
    (program : List Line) (ws : List ℕ)
    → encode_program program ≡ some ws
    → All (λ line. IsLabel (length program) line.0) program
    → All (λ w. w < word) ws
    → (Encode.encode_program (map ported program) ≡ some ws)
      × (map Decode.decode_instruction ws ≡ map blanked ws)
unfolding encode_program Encode.encode_program
encode_program-ported program ws h are fit =
    let storage : List ℕ = replicate (length (map ported program)) 0 in
    let count : length storage ≡ length program =
      length-replicate (length (map ported program)) 0 ∙ map-length program in
    (
      encode_from-ported program 0 (λ _. none) storage ws (rw count are) fit
          (λ l v e. absurd (unknown e)) h,
      decode-ported ws,
    )
