-- ===== src/Machine/Encode/Labels.antt =====
-- Which line a label stands for in each encoded instruction: the assembler makes one pass.
use osh.Prelude.{
  ℕ, zero, suc, ◌+◌, ◌<◌, ◌≡◌, ◌≢◌, ap, ◌∙◌, sym, List, [], ◌∷◌, ◌++◌, some, arith, ne→==, ◌==◌,
  if◌then◌else◌, length, get_elem?, replicate, write?, >>=-eq-some, some_inj, length-write?,
  get_elem?-write?, length-replicate, get_elem?-replicate,
}
use osh.Machine.Encode.{Instr, define_label, encode_instruction, encode_from, encode_program}

-- the label of a line; a line with no fields has none
abbrev pub label_of : Instr → ℕ
label_of [] = 0
label_of (label ∷ _) = label

-- The last of the lines that defines the label `l`, or `current` if none does; the first of the
-- lines has the number `pc`.
abbrev pub last_line : List Instr → ℕ → ℕ → ℕ → ℕ
last_line [] pc l current = current
last_line (instr ∷ rest) pc l current =
    last_line rest (pc + 1) l (if label_of instr == l then pc else current)

-- The storage reads as `f` at the labels in range.
abbrev pub Reads : List ℕ → (ℕ → ℕ) → Type 0
Reads labels f = (l : ℕ) → l ≢ 0 → l < length labels → get_elem? labels l ≡ some (f l)

pub define_label-suc :
    (label : ℕ) (instr : Instr) (pc : ℕ) (labels : List ℕ)
    → define_label (suc label ∷ instr) pc labels ≡ write? labels (suc label) pc
unfolding define_label
define_label-suc label instr pc labels = ground arith

pub define_label-length :
    (instr : Instr) (pc : ℕ) (labels : List ℕ) {labels' : List ℕ}
    → define_label instr pc labels ≡ some labels'
    → length labels' ≡ length labels
unfolding define_label
define_label-length [] pc labels h = cc
define_label-length (zero ∷ instr) pc labels h = ap length (sym (some_inj h))
define_label-length (suc label ∷ instr) pc labels h =
    length-write? labels (suc label) pc (sym (define_label-suc label instr pc labels) ∙ h)

pub define_label-Reads :
    (instr : Instr) (pc : ℕ) (labels : List ℕ) (f : ℕ → ℕ) {labels' : List ℕ}
    → Reads labels f
    → define_label instr pc labels ≡ some labels'
    → Reads labels' (λ l. if label_of instr == l then pc else f l)
unfolding define_label
define_label-Reads [] pc labels f r h l hl lt = cc
define_label-Reads (zero ∷ instr) pc labels f {labels'} r h l hl lt =
    let e : labels' ≡ labels = some_inj (sym h) in
    rw (e, ne→== 0 l (λ p. hl (sym p))) (r l hl (rw e at lt))
define_label-Reads (suc label ∷ instr) pc labels f {labels'} r h l hl lt = ground (
  arith,
  get_elem?-write? labels (suc label) pc (sym (define_label-suc label instr pc labels) ∙ h) l,
  define_label-length (suc label ∷ instr) pc labels h,
  r l hl,
)

-- The word at a line comes from a table of labels that knows the lines up to that one.
encode_from-lookup :
    (before : List Instr) (instr : Instr) (after : List Instr) (pc : ℕ) (labels : List ℕ)
    (f : ℕ → ℕ) {iws : List ℕ}
    → Reads labels f
    → encode_from (before ++ instr ∷ after) pc labels ≡ some iws
    → (table : List ℕ) × (word : ℕ) × (get_elem? iws (length before) ≡ some word)
      × (encode_instruction instr table ≡ some word)
      × (length table ≡ length labels)
      × Reads table (λ l. last_line (before ++ instr ∷ []) pc l (f l))
unfolding encode_from
encode_from-lookup [] instr after pc labels f {iws} r h =
    let (table, p, h₁) = >>=-eq-some (define_label instr pc labels) _ h in
    let (word, q, h₂) = >>=-eq-some (encode_instruction instr table) _ h₁ in
    let (rest, _, e) = >>=-eq-some (encode_from after (pc + 1) table) _ h₂ in
    let e' : iws ≡ word ∷ rest = some_inj (sym e) in
    (
      table,
      word,
      ap (λ r. get_elem? r 0) e',
      q,
      define_label-length instr pc labels p,
      define_label-Reads instr pc labels f r p,
    )
encode_from-lookup (first ∷ before) instr after pc labels f {iws} r h =
    let (table, p, h₁) = >>=-eq-some (define_label first pc labels) _ h in
    let (word, q, h₂) = >>=-eq-some (encode_instruction first table) _ h₁ in
    let (rest, h₃, e) = >>=-eq-some (encode_from (before ++ instr ∷ after) (pc + 1) table) _ h₂ in
    let e' : iws ≡ word ∷ rest = some_inj (sym e) in
    let (t, w, at, enc, len, reads) =
      encode_from-lookup before instr after (pc + 1) table _
        (define_label-Reads first pc labels f r p) h₃ in
    (
      t,
      w,
      ap (λ r. get_elem? r (suc (length before))) e' ∙ at,
      enc,
      len ∙ define_label-length first pc labels p,
      reads,
    )

pub Reads-replicate : (n : ℕ) → Reads (replicate n 0) (λ _. 0)
Reads-replicate n l hl lt = get_elem?-replicate n 0 l (rw length-replicate at lt)

-- The word that the assembler makes of a line is the one made with a table that holds, for every
-- label, the last line up to and including this one that defines it, and 0 where none of them does.
pub encode_program-lookup :
    (before : List Instr) (instr : Instr) (after : List Instr) {iws : List ℕ}
    → encode_program (before ++ instr ∷ after) ≡ some iws
    → (table : List ℕ) × (word : ℕ) × (get_elem? iws (length before) ≡ some word)
      × (encode_instruction instr table ≡ some word)
      × (length table ≡ length (before ++ instr ∷ after))
      × ((l : ℕ)
          → l ≢ 0
          → l < length table
          → get_elem? table l ≡ some (last_line (before ++ instr ∷ []) 0 l 0))
unfolding encode_program
encode_program-lookup before instr after h =
    let (table, word, p, q, len, reads) =
      encode_from-lookup before instr after 0 _ (λ _. 0)
        (Reads-replicate (length (before ++ instr ∷ after))) h in
    (table, word, p, q, len ∙ length-replicate (length (before ++ instr ∷ after)) 0, reads)
