-- ===== src/Machine/Execute/Meaning.antt =====
-- What each instruction does is what its description says.
use osh.Prelude.{
  ℕ, zero, suc, ◌≡◌, refl, sym, ap, ◌∙◌, subst, List, [], ◌∷◌, Bool, true, false, not, Option, none,
  some, arith, ◌==◌, if◌then◌else◌, length, get_elem?, get_or, write?, Ram, load, store, update,
  ◌>>=◌, >>=-eq-some, some_inj, Bool-cases, inl, inr, store-eq-some, get_elem?-write?, sub64,
}
use osh.Machine.Constants.{sp, lr, pc, nregs}
use osh.Machine.Alu.{alu}
use osh.Machine.Decode.{Args}
use osh.Machine.Encode.Layout.{Op, opcode}
use osh.Machine.Execute.{pop_register, branch_on_zero, branch_link, compute, execute_instruction}
use osh.Machine.Execute.Defined.{Needs, execute_instruction-Needs}
use osh.Machine.Execute.Defined.Branches.{get_elem?-lt}
use osh.Machine.Execute.Description.{View, view, calculate, perform}

-- The registers and the memory show a view.
abbrev pub Shows : List ℕ → Ram → View → Type 0
Shows registers m v = ((j : ℕ) → get_or registers j 0 ≡ v.0 j) × ((a : ℕ) → m.cells a ≡ v.1 a)

abbrev pub Gives : Option (List ℕ × Ram) → View → Type 0
Gives o v = (p : List ℕ × Ram) → o ≡ some p → Shows p.0 p.1 v

value_or : Option ℕ → ℕ → ℕ
value_or none d = d
value_or (some a) d = a

get_or-get_elem? : (xs : List ℕ) (j d : ℕ) → get_or xs j d ≡ value_or (get_elem? xs j) d
unfolding value_or
get_or-get_elem? [] j d = refl
get_or-get_elem? (x ∷ xs) zero d = refl
get_or-get_elem? (x ∷ xs) (suc j) d = get_or-get_elem? xs j d

pub get_or-write? :
    (xs : List ℕ) (i v : ℕ) {ys : List ℕ}
    → write? xs i v ≡ some ys
    → (j : ℕ) → get_or ys j 0 ≡ update (λ k. get_or xs k 0) i v j
unfolding value_or
get_or-write? xs i v {ys} h j = elim (Bool-cases (i == j)) [
  | inl t ↦ get_or-get_elem? ys j 0 ∙ rw (get_elem?-write? xs i v h j, t) refl
  | inr t ↦
      get_or-get_elem? ys j 0 ∙ rw (get_elem?-write? xs i v h j, t) (sym (get_or-get_elem? xs j 0))
]

module _ (registers : List ℕ) (m : Ram) where
  abbrev contents : ℕ → ℕ
  contents j = get_or registers j 0

  bind-Gives {ℓ} :
      {A : Type ℓ} (o : Option A) (f : A → Option (List ℕ × Ram)) (v : View)
      → ((a : A) → o ≡ some a → Gives (f a) v)
      → Gives (o >>= f) v
  bind-Gives o f v k p h = let (a, e, h') = >>=-eq-some o f h in k a e p h'

  some-Gives : (ys : List ℕ) (m' : Ram) (v : View) → Shows ys m' v → Gives (some (ys, m')) v
  some-Gives ys m' v k p h = subst (λ (q : List ℕ × Ram). Shows q.0 q.1 v) (some_inj h) k

  -- A register that is read holds the view's number.
  read-Gives :
      (i : ℕ) (f : ℕ → Option (List ℕ × Ram)) (v : View)
      → Gives (f (contents i)) v
      → Gives (get_elem? registers i >>= f) v
  read-Gives i f v k =
      bind-Gives (get_elem? registers i) f v
        λ a e. let (_, same) = get_elem?-lt registers i e in rw same at k

  written-Gives :
      (i v : ℕ) (m' : Ram)
      → Gives (write? registers i v >>= λ ys. some (ys, m')) (update contents i v, m'.cells)
  written-Gives i v m' =
      bind-Gives (write? registers i v) _ _
        λ ys w. some-Gives ys m' _ (get_or-write? registers i v w, λ a. refl)

  stored-Gives :
      (a v : ℕ) (f : Ram → Option (List ℕ × Ram)) (u : View)
      → Gives (f (record m { cells = update m.cells a v })) u
      → Gives (store m a v >>= f) u
  stored-Gives a v f u k =
      bind-Gives (store m a v) f u λ m' w.
        let (_, changed) = store-eq-some m a v w in subst (λ n. Gives (f n) u) (sym changed) k

  loaded-Gives :
      (a : ℕ) (f : ℕ → Option (List ℕ × Ram)) (u : View)
      → Gives (f (m.cells a)) u
      → Gives (load m a >>= f) u
  loaded-Gives a f u k =
      bind-Gives (load m a) f u λ v w. let same : m.cells a ≡ v = ground arith in rw same at k

  -- A second register that is written after a first one.
  twice :
      (i v k u : ℕ) {ys zs : List ℕ}
      → write? registers i v ≡ some ys
      → write? ys k u ≡ some zs
      → (j : ℕ) → get_or zs j 0 ≡ update (update contents i v) k u j
  twice i v k u {ys} w w' j =
      get_or-write? ys k u w' j
      ∙ ap (λ (x : ℕ). if k == j then u else x) (get_or-write? registers i v w j)

  pop_register-Gives :
      (a1 : ℕ) → Gives (pop_register registers m a1) (perform Op.pop (a1, 0, 0) (view registers m))
  pop_register-Gives a1 = read-Gives sp _ _ (
      loaded-Gives (contents sp) _ _ (
        bind-Gives (write? registers a1 (m.cells (contents sp))) _ _ λ ys w.
          bind-Gives (get_elem? ys sp) _ _ λ u e. bind-Gives (write? ys sp (sub64 u 1)) _ _ λ zs w'.
            let (_, same) = get_elem?-lt ys sp e in
            let moved : u ≡ update contents a1 (m.cells (contents sp)) sp =
              sym same ∙ get_or-write? registers a1 _ w sp in
            some-Gives zs m _ (
              λ j.
                  twice a1 _ sp (sub64 u 1) w w' j
                  ∙ ap
                      (λ (x : ℕ).
                        update (update contents a1 (m.cells (contents sp))) sp (sub64 x 1) j)
                      moved,
              λ a. refl,
            )))

  branch_link-Gives :
      (addr : ℕ)
      → Gives
          (branch_link registers m addr)
          (update (update contents lr (contents pc)) pc addr, m.cells)
  branch_link-Gives addr = read-Gives pc _ _ (
      bind-Gives (write? registers lr (contents pc)) _ _ λ ys w.
        bind-Gives (write? ys pc addr) _ _
          λ zs w'. some-Gives zs m _ (twice lr (contents pc) pc addr w w', λ a. refl))

  branch_on_zero-Gives :
      (when : Bool) (a1 addr : ℕ)
      → Gives (branch_on_zero registers m when a1 addr) (
        if (if when then contents a1 == 0 else not (contents a1 == 0))
            then update contents pc addr
            else contents,
        m.cells,
      )
  branch_on_zero-Gives when a1 addr =
      read-Gives a1 _ _
        (elim (Bool-cases (if when then contents a1 == 0 else not (contents a1 == 0))) [
          | inl t ↦ rw t (written-Gives pc addr m)
          | inr t ↦ rw t (some-Gives registers m _ (λ j. refl, λ a. refl))
        ])

  compute-Gives :
      (op : Op) (a1 a2 a3 : ℕ)
      → ((x y v : ℕ) → alu (opcode op) x y ≡ some v → v ≡ calculate op x y)
      → Gives
          (compute registers m (opcode op) a1 a2 a3)
          (update contents a1 (calculate op (contents a2) (contents a3)), m.cells)
  compute-Gives op a1 a2 a3 right = read-Gives a2 _ _ (
      read-Gives a3 _ _ (
        bind-Gives (alu (opcode op) (contents a2) (contents a3)) _ _
          λ v e. rw (sym (right (contents a2) (contents a3) v e)) (written-Gives a1 v m)))

alu-calculate : (op : Op) (x y v : ℕ) → alu (opcode op) x y ≡ some v → v ≡ calculate op x y
unfolding alu
alu-calculate Op.add x y v e = sym (some_inj e)
alu-calculate Op.sub x y v e = sym (some_inj e)
alu-calculate Op.mul x y v e = sym (some_inj e)
alu-calculate Op.div x y v e = ground (arith, e)
alu-calculate Op.and x y v e = ground (arith, e)
alu-calculate Op.or x y v e = ground (arith, e)
alu-calculate Op.eor x y v e = ground (arith, e)
alu-calculate Op.ars x y v e = ground (arith, e)
alu-calculate Op.als x y v e = ground (arith, e)
alu-calculate _ x y v e = cc

pub execute_instruction-Gives :
    (op : Op) (args : Args) (registers : List ℕ) (m : Ram)
    → Gives (execute_instruction (opcode op) args registers m) (perform op args (view registers m))
unfolding execute_instruction
execute_instruction-Gives Op.ldr (a1, a2, a3) registers m =
    loaded-Gives registers m a2 _ _ (written-Gives registers m a1 (m.cells a2) m)
execute_instruction-Gives Op.str (a1, a2, a3) registers m = read-Gives registers m a2 _ _ (
    read-Gives registers m a1 _ _ (
      stored-Gives registers m _ _ _ _
        (some-Gives registers m registers _ _ (λ j. refl, λ a. refl))))
execute_instruction-Gives Op.push (a1, a2, a3) registers m = read-Gives registers m sp _ _ (
    read-Gives registers m a1 _ _
      (stored-Gives registers m _ _ _ _ (written-Gives registers m sp _ _)))
execute_instruction-Gives Op.pop (a1, a2, a3) registers m = pop_register-Gives registers m a1
execute_instruction-Gives Op.cbz (a1, a2, a3) registers m =
    branch_on_zero-Gives registers m true a1 a2
execute_instruction-Gives Op.cbnz (a1, a2, a3) registers m =
    branch_on_zero-Gives registers m false a1 a2
execute_instruction-Gives Op.bl (a1, a2, a3) registers m = branch_link-Gives registers m a2
execute_instruction-Gives Op.bx (a1, a2, a3) registers m =
    read-Gives registers m a1 _ _ (written-Gives registers m pc _ m)
execute_instruction-Gives Op.mov (a1, a2, a3) registers m =
    read-Gives registers m a2 _ _ (written-Gives registers m a1 _ m)
execute_instruction-Gives Op.set (a1, a2, a3) registers m = written-Gives registers m a1 a2 m
execute_instruction-Gives Op.nop args registers m =
    some-Gives registers m registers m _ (λ j. refl, λ a. refl)
execute_instruction-Gives Op.wfi args registers m =
    some-Gives registers m registers m _ (λ j. refl, λ a. refl)
execute_instruction-Gives op (a1, a2, a3) registers m =
    compute-Gives registers m op a1 a2 a3 (alu-calculate op)

-- On sixteen registers, an instruction that has what it needs is executed, and its registers and
-- its words of the memory are, one by one, those that the description of the instruction gives.
pub execute_instruction-perform :
    (op : Op) (args : Args) (registers : List ℕ) (m : Ram)
    → length registers ≡ nregs
    → Needs op args registers m
    → (registers' : List ℕ) × (m' : Ram) × (execute_instruction (opcode op) args registers m
        ≡ some (registers', m'))
      × ((j : ℕ) → get_or registers' j 0 ≡ (perform op args (view registers m)).0 j)
      × ((a : ℕ) → m'.cells a ≡ (perform op args (view registers m)).1 a)
execute_instruction-perform op args registers m len needs =
    let (p, e) = (execute_instruction-Needs op args registers m len).0 needs in
    let (rs, ms) = execute_instruction-Gives op args registers m p e in (p.0, p.1, e, rs, ms)
