-- ===== src/Net/Hi/Handlers/Turns.antt =====
-- A thread's whole loop, turn by turn.
use osh.Prelude.{
  ℕ, zero, suc, ◌+◌, ◌≡◌, refl, ap, ◌∙◌, List, Bool, true, false, Option, some, ltb, ◌==◌, update,
  Bool-cases, Option-cases, inl, inr, ==_refl,
}
use osh.Net.CString.{strlen, strncat_one}
use osh.Net.Line.{Run, finished, faulted, max_nchars, newline, Reads, received, read_loop}
use osh.Net.Hi.Handlers.{Handler, testing, printing, turn, Crowd, loop, Acts, done, next}

pub append-Acts : {p q r : Crowd} → Acts p q → Acts q r → Acts p r
append-Acts (done p) bs = bs
append-Acts (next p q r act acts) bs = next p q _ act (append-Acts acts bs)

update_other :
    (hs : ℕ → Option Handler) (fd j : ℕ) (o : Option Handler)
    → (fd == j) ≡ false
    → update hs fd o j ≡ hs j
update_other hs fd j o ne = rw ne refl

-- The loop is left at this turn, with the line as it is.
leaves :
    (p : Crowd) (fd k tmpchar : ℕ) (reads : Reads) (eob : Bool) (clientline clientline' : List ℕ)
    → p.handlers fd ≡ some (testing reads k tmpchar eob clientline)
    → turn reads k tmpchar eob clientline ≡ finished (printing clientline)
    → clientline ≡ clientline'
    → (hs : ℕ → Option Handler) × Acts p (record p { handlers = hs })
      × (hs fd ≡ some (printing clientline'))
      × ((j : ℕ) → (fd == j) ≡ false → hs j ≡ p.handlers j)
leaves p fd k tmpchar reads eob clientline clientline' at t same =
    let hs = update p.handlers fd (some (printing clientline)) in
    (
      hs,
      next p _ _ (loop p fd k tmpchar reads eob clientline (printing clientline) at t) (done _),
      rw ==_refl (ap (λ l. some (printing l)) same),
      λ j ne. update_other p.handlers fd j (some (printing clientline)) ne,
    )

line_inj :
    {line line' : List ℕ} {k k' : ℕ}
    → ◌≡◌ {A = Run (List ℕ × ℕ)} (finished (line, k)) (finished (line', k'))
    → line ≡ line'
line_inj {line} {line'} {k} {k'} e = cc

-- A thread whose whole loop ends comes to its printf() turn by turn.
pub read_loop-Acts :
    (fuel : ℕ) (p : Crowd) (fd k tmpchar : ℕ) (reads : Reads) (eob : Bool)
    (clientline clientline' : List ℕ) (k' : ℕ)
    → p.handlers fd ≡ some (testing reads k tmpchar eob clientline)
    → read_loop fuel reads k tmpchar eob clientline ≡ finished (clientline', k')
    → (hs : ℕ → Option Handler) × Acts p (record p { handlers = hs })
      × (hs fd ≡ some (printing clientline'))
      × ((j : ℕ) → (fd == j) ≡ false → hs j ≡ p.handlers j)
unfolding read_loop turn
read_loop-Acts zero p fd k tmpchar reads eob clientline clientline' k' at e = cc
read_loop-Acts (suc fuel) p fd k tmpchar reads true clientline clientline' k' at e =
    leaves p fd k tmpchar reads true clientline clientline' at refl (line_inj e)
read_loop-Acts (suc fuel) p fd k tmpchar reads false clientline clientline' k' at e =
    let c = received (reads k) tmpchar in
    elim (Option-cases (strlen clientline)) [
      | inl none_len ↦ let bad : faulted ≡ finished (clientline', k') = rw none_len at e in cc
      | inr (len, p1) ↦ elim (Bool-cases (ltb len max_nchars)) [
        | inr long ↦
            leaves p fd k tmpchar reads false clientline clientline' at (rw (p1, long) refl)
              (line_inj (rw (p1, long) at e))
        | inl short ↦ elim (Option-cases (strncat_one clientline c)) [
          | inl none_line ↦
              let bad : faulted ≡ finished (clientline', k') = rw (p1, short, none_line) at e in cc
          | inr (line, p2) ↦
              let h : Handler = testing reads (k + 1) c (c == newline) line in
              let p' : Crowd = record p { handlers = update p.handlers fd (some h) } in
              let (hs, acts, there, others) =
                read_loop-Acts fuel p' fd (k + 1) c reads (c == newline) line clientline' k'
                  (rw ==_refl refl) (rw (p1, short, p2) at e) in
              (
                hs,
                next p p' _
                    (loop p fd k tmpchar reads false clientline h at (rw (p1, short, p2) refl))
                    acts,
                there,
                λ j ne. others j ne ∙ update_other p.handlers fd j (some h) ne,
              )
        ]
      ]
    ]
