-- ===== src/Net/Line/Ends.antt =====
-- Whether the loop ends at all.
use osh.Prelude.{
  ℕ, zero, suc, ◌+◌, ◌-◌, ◌<◌, ◌≡◌, ◌≢◌, refl, ap, List, [], ◌∷◌, ◌++◌, true, false, Option, none,
  some, arith, ne→==, replicate, length, All, All-append, ◌⊎◌, inl, inr,
}
use native.Mathlib.Decide.{ℕ_discrete}
use osh.Net.CString.{strlen}
use osh.Net.CString.Padded.{IsText, c_string-text, strncat_one-nul}
use osh.Net.Line.{
  Run, finished, faulted, running, max_nchars, newline, Reads, received, read_loop, empty_line,
  read_line,
}
use osh.Net.Line.Turns.{
  IsPlain, padded, read_loop-step, read_loop-overflow, length-snoc, turns, turns-eq,
}

-- The loop has come to a newline, or past the array.
abbrev Ends : Run (List ℕ × ℕ) → Type 0
Ends m =
    ((line : List ℕ) × (n rest : ℕ) × All IsPlain line
      × (m ≡ finished (padded (line ++ newline ∷ []) rest, n)))
    ⊎ (m ≡ faulted)

IsPlain-snoc : (s : List ℕ) (c : ℕ) → All IsPlain s → IsPlain c → All IsPlain (s ++ c ∷ [])
IsPlain-snoc s c h hc = All-append IsPlain s (c ∷ []) h (hc, tt)

plain-IsText : (s : List ℕ) → All IsPlain s → IsText s
plain-IsText [] h = tt
plain-IsText (c ∷ s) h = (h.0.0, plain-IsText s h.1)

received_ne : (o : Option ℕ) (tmpchar : ℕ) → o ≢ some 0 → tmpchar ≢ 0 → received o tmpchar ≢ 0
received_ne none tmpchar h nz = nz
received_ne (some c) tmpchar h nz = λ e. h (ap some e)

read_loop-eob :
    (fuel k tmpchar : ℕ) (reads : Reads) (clientline : List ℕ)
    → 0 < fuel
    → read_loop fuel reads k tmpchar true clientline ≡ finished (clientline, k)
unfolding read_loop
read_loop-eob zero k tmpchar reads clientline h = elim h [ ]
read_loop-eob (suc fuel) k tmpchar reads clientline h = refl

read_loop-Ends :
    (room extra k tmpchar : ℕ) (s : List ℕ) (reads : Reads)
    → All IsPlain s
    → length s + room < max_nchars
    → ((j : ℕ) → reads j ≢ some 0)
    → tmpchar ≢ 0
    → Ends (read_loop (turns room (suc extra)) reads k tmpchar false (padded s room))
read_loop-Ends zero extra k tmpchar s reads hs short ne nz = inr (
    read_loop-overflow (suc extra) k tmpchar _ reads s refl
      (received_ne (reads k) tmpchar (ne k) nz) (plain-IsText s hs) (omega arith))
read_loop-Ends (suc room) extra k tmpchar s reads hs short ne nz =
    let c = received (reads k) tmpchar in
    let hc = received_ne (reads k) tmpchar (ne k) nz in
    rw
      (read_loop-step (turns room (suc extra)) k tmpchar room c reads s refl hc (plain-IsText s hs)
        (omega arith))
      (elim (ℕ_discrete c newline) [
        | yes e ↦ rw e (
            inl (
              s,
              k + 1,
              room,
              hs,
              read_loop-eob (turns room (suc extra)) (k + 1) newline reads
                  (padded (s ++ newline ∷ []) room) (omega (arith, turns-eq room (suc extra))),
            ))
        | no p ↦ rw (ne→== c newline p) (
            read_loop-Ends room extra (k + 1) c (s ++ c ∷ []) reads (IsPlain-snoc s c hs (hc, p))
              (omega (arith, length-snoc s c)) ne hc)
      ])

-- Whatever a client sends that holds no NUL, the loop ends within 129 tests: with a line of plain
-- characters and a newline, which is printed, or with a write past the array. The stale byte is
-- no NUL either.
pub read_line-ends :
    (tmpchar fuel : ℕ) (reads : Reads)
    → ((j : ℕ) → reads j ≢ some 0)
    → tmpchar ≢ 0
    → max_nchars < fuel
    → ((line : List ℕ) × All IsPlain line
        × (read_line fuel reads tmpchar ≡ finished (line ++ newline ∷ [])))
      ⊎ (read_line fuel reads tmpchar ≡ faulted)
unfolding read_line
read_line-ends tmpchar fuel reads ne nz enough =
    let f : fuel ≡ turns 127 (suc (fuel - 129)) = omega (arith, turns-eq 127 (suc (fuel - 129))) in
    elim (read_loop-Ends 127 (fuel - 129) 0 tmpchar [] reads tt (omega arith) ne nz) [
      | inl (line, n, rest, h, e) ↦ inl (
        line,
        h,
        rw f (
            rw e (
              rw (
                c_string-text (line ++ newline ∷ []) (replicate rest 0) (
                  All-append (λ c. c ≢ 0) line (newline ∷ []) (plain-IsText line h)
                    (omega arith, tt))))),
      )
      | inr e ↦ inr (rw f (rw e))
    ]

read_loop-silent :
    (fuel k tmpchar : ℕ) (reads : Reads)
    → received (reads k) tmpchar ≡ 0
    → ((j : ℕ) → received (reads j) 0 ≡ 0)
    → read_loop fuel reads k tmpchar false empty_line ≡ running
unfolding read_loop strlen
read_loop-silent zero k tmpchar reads now later = refl
read_loop-silent (suc fuel) k tmpchar reads now later =
    rw (now, strncat_one-nul [] (replicate 127 0) tt)
      (read_loop-silent fuel (k + 1) 0 reads (later (k + 1)) later)

-- A client that sends nothing but NULs, or closes at once when the stale byte is NUL, holds the
-- server in the loop for ever: no number of turns is enough.
pub read_line-silent :
    (fuel tmpchar : ℕ) (reads : Reads)
    → received (reads 0) tmpchar ≡ 0
    → ((j : ℕ) → received (reads j) 0 ≡ 0)
    → read_line fuel reads tmpchar ≡ running
unfolding read_line
read_line-silent fuel tmpchar reads now later = rw (read_loop-silent fuel 0 tmpchar reads now later)
