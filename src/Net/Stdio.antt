-- ===== src/Net/Stdio.antt =====
-- fgets() on standard input.
use osh.Prelude.{
  ℕ, zero, suc, ◌-◌, ◌≤◌, ◌≡◌, refl, ap, List, [], ◌∷◌, ◌++◌, Option, none, some, arith, ◌==◌,
  if◌then◌else◌, length, Bool-cases, inl, inr,
}
use osh.Net.CString.Padded.{IsText}
use osh.Net.Line.{newline}

-- A line of at most `n` bytes, with its newline if it is that short, and the rest of the input.
unfoldable pub take_line : ℕ → List ℕ → List ℕ × List ℕ
take_line zero input = ([], input)
take_line (suc n) [] = ([], [])
take_line (suc n) (c ∷ input) =
    let more = take_line n input in if c == newline then (c ∷ [], input) else (c ∷ more.0, more.1)

-- `fgets(buf,size,stdin)`: the bytes before the NUL that it writes, or nothing at the end.
unfoldable pub fgets : ℕ → List ℕ → Option (List ℕ × List ℕ)
fgets size [] = none
fgets size (c ∷ input) = some (take_line (size - 1) (c ∷ input))

-- What a call takes and what it leaves make up the input.
pub take_line-append :
    (n : ℕ) (input : List ℕ) → (take_line n input).0 ++ (take_line n input).1 ≡ input
unfolding take_line
take_line-append zero input = refl
take_line-append (suc n) [] = refl
take_line-append (suc n) (c ∷ input) = elim (Bool-cases (c == newline)) [
  | inl e ↦ rw e
  | inr e ↦ rw e (ap (λ l. c ∷ l) (take_line-append n input))
]

pub take_line-length : (n : ℕ) (input : List ℕ) → length (take_line n input).0 ≤ n
unfolding take_line
take_line-length zero input = omega arith
take_line-length (suc n) [] = omega arith
take_line-length (suc n) (c ∷ input) = ground (arith, take_line-length n input)

take_line-rest_le : (n : ℕ) (input : List ℕ) → length (take_line n input).1 ≤ length input
unfolding take_line
take_line-rest_le zero input = omega arith
take_line-rest_le (suc n) [] = omega arith
take_line-rest_le (suc n) (c ∷ input) = ground (arith, take_line-rest_le n input)

-- A call that may take a byte takes one.
pub take_line-shorter :
    (n c : ℕ) (input : List ℕ) → length (take_line (suc n) (c ∷ input)).1 ≤ length input
unfolding take_line
take_line-shorter n c input = ground (arith, take_line-rest_le n input)

pub take_line-IsText :
    (n : ℕ) (input : List ℕ)
    → IsText input
    → IsText (take_line n input).0 × IsText (take_line n input).1
unfolding take_line
take_line-IsText zero input h = (tt, h)
take_line-IsText (suc n) [] h = (tt, tt)
take_line-IsText (suc n) (c ∷ input) h = elim (Bool-cases (c == newline)) [
  | inl e ↦ rw e ((h.0, tt), h.1)
  | inr e ↦ let (l, m) = take_line-IsText n input h.1 in rw e ((h.0, l), m)
]
