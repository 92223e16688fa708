-- ===== src/Net/Line/Turns.antt =====
-- One turn of the loop that reads a line, by what is read and the room that is left.
use osh.Prelude.{
  ℕ, zero, suc, ◌+◌, ◌<◌, ◌≡◌, ◌≢◌, List, [], ◌∷◌, ◌++◌, false, some, arith, lt→ltb, ◌==◌, length,
  replicate, length-append,
}
use osh.Net.CString.Padded.{IsText, strlen-text, strncat_one-fits, strncat_one-overflows}
use osh.Net.Line.{faulted, max_nchars, newline, Reads, received, read_loop}

-- a character of a line, but the newline
abbrev pub IsPlain : ℕ → Type 0
IsPlain c = (c ≢ 0) × (c ≢ newline)

abbrev pub padded : List ℕ → ℕ → List ℕ
padded s room = s ++ 0 ∷ replicate room 0

-- One turn of the loop that stores a character.
pub read_loop-step :
    (fuel k tmpchar room c : ℕ) (reads : Reads) (s : List ℕ)
    → received (reads k) tmpchar ≡ c
    → c ≢ 0
    → IsText s
    → length s < max_nchars
    → read_loop (suc fuel) reads k tmpchar false (padded s (suc room))
      ≡ read_loop fuel reads (k + 1) c (c == newline) (padded (s ++ c ∷ []) room)
unfolding read_loop
read_loop-step fuel k tmpchar room c reads s e hc h short =
    rw (e, strlen-text s (0 ∷ replicate room 0) h, strncat_one-fits s (replicate room 0) c h hc)
      (rw (lt→ltb _ _ short))

-- The turn whose NUL goes past the array.
pub read_loop-overflow :
    (fuel k tmpchar c : ℕ) (reads : Reads) (s : List ℕ)
    → received (reads k) tmpchar ≡ c
    → c ≢ 0
    → IsText s
    → length s < max_nchars
    → read_loop (suc fuel) reads k tmpchar false (padded s 0) ≡ faulted
unfolding read_loop
read_loop-overflow fuel k tmpchar c reads s e hc h short =
    rw (e, strlen-text s [] h, strncat_one-overflows s c h hc) (rw (lt→ltb _ _ short))

-- The reads from number `k` on give these bytes.
abbrev pub Sends : Reads → ℕ → List ℕ → Type 0
Sends reads k [] = Unit
Sends reads k (c ∷ cs) = (reads k ≡ some c) × Sends reads (k + 1) cs

pub IsText-snoc : (s : List ℕ) (c : ℕ) → IsText s → c ≢ 0 → IsText (s ++ c ∷ [])
IsText-snoc [] c h hc = (hc, tt)
IsText-snoc (x ∷ s) c h hc = (h.0, IsText-snoc s c h.1 hc)

pub length-snoc : (s : List ℕ) (c : ℕ) → length (s ++ c ∷ []) ≡ length s + 1
length-snoc s c = omega (arith, length-append {0} s (c ∷ []))

-- `extra` more than the length of the list
abbrev pub beyond : List ℕ → ℕ → ℕ
beyond [] extra = extra
beyond (_ ∷ cs) extra = suc (beyond cs extra)

pub beyond-eq : (cs : List ℕ) (extra : ℕ) → beyond cs extra ≡ length cs + extra
beyond-eq [] extra = omega arith
beyond-eq (c ∷ cs) extra = omega (arith, beyond-eq cs extra)

-- `room` turns and one more, with fuel left
abbrev pub turns : ℕ → ℕ → ℕ
turns zero extra = suc extra
turns (suc room) extra = suc (turns room extra)

pub turns-eq : (room extra : ℕ) → turns room extra ≡ room + 1 + extra
turns-eq zero extra = omega arith
turns-eq (suc room) extra = omega (arith, turns-eq room extra)
