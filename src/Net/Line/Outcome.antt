-- ===== src/Net/Line/Outcome.antt =====
-- When the loop returns the line, and when the line is too long for the array.
use osh.Prelude.{
  ℕ, suc, ◌+◌, ◌-◌, ◌≤◌, ◌<◌, ◌≡◌, ◌≢◌, refl, ap, ◌∙◌, List, [], ◌∷◌, ◌++◌, false, arith, ne→==,
  length, replicate, All, append_assoc,
}
use osh.Net.CString.Padded.{IsText, c_string-text}
use osh.Net.Line.{
  finished, faulted, max_nchars, newline, Reads, received, read_loop, empty_line, read_line,
}
use osh.Net.Line.Turns.{
  IsPlain, padded, read_loop-step, read_loop-overflow, Sends, IsText-snoc, length-snoc, beyond,
  beyond-eq,
}

-- A line that fits, from the characters `s` that are stored already.
read_loop-line :
    (line s : List ℕ) (k tmpchar room extra : ℕ) (reads : Reads) (whole : List ℕ) (total : ℕ)
    → All IsPlain line
    → IsText s
    → length s + length line < max_nchars
    → Sends reads k (line ++ newline ∷ [])
    → s ++ (line ++ newline ∷ []) ≡ whole
    → k + length line + 1 ≡ total
    → read_loop
        (beyond line (suc (suc extra)))
        reads
        k
        tmpchar
        false
        (padded s (beyond line (suc room)))
      ≡ finished (padded whole room, total)
unfolding read_loop
read_loop-line [] s k tmpchar room extra reads whole total hl hs short sends ew et =
    read_loop-step (suc extra) k tmpchar room newline reads s (ap (λ r. received r tmpchar) sends.0)
      (λ e. omega arith) hs (omega arith)
    ∙ λ i. finished (padded (ew i) room, (let e : k + 1 ≡ total = omega arith in e) i)
read_loop-line (c ∷ line) s k tmpchar room extra reads whole total hl hs short sends ew et =
    read_loop-step (beyond line (suc (suc extra))) k tmpchar (beyond line (suc room)) c reads s
      (ap (λ r. received r tmpchar) sends.0) hl.0.0 hs (omega arith)
    ∙ rw (ne→== c newline hl.0.1) (
        read_loop-line line (s ++ c ∷ []) (k + 1) c room extra reads whole total hl.1
          (IsText-snoc s c hs hl.0.0) (omega (arith, length-snoc s c)) sends.1
          (append_assoc s (c ∷ []) (line ++ newline ∷ []) ∙ ew) (omega arith))

-- Characters that leave no room for the one behind them.
read_loop-full :
    (cs s : List ℕ) (k tmpchar extra c : ℕ) (reads : Reads)
    → All IsPlain cs
    → c ≢ 0
    → IsText s
    → length s + length cs < max_nchars
    → Sends reads k (cs ++ c ∷ [])
    → read_loop (beyond cs (suc extra)) reads k tmpchar false (padded s (beyond cs 0)) ≡ faulted
read_loop-full [] s k tmpchar extra c reads hl hc hs short sends =
    read_loop-overflow extra k tmpchar c reads s (ap (λ r. received r tmpchar) sends.0) hc hs
      (omega arith)
read_loop-full (x ∷ cs) s k tmpchar extra c reads hl hc hs short sends =
    read_loop-step (beyond cs (suc extra)) k tmpchar (beyond cs 0) x reads s
      (ap (λ r. received r tmpchar) sends.0) hl.0.0 hs (omega arith)
    ∙ rw (ne→== x newline hl.0.1) (
        read_loop-full cs (s ++ x ∷ []) (k + 1) x extra c reads hl.1 hc (IsText-snoc s x hs hl.0.0)
          (omega (arith, length-snoc s x)) sends.1)

IsText-line : (line : List ℕ) → All IsPlain line → IsText (line ++ newline ∷ [])
IsText-line [] h = ((λ e. omega arith), tt)
IsText-line (c ∷ line) h = (h.0.0, IsText-line line h.1)

-- the whole loop, at any fuel and room that are enough
line_lem :
    (line : List ℕ) (tmpchar fuel : ℕ) (reads : Reads)
    → All IsPlain line
    → length line + 1 < max_nchars
    → Sends reads 0 (line ++ newline ∷ [])
    → length line + 1 < fuel
    → read_loop fuel reads 0 tmpchar false empty_line
      ≡ finished (padded (line ++ newline ∷ []) (126 - length line), length line + 1)
line_lem line tmpchar fuel reads hl short sends enough =
    let f : fuel ≡ beyond line (suc (suc (fuel - (length line + 2)))) =
      omega (arith, beyond-eq line (suc (suc (fuel - (length line + 2))))) in
    let r : beyond line (suc (126 - length line)) ≡ 127 =
      omega (arith, beyond-eq line (suc (126 - length line))) in
    rw f (
      rw r at (
        read_loop-line line [] 0 tmpchar (126 - length line) (fuel - (length line + 2)) reads
          (line ++ newline ∷ []) (length line + 1) hl tt (omega arith) sends refl (omega arith)))

-- A client that sends at most 126 characters, none of them NUL, and a newline, gets its line back
-- whole: the loop ends, having stored that line and read no more bytes, and this is what is printed.
pub read_line-line :
    (line : List ℕ) (tmpchar fuel : ℕ) (reads : Reads)
    → All IsPlain line
    → length line + 1 < max_nchars
    → Sends reads 0 (line ++ newline ∷ [])
    → length line + 1 < fuel
    → read_line fuel reads tmpchar ≡ finished (line ++ newline ∷ [])
unfolding read_line
read_line-line line tmpchar fuel reads hl short sends enough =
    rw (line_lem line tmpchar fuel reads hl short sends enough) (
      rw (
        c_string-text (line ++ newline ∷ []) (replicate (126 - length line) 0)
          (IsText-line line hl)))

-- A client whose first 127 bytes have neither NUL nor newline, and that then sends any byte but NUL,
-- makes the server write past the array: the character fills the last byte, its NUL goes behind.
pub read_line-overflow :
    (cs : List ℕ) (c tmpchar fuel : ℕ) (reads : Reads)
    → All IsPlain cs
    → length cs + 1 ≡ max_nchars
    → c ≢ 0
    → Sends reads 0 (cs ++ c ∷ [])
    → max_nchars ≤ fuel
    → read_line fuel reads tmpchar ≡ faulted
unfolding read_line
read_line-overflow cs c tmpchar fuel reads hl len hc sends enough =
    let f : fuel ≡ beyond cs (suc (fuel - 128)) = omega (arith, beyond-eq cs (suc (fuel - 128))) in
    let r : beyond cs 0 ≡ 127 = omega (arith, beyond-eq cs 0) in
    rw f (
      rw (
        rw r at (read_loop-full cs [] 0 tmpchar (fuel - 128) c reads hl hc tt (omega arith) sends)))
