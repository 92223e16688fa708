-- ===== src/Net/Line/Closed.antt =====
-- The loop at the end of a client's input.
use osh.Prelude.{
  ℕ, zero, suc, ◌+◌, ◌-◌, ◌≤◌, ◌<◌, ◌≡◌, ap, ◌∙◌, List, [], ◌∷◌, ◌++◌, false, none, arith, ne→==,
  length, All,
}
use osh.Net.CString.Padded.{IsText}
use osh.Net.Line.{faulted, max_nchars, newline, Reads, received, read_loop, read_line}
use osh.Net.Line.Turns.{
  IsPlain, padded, read_loop-step, read_loop-overflow, Sends, IsText-snoc, length-snoc, beyond,
  beyond-eq, turns, turns-eq,
}

-- At the end of the input the last character is stored again, until the array is full.
read_loop-closed :
    (room : ℕ) (s : List ℕ) (k extra c : ℕ) (reads : Reads)
    → IsPlain c
    → IsText s
    → length s + room < max_nchars
    → ((j : ℕ) → k ≤ j → reads j ≡ none)
    → read_loop (turns room extra) reads k c false (padded s room) ≡ faulted
read_loop-closed zero s k extra c reads hc hs short ended =
    read_loop-overflow extra k c c reads s (ap (λ r. received r c) (ended k (omega arith))) hc.0 hs
      (omega arith)
read_loop-closed (suc room) s k extra c reads hc hs short ended =
    read_loop-step (turns room extra) k c room c reads s
      (ap (λ r. received r c) (ended k (omega arith))) hc.0 hs (omega arith)
    ∙ rw (ne→== c newline hc.1) (
        read_loop-closed room (s ++ c ∷ []) (k + 1) extra c reads hc (IsText-snoc s c hs hc.0)
          (omega (arith, length-snoc s c)) (λ j h. ended j (omega arith)))

-- The characters before the end are stored first.
read_loop-sent_closed :
    (cs : List ℕ) (last : ℕ) (s : List ℕ) (k tmpchar room extra : ℕ) (reads : Reads)
    → All IsPlain cs
    → IsPlain last
    → IsText s
    → length s + length cs + room + 1 < max_nchars
    → Sends reads k (cs ++ last ∷ [])
    → ((j : ℕ) → k + length cs < j → reads j ≡ none)
    → read_loop
        (beyond cs (suc (turns room extra)))
        reads
        k
        tmpchar
        false
        (padded s (beyond cs (suc room)))
      ≡ faulted
read_loop-sent_closed [] last s k tmpchar room extra reads hl hc hs short sends ended =
    read_loop-step (turns room extra) k tmpchar room last reads s
      (ap (λ r. received r tmpchar) sends.0) hc.0 hs (omega arith)
    ∙ rw (ne→== last newline hc.1) (
        read_loop-closed room (s ++ last ∷ []) (k + 1) extra last reads hc
          (IsText-snoc s last hs hc.0) (omega (arith, length-snoc s last))
          (λ j h. ended j (omega arith)))
read_loop-sent_closed (c ∷ cs) last s k tmpchar room extra reads hl hc hs short sends ended =
    read_loop-step (beyond cs (suc (turns room extra))) k tmpchar (beyond cs (suc room)) c reads s
      (ap (λ r. received r tmpchar) sends.0) hl.0.0 hs (omega arith)
    ∙ rw (ne→== c newline hl.0.1) (
        read_loop-sent_closed cs last (s ++ c ∷ []) (k + 1) c room extra reads hl.1 hc
          (IsText-snoc s c hs hl.0.0) (omega (arith, length-snoc s c)) sends.1
          (λ j h. ended j (omega arith)))

-- A client that sends fewer than 127 bytes, at least one, with no NUL or newline among them, and
-- closes, makes the server store the last of them again and again, until it writes past the array.
pub read_line-closed :
    (cs : List ℕ) (last tmpchar fuel : ℕ) (reads : Reads)
    → All IsPlain cs
    → IsPlain last
    → length cs + 2 < max_nchars
    → Sends reads 0 (cs ++ last ∷ [])
    → ((j : ℕ) → length cs < j → reads j ≡ none)
    → max_nchars ≤ fuel
    → read_line fuel reads tmpchar ≡ faulted
unfolding read_line
read_line-closed cs last tmpchar fuel reads hl hc short sends ended enough =
    let room = 126 - length cs in
    let extra = fuel - 128 in
    let f : fuel ≡ beyond cs (suc (turns room extra)) =
      omega (arith, beyond-eq cs (suc (turns room extra)), turns-eq room extra) in
    let r : beyond cs (suc room) ≡ 127 = omega (arith, beyond-eq cs (suc room)) in
    rw f (
      rw (
        rw r at (
          read_loop-sent_closed cs last [] 0 tmpchar room extra reads hl hc tt (omega arith) sends
            (λ j h. ended j (omega arith)))))
