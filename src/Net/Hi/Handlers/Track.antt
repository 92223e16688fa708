-- ===== src/Net/Hi/Handlers/Track.antt =====
-- Where a client's thread is, within the run of its whole loop.
use osh.Prelude.{
  ℕ, zero, suc, ◌≡◌, refl, ◌∙◌, subst, List, Bool, true, false, Option, none, some, arith, ltb,
  Bool-cases, Option-cases, inl, inr,
}
use osh.Net.CString.{strlen, strncat_one}
use osh.Net.Line.{finished, faulted, max_nchars, Reads, received, empty_line, read_loop}
use osh.Net.Hi.Handlers.{Handler, testing, printing, closing, turn}

-- `n` on top of `fuel`
abbrev more : ℕ → ℕ → ℕ
more zero fuel = fuel
more (suc n) fuel = more n (suc fuel)

-- A thread that has come this far: the whole loop, from its start, goes on as from here.
abbrev pub OnTrack : Handler → Type 0
OnTrack (testing reads k tmpchar eob clientline) =
    (n stale : ℕ) × ((fuel : ℕ)
      → read_loop (more n fuel) reads 0 stale false empty_line
        ≡ read_loop fuel reads k tmpchar eob clientline)
OnTrack (printing clientline) =
    (fuel stale k : ℕ) × (reads : Reads) × (read_loop fuel reads 0 stale false empty_line
      ≡ finished (clientline, k))
OnTrack closing = Unit {0}

finished_inj : {g h : Handler} → finished g ≡ finished h → g ≡ h
finished_inj {g} {h} e = cc

pub turn-OnTrack :
    (reads : Reads) (k tmpchar : ℕ) (eob : Bool) (clientline : List ℕ) {h : Handler}
    → OnTrack (testing reads k tmpchar eob clientline)
    → turn reads k tmpchar eob clientline ≡ finished h
    → OnTrack h
unfolding turn read_loop
turn-OnTrack reads k tmpchar true clientline {h} (n, stale, same) e =
    subst OnTrack (finished_inj e) (more n 1, stale, k, reads, same 1)
turn-OnTrack reads k tmpchar false clientline {h} (n, stale, same) e =
    let c = received (reads k) tmpchar in
    elim (Option-cases (strlen clientline)) [
      | inl p ↦ let bad : faulted ≡ finished h = rw p at e in cc
      | inr (len, p) ↦ elim (Bool-cases (ltb len max_nchars)) [
        | inr t ↦
            subst OnTrack (finished_inj (rw (p, t) at e))
              (more n 1, stale, k, reads, same 1 ∙ rw (p, t) refl)
        | inl t ↦ elim (Option-cases (strncat_one clientline c)) [
          | inl q ↦ let bad : faulted ≡ finished h = rw (p, t, q) at e in cc
          | inr (line, q) ↦
              subst OnTrack (finished_inj (rw (p, t, q) at e))
                (suc n, stale, λ fuel. same (suc fuel) ∙ rw (p, t, q) refl)
        ]
      ]
    ]

-- a thread whose client has not been closed
abbrev pub is_serving : Option Handler → Bool
is_serving none = false
is_serving (some closing) = false
is_serving (some _) = true

abbrev pub is_closing : Option Handler → Bool
is_closing (some closing) = true
is_closing _ = false

abbrev pub AllOnTrack : Option Handler → Type 0
AllOnTrack none = Unit {0}
AllOnTrack (some h) = OnTrack h

pub turn-is_serving :
    (reads : Reads) (k tmpchar : ℕ) (eob : Bool) (clientline : List ℕ) {h : Handler}
    → turn reads k tmpchar eob clientline ≡ finished h
    → (is_serving (some h) ≡ true) × (is_closing (some h) ≡ false)
unfolding turn
turn-is_serving reads k tmpchar true clientline e = ground (arith, e)
turn-is_serving reads k tmpchar false clientline e = ground (arith, e)
