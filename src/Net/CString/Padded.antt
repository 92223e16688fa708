-- ===== src/Net/CString/Padded.antt =====
-- A string at the front of an array whose other bytes are NUL.
use osh.Prelude.{
  ℕ, ◌+◌, ◌≡◌, ◌≢◌, refl, List, [], ◌∷◌, ◌++◌, none, some, arith, ne→==, write?, length, All, drop,
  append_assoc,
}
use osh.Net.CString.{strlen, strncat_one, c_string}

-- No NUL among the bytes.
abbrev pub IsText : List ℕ → Type 0
IsText = All (λ c. c ≢ 0)

pub strlen-text : (s rest : List ℕ) → IsText s → strlen (s ++ 0 ∷ rest) ≡ some (length s)
unfolding strlen
strlen-text [] rest h = refl
strlen-text (c ∷ s) rest h = rw (ne→== c 0 h.0, strlen-text s rest h.1)

pub c_string-text : (s rest : List ℕ) → IsText s → c_string (s ++ 0 ∷ rest) ≡ some s
unfolding c_string
c_string-text [] rest h = refl
c_string-text (c ∷ s) rest h = rw (ne→== c 0 h.0, c_string-text s rest h.1)

-- An array without a NUL is no string.
pub c_string-unterminated : (s : List ℕ) → IsText s → c_string s ≡ none
unfolding c_string
c_string-unterminated [] h = refl
c_string-unterminated (c ∷ s) h = rw (ne→== c 0 h.0, c_string-unterminated s h.1)

-- A string with its NUL, written over the front of an array.
pub overwritten-text :
    (buf s : List ℕ)
    → IsText s
    → c_string ((s ++ 0 ∷ []) ++ drop (length (s ++ 0 ∷ [])) buf) ≡ some s
overwritten-text buf s h =
    rw (append_assoc s (0 ∷ []) (drop (length (s ++ 0 ∷ [])) buf))
      (c_string-text s (drop (length (s ++ 0 ∷ [])) buf) h)

pub write?-append :
    (s rest : List ℕ) (c v : ℕ) → write? (s ++ c ∷ rest) (length s) v ≡ some (s ++ v ∷ rest)
write?-append [] rest c v = refl
write?-append (x ∷ s) rest c v = rw (write?-append s rest c v)

pub write?-past : (s : List ℕ) (v : ℕ) → write? s (length s) v ≡ none
write?-past [] v = refl
write?-past (x ∷ s) v = rw (write?-past s v)

length-snoc : (s : List ℕ) (c : ℕ) → length (s ++ c ∷ []) ≡ length s + 1
length-snoc [] c = omega arith
length-snoc (x ∷ s) c = omega (arith, length-snoc s c)

-- With two bytes left the character and its NUL fit.
pub strncat_one-fits :
    (s rest : List ℕ) (c : ℕ)
    → IsText s
    → c ≢ 0
    → strncat_one (s ++ 0 ∷ 0 ∷ rest) c ≡ some ((s ++ c ∷ []) ++ 0 ∷ rest)
unfolding strncat_one
strncat_one-fits s rest c h hc =
    rw (ne→== c 0 hc, strlen-text s (0 ∷ rest) h, write?-append s (0 ∷ rest) 0 c, ← length-snoc s c)
      (rw (← append_assoc s (c ∷ []) (0 ∷ rest)) (write?-append (s ++ c ∷ []) rest 0 0))

-- With one byte left the NUL goes past the end of the array.
pub strncat_one-overflows :
    (s : List ℕ) (c : ℕ) → IsText s → c ≢ 0 → strncat_one (s ++ 0 ∷ []) c ≡ none
unfolding strncat_one
strncat_one-overflows s c h hc =
    rw (ne→== c 0 hc, strlen-text s [] h, write?-append s [] 0 c, ← length-snoc s c)
      (write?-past (s ++ c ∷ []) 0)

-- A NUL appends nothing.
pub strncat_one-nul :
    (s rest : List ℕ) → IsText s → strncat_one (s ++ 0 ∷ rest) 0 ≡ some (s ++ 0 ∷ rest)
unfolding strncat_one
strncat_one-nul s rest h = rw (strlen-text s rest h) (write?-append s rest 0 0)
