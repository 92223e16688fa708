-- ===== src/Net/CString.antt =====
-- C strings in char arrays: the calls of <string.h> that the programs make. An array is its list
-- of bytes; `none` is an access past its end.
pub mod Padded
use osh.Prelude.{ℕ, suc, ◌+◌, List, [], ◌∷◌, Option, none, some, ◌==◌, if◌then◌else◌, ◌>>=◌, write?}

-- The number of bytes before the first NUL.
unfoldable pub strlen : List ℕ → Option ℕ
strlen [] = none
strlen (c ∷ cs) = if c == 0 then some 0 else (strlen cs >>= λ n. some (suc n))

-- `strncat(dest,&c,1)`: appends `c` if it is not NUL, and a NUL behind.
unfoldable pub strncat_one : List ℕ → ℕ → Option (List ℕ)
unfolding strlen
strncat_one dest c = do
  n ← strlen dest
  dest' ← if c == 0 then some dest else write? dest n c
  write? dest' (if c == 0 then n else n + 1) 0

-- The bytes that `fputs` and `printf("%s")` print.
unfoldable pub c_string : List ℕ → Option (List ℕ)
c_string [] = none
c_string (c ∷ cs) = if c == 0 then some [] else (c_string cs >>= λ s. some (c ∷ s))
