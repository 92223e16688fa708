-- ===== src/Net/Line.antt =====
-- The loop that reads a client's line, which the three Hi servers have in common:
--   char clientline[MAX_NCHARS]=""; ... while(eob==0 && strlen(clientline)<MAX_NCHARS) { ... }
pub mod Turns
pub mod Outcome
pub mod Closed
pub mod Ends
use osh.Prelude.{
  ◌≡◌, refl, ℕ, zero, suc, ◌+◌, List, Bool, true, false, Option, none, some, ltb, ◌==◌,
  if◌then◌else◌, replicate,
}
use osh.Net.CString.{strlen, strncat_one, c_string}

-- How a loop ends: with a value, by undefined behaviour, or not within its fuel.
pub data Run {ℓ} (A : Type ℓ) : Type ℓ where
  finished : A → Run A
  faulted : Run A
  running : Run A

infixl 5 ◌then_run◌
abbrev pub ◌then_run◌ {ℓ κ} : {A : Type ℓ} {B : Type κ} → Run A → (A → Run B) → Run B
finished a then_run f = f a
faulted then_run f = faulted
running then_run f = running

-- An access that may be out of range, in a run.
abbrev pub checked {ℓ} : {A : Type ℓ} → Option A → Run A
checked none = faulted
checked (some a) = finished a

-- What a loop that returns has gone through.
pub then_run-finished {ℓ κ} :
    {A : Type ℓ} {B : Type κ} (o : Run A) (f : A → Run B) {b : B}
    → (o then_run f) ≡ finished b
    → (a : A) × (o ≡ finished a) × (f a ≡ finished b)
then_run-finished (finished a) f h = (a, refl, h)
then_run-finished faulted f h = cc
then_run-finished running f h = cc

pub finished_inj {ℓ} : {A : Type ℓ} {a b : A} → finished a ≡ finished b → a ≡ b
finished_inj {a = a} {b = b} e = cc

pub checked-finished {ℓ} : {A : Type ℓ} (o : Option A) {a : A} → checked o ≡ finished a → o ≡ some a
checked-finished none h = cc
checked-finished (some l) h = cc

abbrev pub max_nchars : ℕ
max_nchars = 128

abbrev pub newline : ℕ
newline = 10

-- The results of the calls `read(fd,&tmpchar,1)` in order: the byte, or nothing at the end of the
-- input or at an error, when `tmpchar` keeps its value.
abbrev pub Reads : Type 0
Reads = ℕ → Option ℕ

abbrev pub received : Option ℕ → ℕ → ℕ
received none tmpchar = tmpchar
received (some c) tmpchar = c

-- The loop at its test, after `k` reads. The result is the array and the number of reads.
unfoldable pub read_loop : ℕ → Reads → ℕ → ℕ → Bool → List ℕ → Run (List ℕ × ℕ)
read_loop zero reads k tmpchar eob clientline = running
read_loop (suc fuel) reads k tmpchar true clientline = finished (clientline, k)
read_loop (suc fuel) reads k tmpchar false clientline = checked (strlen clientline) then_run λ n.
    let c = received (reads k) tmpchar in
    let rest = checked (strncat_one clientline c) then_run λ clientline'.
    read_loop fuel reads (k + 1) c (c == newline) clientline' in
    if ltb n max_nchars then rest else finished (clientline, k)

-- The array before the loop.
abbrev pub empty_line : List ℕ
empty_line = replicate max_nchars 0

-- The loop and the `printf` behind it: what is printed. `tmpchar` starts with any value.
unfoldable pub read_line : ℕ → Reads → ℕ → Run (List ℕ)
unfolding read_loop
read_line fuel reads tmpchar =
    read_loop fuel reads 0 tmpchar false empty_line then_run λ s. checked (c_string s.0)
