-- ===== src/Machine/Register.antt =====
-- The registers of abstract_system_constants.h by their names; SP, LR and PC are in
-- Machine.Constants.
use osh.Prelude.{ℕ}

abbrev pub r0 : ℕ
r0 = 0

abbrev pub r1 : ℕ
r1 = 1

abbrev pub r2 : ℕ
r2 = 2

abbrev pub r3 : ℕ
r3 = 3

abbrev pub r4 : ℕ
r4 = 4

abbrev pub r5 : ℕ
r5 = 5

abbrev pub r6 : ℕ
r6 = 6

abbrev pub r7 : ℕ
r7 = 7

abbrev pub r8 : ℕ
r8 = 8

abbrev pub r9 : ℕ
r9 = 9

abbrev pub r10 : ℕ
r10 = 10

abbrev pub r11 : ℕ
r11 = 11

abbrev pub r12 : ℕ
r12 = 12

abbrev pub sb : ℕ
sb = 9

abbrev pub sl : ℕ
sl = 10

abbrev pub fp : ℕ
fp = 11
