-- ===== src/Machine/Opcode.antt =====
-- The opcodes of abstract_system_constants.h.
use osh.Prelude.{ℕ}

abbrev pub add : ℕ
add = 0

abbrev pub sub : ℕ
sub = 1

abbrev pub mul : ℕ
mul = 2

abbrev pub div : ℕ
div = 3

abbrev pub and : ℕ
and = 4

abbrev pub or : ℕ
or = 5

abbrev pub eor : ℕ
eor = 6

abbrev pub ars : ℕ
ars = 7

abbrev pub als : ℕ
als = 8

abbrev pub ldr : ℕ
ldr = 16

abbrev pub str : ℕ
str = 17

abbrev pub bl : ℕ
bl = 18

abbrev pub bx : ℕ
bx = 19

abbrev pub push : ℕ
push = 20

abbrev pub pop : ℕ
pop = 21

abbrev pub mov : ℕ
mov = 22

abbrev pub set : ℕ
set = 23

abbrev pub nop : ℕ
nop = 24

abbrev pub cbz : ℕ
cbz = 25

abbrev pub cbnz : ℕ
cbnz = 26

abbrev pub b : ℕ
b = 27

abbrev pub adr : ℕ
adr = 28

abbrev pub wfi : ℕ
wfi = 29
