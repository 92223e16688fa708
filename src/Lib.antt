-- ===== src/Lib.antt =====
-- Models and proofs for the C and C++ programs of this repository, and for some in Python.
--
-- Code/Ch1-memory-centric-system-model/cpp-code is a model of a computer: main
-- (abstract_system_model.cc) keeps the memory, the registers, the interrupt lines and the states
-- of five devices, loads a program that the assembler made, and runs 512 cycles. In a cycle the
-- devices act (peripherals.cc), and the processor (processor.cc) looks at the interrupt lines
-- (cpu_irqs.cc), fetches (cpu_fetch.cc), decodes (cpu_decode.cc) and executes (cpu_execute.cc,
-- alu.h) an instruction. Code/Ch10-networking has small clients and servers over sockets.
-- Code/Coursework-code-skeleton has an OpenCL kernel, the frame of a driver for it, and a testbench
-- whose threads hand data to the driver. Code/Ch3-Hardware-Architecture has loops by goto. In
-- Code/Ch1-memory-centric-system-model/basic-OS-concepts is a switch between two tasks.
--
-- Prelude: tests, lists, C arrays and vectors (`write?`, `get_elem?`, `Ram`), 64-bit words. `none`
--   is undefined behaviour: an access out of range, a division by zero, a shift by 64 or more.
-- Machine.Constants, Machine.Opcode, Machine.Register: abstract_system_constants.h.
-- Machine.Alu: the table `alu`, and main of abstract_system_alu.cc.
-- Machine.Decode: decodeInstruction and its four helpers, under the same names.
-- Machine.Fetch: fetchInstruction.
-- Machine.Execute: executeInstruction, with a definition for each branch. Below it: the invariant
--   of a machine, the stack instructions, the opcodes without a branch, when an instruction is
--   defined (Defined), what it leaves alone (Frame), a description of the instruction set
--   (Description), and that each instruction does what it says (Meaning).
-- Machine.Irqs: checkIrqs; Machine.Irqs.Service is about the interrupt that is served.
-- Machine.Peripherals: the five device actions; Machine.Peripherals.Timer is about the timer.
-- Machine.Encode: encodeInstruction and encodeProgram. Below it: a description of the instruction
--   formats (Layout), the round trip with the decoder (RoundTrip), the words of an opcode (Words),
--   the labels (Labels), and whole programs (Program).
-- Machine.Processor: processorAction. A Boolean says whether PERIPHERALS is defined.
-- Machine.Code: fib_prog and load_code. Below it: where the words go (Placed), a round of the
--   program (Rounds) and the whole of it (Fibonacci).
-- Machine.Model: main, by its initialisation, its cycle and its report. Machine.Model.Cycles is
--   about the Fibonacci program in the loop over the cycles, Machine.Model.Source about any
--   program, by an interpreter of its lines (Source.Phases; and in Source.Performed by the
--   description of their instructions), Machine.Model.Interrupts about the peripherals in that
--   loop, Machine.Model.Periods about a whole period of the timer, Machine.Model.Ticking about
--   any number of cycles with the timer, Machine.Model.Invariant about every state that main
--   reaches.
-- Net.CString, Net.Stdio: strlen, strncat, printing of a char array, fgets.
-- Net.Line: the loop of the Hi servers that reads a client's line. Below it: one turn (Turns), lines
--   (Outcome), the end of the input (Closed), and whether the loop ends (Ends).
-- Net.Hi: the start that the three Hi servers share (TCPserverSelectHi.c, TCPserverForkHi.c,
--   TCPserverPthreadsHi.c), the fork server and its children, and the pthreads server as a relation
--   between the process's states, a step for each call of the main thread and for each client's
--   thread at its end. Below it: the descriptors (Threads, Leaks), the whole of the
--   fork server (Forks), its children (Zombies), and the pthreads server with a step for each turn
--   of client_handler's loop, its printf() and its close() (Handlers), against the one above
--   (its Track, Simulation, Turns and Realised).
-- Net.Select: TCPserverSelectHi.c: `start`, the sweep over the descriptors, the two branches, the
--   loop that lowers `fdmax`, and the rounds. Below it: the invariant (Invariant), one turn of the
--   sweep (Visit), one round (Sweep), `main` (Rounds), and rounds that do not come to their end
--   (Blocked).
-- Net.Tcp: TCPclient.c and TCPserver.c. Net.Udp: UDPclient.c and UDPserver.c; below it, datagrams
--   that the server's array has room for (Delivery) and one that it has not (Overlong).
-- Net.Ack: UDPACKclient.c, UDPACKserver.c and udp_ack.h, for any htons() and htonl() and an
--   unsigned long of 64 bits. Net.Ack.Network: the two loops side by side, as a relation whose steps
--   are those of the client, the server and a network that loses, delays and reorders; below it, the
--   server against UDPACKserver.c's (Server), an invariant (Fair), what the client's success says
--   (Success), a late acknowledgement (Stale), the client's end (Progress), and the client against
--   UDPACKclient.c's (Onwards, Client, Chosen).
-- Coursework.Ints: the C type int. Coursework.Firmware: firmware.cl, with its
--   work-items in any order (Order, Commute). Coursework.Testbench:
--   testbench.c, with run_driver() as a parameter. Coursework.Driver: driver.c and driver.h, with
--   the sections that are left to be filled in as parameters. Coursework.Program: main of
--   testbench.c, from init_driver() to shutdown_driver().
-- Tasks: task1 and task2 of example_tasks.c.
-- Slice: time_slice() of Code/Ch1-memory-centric-system-model/basic-OS-concepts, in Python, for any
--   PID, TCB_OFFSET and TCB_SZ. Below it: its loops (Loops, Pops), the switch (Switch), and the
--   switch away from a task and back (Resume).
-- Python: encodeInstruction, encodeProgram and the decoder of
--   Code/Ch1-memory-centric-system-model/bare-bones-model, in Python. Below it: a line in both
--   languages (Arguments, Words), and whole programs (Port).
-- The modules Examples apply the theorems to concrete inputs.
--   Machine.Examples also runs `main` as a whole.
--
-- The large memories are functions with a size, so that 14 million words cost nothing. `Run` tells
-- a loop that returns from one that faults and from one whose fuel is used up; the theorems give
-- the fuel that is enough: one more than the length of the input for a loop over fgets(), one more
-- than the reads for a line, FD_SETSIZE + 1 for the sweep, since no descriptor is above
-- FD_SETSIZE - 1. What the operating system answers to a call is an argument of the model, as a
-- record or a function of the call's number. `labels.clear()` in encodeProgram leaves a vector
-- whose elements are still read and written; the model keeps its storage, one word for each line.
--
-- Not modelled: the copy of MEMTOP words in the peripherals' turn (abstract_system_model.cc,
-- lines 88 to 90), which nothing reads and which a memory of main's size has room for; socket
-- addresses, ports, the order of bytes of headers and error messages; a network that repeats
-- datagrams (in Net.Ack.Network); the attributes of threads; printing under VERBOSE; the gaps of
-- the coursework skeleton; task3 of example_tasks.c, which uses the variables of another
-- function; cache_model.cc, which is not valid C++ (it keeps the syntax of the Python file that
-- it was made of, and names that nothing declares), and that Python file, whose functions read
-- variables that do not exist; the other Python files, from which py2cpp.pl made the C++ model;
-- the Perl files.
pub mod Prelude
pub mod Machine
pub mod Net
pub mod Coursework
pub mod Tasks
pub mod Slice
pub mod Python
