-- ===== src/Lib.antt =====
-- A supervisor on a Pico 2 for an MC6809E: it gives the guest 64 bytes of registers, two serial
-- ports, a timer and system requests, and it follows the guest's task register through interrupts.
--
-- The parts, and how they work together. The guest reads and writes two blocks of 64 bytes through
-- DMA. After each access an interrupt handler of core 1 runs; it does what cannot wait and queues
-- writes in a ring, from which the loop of core 1 serves them. The loop also asks the devices for
-- interrupts, which the handler at the rising edge of Q puts on the pins. Core 0 moves bytes between
-- the serial ports and USB, through two queues that the cores share without a lock, serves system
-- requests, and runs the console.
--
-- Base: numbers, lists, tests and memory cells that all modules use.
-- Registers: include/registers.h and src/registers.cpp. A block is a function from an index;
--   `reg[i]` is `read_byte`, `read_word`, `put_byte` and `put_word`; an access outside a block is
--   `none`.
-- SpscQueue: class SpscQueue of include/mc6850.h. `get` returns the byte and the new queue. Fifo
--   has the list that a ring stands for, Cores the loads and stores of two cores, interleaved.
-- Interrupt: include/interrupt.h.
-- Mc6850: class mc6850 of include/mc6850.h and src/mc6850.cpp. A method takes the port and the
--   register blocks and returns both; what the source does to `reg` is in the second part.
-- TickTimer: include/tick_timer.h and src/tick_timer.cpp, in the same way.
-- Mc6809: include/mc6809.h and src/mc6809.cpp, with the bus observer of src/pico_thing.cpp.
--   Nesting has handlers that nest, each return with its countdown undisturbed, Trace the one-shot trace.
-- Srec: src/srec.cpp. A text is the list of its characters before the terminating zero.
-- WriteRing: the ring of writes of src/pico_thing.cpp.
-- Core1: the handlers of src/pico_thing.cpp, with all devices in one state; Requests, main_core1's
--   and sysreq_process's part in a system request; Loop, the loop of main_core1; Armed, the guest's
--   writes and the rounds of that loop, in any order, while the watchpoint is armed.
-- Power: powering, starting and stopping of src/mc6809.cpp, with the pins as asserted or not.
-- Copy: copy() and peripheral_clear of src/pico_thing.cpp. Loaded has a snippet in its place; what a run
--   of it does is taken as known there alone.
-- Usb, UartPump: the reads and writes of src/usb.c, and uart_port_pump and uart_task of
--   src/mc6809.cpp. A port state is two arrays with their counts and positions; Streams has the lists
--   of bytes that they stand for.
-- Console: process_command and poll_console of src/pico_thing.cpp. `Board` is all that core 1 has,
--   the pins, the guest's memory and core 0's static variables; a command takes it and returns it.
--   Supply, Memory, Run, Load and Break have the commands, Commands their type and the switch,
--   LineEditor the line editor, Poll the watchdog and the round of the loop. SelfTest is the command
--   IRQ, which stands beside the switch.
-- Diskload: chunk/diskload.c, a program of the guest, with ide_write_sector of chunk/ide_lib.c.
-- Stress: chunk/stress_acia.c, another. `Line` is what the calls of INCH find, one after another.
-- Torture: chunk/dat_torture.c, a third, on any bus; `M` is a step of the guest. A wait for the drive
--   has a number of polls, within which the drive is taken to answer. Tests has the tests with
--   transfers, Churned and Remapped what they find on a sound bus, Leak what the first one finds on
--   a bus that leaks.
-- Examples: the theorems at concrete inputs.
--
-- Numbers. A uintN_t is a natural number with its wrap-around written out. Loops over an array or a
-- text are recursion on the number of rounds left. The loop that drains the counter of reads runs on
-- fuel; the counter has eight bits, so that 255 rounds are enough. The ring of
-- writes holds 31 entries, so that the loop that drains it needs no more rounds than these while no
-- write arrives. A copy runs on one round for each byte and one more, enough for copies that
-- end below the top of memory. EXAMINE has 4097 rounds, one for each row of 16 bytes in
-- the address space and one more. The waits for a run of the 6809 and for a break
-- have the rounds of the source. The pump's loop that collects bytes has those until its buffer is
-- full. The decoder of disk images has one round for each byte that arrives and one more, and so has
-- the loop over the frames, enough for an image that is sent whole.
--
-- Memory order. The atomics of SpscQueue acquire and release, so that each core sees the other's
-- stores in order; a run is one sequence of loads and stores. The other variables that the cores or
-- the handlers share are volatile; their accesses are taken as they stand in the source.
--
-- A method of a port, and a round of the loop over the ring, is taken whole, but for sync_status with
-- a handler in between (Mc6850/Preempted) and the loads of a round (WriteRing/Window).
--
-- Core 0's calls are taken as they stand in the source, one after another; the interrupt handlers and
-- the guest come in between where the model says so: while core 0 waits for a run or a break
-- (`observe`), and after a run (`settle`). Between two chunks of a copy the handlers are taken to have
-- seen RESET, which the source expects.
--
-- Parameters: the bytes of the snippets and chunks, which a generated file has; the parser of the
-- commands, which is generated; floating point; the calendar clock of the SDK; TinyUSB; what the pins
-- show; what the interrupt handlers and the guest do during a timed run; what the drive does with a
-- sector; the guest's bus in Torture.
--
-- Not modelled: the commands STATUS, TIME_SET, FREQ and USB, the status report, the set-up of
-- the USB stack and its callbacks, the generated command parser, the PIO programs, the set-up of the
-- PIO and the DMA, the clock frequency, the other programs of the guest and those of the host, and
-- the debug counters and messages.
pub mod Base
pub mod Registers
pub mod SpscQueue
pub mod Interrupt
pub mod Mc6850
pub mod Stress
pub mod TickTimer
pub mod Torture
pub mod UartPump
pub mod Usb
pub mod Mc6809
pub mod WriteRing
pub mod Srec
pub mod Power
pub mod Copy
pub mod Console
pub mod Diskload
pub mod Core1
pub mod Examples
