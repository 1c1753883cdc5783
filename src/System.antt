-- ===== src/System.antt =====
-- The calls of the protected scheduler as steps of one machine: its entry from other modules
-- (cpu/msp430-sancus/cpu.c), its interrupt handler (cpu/msp430-sancus/periph/timer.c), and the
-- functions of core/thread.c and core/mutex.c that run in it. A step is a call that returns.
pub mod Sound
pub mod Run
pub mod Shots
pub mod Leave
pub mod Calls
pub mod Ends
pub mod Sleeps
pub mod Entries
pub mod Interrupts
pub mod Yields
pub mod Joins
pub mod Waits
pub mod Releases
pub mod Creates
pub mod Mutexes
pub mod Safety
mod Tests
