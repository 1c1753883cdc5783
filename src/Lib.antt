-- ===== src/Lib.antt =====
-- A model of the protected scheduler of sancus-riot, an operating system for MSP430 processors with
-- Sancus enclaves. The scheduler, its threads and its timers live in one protected module,
-- `sancus_sm_timer`, which is entered by calls from other modules and by the timer interrupt, and is
-- never interrupted itself. So each entry is a function of the module's variables. The code of threads
-- goes through the entry to yield; timer interrupts may come before that.
--
-- The parts and their files:
--   Common            Boolean tests, lists, membership, bits of numbers.
--   Clist             core/include/clist.h, circular lists, at the level of next pointers. Clist.Queue,
--                     Search, Remove and Rpop relate them to lists of nodes, Clist.Frame says what an
--                     operation leaves alone.
--   Kernel            core/include/sched.h and the variables of core/sched.c and
--                     sys/secure_mintimer/secure_mintimer_core.c as one record, and code on them
--                     (Kernel.Monad): a function to an optional result and new variables. The missing
--                     result is a fault: a read through NULL, an index out of range, or a loop that has
--                     not ended when its fuel is used up.
--   Runqueue          core/sched.c: the queues of the threads that can run, one per priority, the bit
--                     cache over them, and sched_set_status. Runqueue.Invariant, Scheduled and
--                     SetStatus hold the scheduler's invariant, IsScheduled.
--   Sched             core/sched.c: sched_run_internal, sched_yield, sched_switch_internal,
--                     sched_task_exit_internal; and the C part of thread_yield_higher_internal of
--                     cpu/msp430-sancus/cpu.c.
--   SecureMintimer    sys/secure_mintimer/secure_mintimer_core.c: the clock, the three timer lists
--                     (TimerList), setting and removing timers (Set), the interrupt handler
--                     (Callback).
--   Thread            core/thread.c: waking and creating threads in the scheduler.
--   Mutex             core/mutex.c, with thread_add_to_list of core/thread.c. A mutex is the pointer
--                     queue.next, passed in and returned. Mutex.Insert, Enqueue and Order are about
--                     waiting for it, Unlock about handing it on.
--   Mailbox           core/mbox.c. Mailbox.Fifo, Handover and Overrun are about messages, Joins,
--                     Settled and Gets about what waiting does to the scheduler.
--   ThreadFlags       core/thread_flags.c.
--   Entry             the entry of the module: exitless_entry of cpu/msp430-sancus/cpu.c, the interrupt
--                     handler of cpu/msp430-sancus/periph/timer.c with the context that it saves
--                     (cpu/msp430-sancus/include/cpu.h), scheduler_init and sched_switch of
--                     core/sched.c, thread_yield_higher of cpu/msp430-sancus/cpu.c.
--   System            the calls above as steps of one machine, and what every run of them keeps
--                     (Safety); Entries, Interrupts, Yields and the others are about one kind of call.
--   RingBuffer        core/ringbuffer.c, a queue of bytes in an array; it and the parts below use
--                     none of the others.
--   Cib               core/include/cib.h, the indices of a circular buffer.
--   Bitarithm         core/bitarithm.c and core/include/bitarithm.h.
--   Byteorder         core/include/byteorder.h.
--   PriorityQueue     core/priority_queue.c.
--   Lifo              core/lifo.c.
--   Div               sys/div/div.c and sys/include/div.h.
--   Rtc               drivers/periph_common/rtc.c. Rtc.Calendar is a calendar to hold it against.
--   Malloc            sys/oneway-malloc/oneway-malloc.c and the sbrk of
--                     cpu/msp430_common/msp430-main.c.
--   Ethos             dist/tools/ethos/ethos.c, the framing on the serial line between the host and the
--                     board. Ethos.Sender and Escape are the sender,
--                     Receive and Frames the receiver, Link both.
-- They meet where the source's do: the timers and the threads call sched_set_status of Runqueue, and
-- Sched calls the timers to bound the time of periodic jobs.
--
-- A thread pointer is the thread's pid and the address of its rq_entry, a timer pointer is its place
-- in the array; NULL is 0. Machine integers keep their wrap-around (`% 2 ^ 32`, `% 2 ^ 16`: an int
-- is 16 bits wide here); the sums of signed ints in Rtc have no result where they overflow. The
-- hardware counter is a function from the number of a read to its value.
--
-- Loops over the nodes of a circular list take fuel, and the theorems say that as much as the list is
-- long is enough. Timer lists take 32, which is more than there are timers. Loops that wait for the
-- counter take 2 ^ 17 reads, two runs of the counter. The loop of
-- periodic_thread_schedule_next_timer and the rounds of the interrupt handler take fuel as an
-- argument. Lists of threads that wait take 64, twice the number of threads.
--
-- The lists that a receiver of Ethos reads are what one or more calls of `read` return, and a call of
-- checked_write is an output with the bytes it is to write; checked_write itself is modelled beside.
--
-- Not modelled: the assembly that saves and restores contexts, but for what it stores in the entry of
-- the active thread, and that checks the caller; timer interrupts between the calls that code outside of
-- the scheduler makes, but for those just before a yield; the registers of the timer peripheral, debug
-- output, and the system above the scheduler. core/msg.c, core/rmutex.c and core/cond.c are commented
-- out in the source.
pub mod Bitarithm
pub mod Byteorder
pub mod Cib
pub mod Clist
pub mod Common
pub mod Div
pub mod Entry
pub mod Ethos
pub mod Kernel
pub mod Lifo
pub mod Mailbox
pub mod Malloc
pub mod Mutex
pub mod PriorityQueue
pub mod RingBuffer
pub mod Rtc
pub mod Runqueue
pub mod Sched
pub mod SecureMintimer
pub mod System
pub mod Thread
pub mod ThreadFlags
