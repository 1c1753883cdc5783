-- ===== src/Sched/Example.antt =====
-- A kernel for the examples: threads 3 and 4 of priority 2 can run, thread 3 is active, thread 5
-- sleeps, and threads 6 and 7 wait for a mutex, in this order.
use sancus_riot.Common.{
  ℕ, ◌<◌, refl, Bool, true, false, [], ◌∷◌, arith, ◌==◌, if◌then◌else◌, has, Bool-cases, inl, inr,
}
use sancus_riot.Common.Bits.{bit, all_below_at}
use sancus_riot.Clist.Queue.{IsClist}
use sancus_riot.Kernel.{Kernel, Status, running, pending, stopped, sleeping, mutex_blocked}
use sancus_riot.Runqueue.{runqueue}
use sancus_riot.Runqueue.Invariant.{Queues, empty_bit}
use sancus_riot.Runqueue.Scheduled.{IsScheduled}
use sancus_riot.Sched.Pick.{IsNext, OneRuns}

abbrev status_of : ℕ → Status
status_of n =
    if n == 3
    then running
    else if n == 4
    then pending
    else if n == 5
    then sleeping
    else if has n (6 ∷ 7 ∷ [])
    then mutex_blocked
    else stopped

abbrev pub two : Kernel
two = record {
  threads = λ n. record {
    is_sm = false;
    sp = 0;
    sm_idx = 0;
    status = status_of n;
    priority = 2;
    pid = n;
    in_use = has n (3 ∷ 4 ∷ 5 ∷ 6 ∷ 7 ∷ []);
    sm_entry = 0;
    period = 0;
    runtime = 0;
    last_reference = 0;
    last_runtime = 0;
    original_idx = 0;
  };
  links = λ n. if n == 3 then 4 else if n == 4 then 3 else if n == 6 then 7 else 0;
  runqueues = λ p. if p == 2 then 4 else 0;
  bitcache = 4;
  active_thread = 3;
  active_pid = 3;
  num_threads = 2;
  switch_request = false;
  irq_is_in = false;
  timers = λ n. record { next = 0; target = 0; long_target = 0; thread = 0 };
  timer_list_head = 0;
  overflow_list_head = 0;
  long_list_head = 0;
  long_cnt = 0;
  high_cnt = 0;
  in_handler = false;
  initialization_done = true;
  counter = λ n. n;
  reads = 0;
  compare = 0;
}

abbrev pub queues_of_two : Queues
queues_of_two p = if p == 2 then 3 ∷ 4 ∷ [] else []

pub two-IsScheduled : IsScheduled two queues_of_two
two-IsScheduled = record {
  holds = record {
    queues = queues;
    cache = λ p h. ground (arith, all_below_at 16 agrees p refl h);
    apart = λ p q n i j. ground arith;
  };
  exact = λ n. ground arith;
  placed = λ p n i. ground arith;
  levels = λ n. omega arith;
}
  where
    agrees : ℕ → Bool
    agrees p = bit 4 p == empty_bit (queues_of_two p)

    queues : (p : ℕ) → p < 16 → IsClist (runqueue two p) (queues_of_two p)
    queues p h = elim (Bool-cases (p == 2)) [
      | inl e ↦ rw e record {
        proper = refl;
        distinct = (refl, (refl, tt));
        at_last = refl;
        chain = (refl, refl);
      }
      | inr e ↦ rw e refl
    ]

pub two-OneRuns : OneRuns two
two-OneRuns = record { only = λ n i. ground arith }

abbrev pub two_next : IsNext queues_of_two 3
two_next = record {
  level = 2;
  rest = 4 ∷ [];
  in_range = omega arith;
  first = refl;
  above = λ j lt. ground arith;
}
