-- ===== src/Runqueue.antt =====
-- core/sched.c: the run queues, their bit cache and `sched_set_status`.
pub mod Cache
pub mod Invariant
pub mod Scheduled
pub mod SetStatus
use sancus_riot.Common.{
  ℕ, zero, suc, ◌+◌, ◌-◌, ◌*◌, ◌/◌, ◌%◌, ◌^◌, Bool, true, false, Option, none, some, ◌==◌,
  if◌then◌else◌, bit_and, bit_or,
}
use sancus_riot.Clist
use sancus_riot.Clist.{Clist, clist}
use sancus_riot.Clist.Chain.{null}
use sancus_riot.Kernel.{Kernel, Thread, Status, on_runqueue, update}
use sancus_riot.Kernel.Monad.{M, ◌>>=◌, ◌>>◌, check, modify}

-- The loop of `bitarithm_lsb_sm_timer`, which does not end at 0.
lsb_loop : ℕ → ℕ → ℕ → Option ℕ
lsb_loop zero v r = none
lsb_loop (suc fuel) v r =
    let rest = lsb_loop fuel (v / 2) (r + 1) in if v % 2 == 0 then rest else some r

-- `bitarithm_lsb_sm_timer`: its argument is an `unsigned`, 16 bits wide on the MSP430.
unfoldable pub bitarithm_lsb_sm_timer : ℕ → Option ℕ
unfolding lsb_loop
bitarithm_lsb_sm_timer v = lsb_loop 16 (v % 2 ^ 16) 0

-- The copies of the functions of clist.h.
unfoldable pub sm_clist_rpush : Clist → ℕ → Clist
sm_clist_rpush list new_node = Clist.rpush list new_node

unfoldable pub sm_clist_lpop : Clist → ℕ × Clist
sm_clist_lpop list = Clist.lpop list

unfoldable pub sm_clist_lpoprpush : Clist → Clist
sm_clist_lpoprpush list = Clist.lpoprpush list

-- `1 << prio`, an `int` of 16 bits, as the operand of an operation on `uint32_t`: at 15 it is the
-- least `int`, whose sign is extended.
abbrev pub shifted_one : ℕ → ℕ
shifted_one prio = if prio == 15 then 2 ^ 32 - 2 ^ 15 else 2 ^ prio

abbrev pub complement32 : ℕ → ℕ
complement32 x = 2 ^ 32 - 1 - x

-- `&sched_runqueues[prio]`
abbrev pub runqueue : Kernel → ℕ → Clist
runqueue k prio = clist k.links (k.runqueues prio)

abbrev pub set_runqueue : Kernel → ℕ → Clist → Kernel
set_runqueue k prio c = record k { links = c.links; runqueues = update k.runqueues prio c.next }

-- `process->status = status`
abbrev pub with_status : Kernel → ℕ → Status → Kernel
with_status k process status = record k {
  threads = update k.threads process (record (k.threads process) { status = status });
}

-- The branch that puts a thread on its run queue.
unfoldable pub add_to_runqueue : Kernel → ℕ → Kernel
add_to_runqueue k process =
    let prio = (k.threads process).priority in
    let k' = set_runqueue k prio (sm_clist_rpush (runqueue k prio) process) in
    record k' { bitcache = bit_or k'.bitcache (shifted_one prio) }

-- The branch that takes one off: the first entry of its run queue goes.
unfoldable pub remove_from_runqueue : Kernel → ℕ → Kernel
remove_from_runqueue k process =
    let prio = (k.threads process).priority in
    let k' = set_runqueue k prio (sm_clist_lpop (runqueue k prio)).1 in
    if k'.runqueues prio == null
    then record k' { bitcache = bit_and k'.bitcache (complement32 (shifted_one prio)) }
    else k'

-- `sched_set_status` at a thread.
unfoldable pub set_status : Kernel → ℕ → Status → Kernel
set_status k process status =
    let queued = on_runqueue (k.threads process).status in
    let k' =
      if on_runqueue status
      then (if queued then k else add_to_runqueue k process)
      else (if queued then remove_from_runqueue k process else k) in
    with_status k' process status

unfoldable pub sched_set_status : ℕ → Status → M (Unit {0})
unfolding set_status
sched_set_status process status = check process >> modify (λ k. set_status k process status)
