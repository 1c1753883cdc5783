-- ===== src/SecureMintimer/Set.antt =====
-- Setting and removing timers: `_remove`, `secure_mintimer_remove`, `get_available_timer`,
-- `_secure_mintimer_set_absolute` and the functions that put a thread to sleep.
pub mod Quiet
pub mod Keeping
use sancus_riot.Common.{ℕ, ◌+◌, true, false, not, ◌||◌, none, some, ◌==◌, ltb, leb, if◌then◌else◌}
use sancus_riot.Kernel.{Kernel, sleeping, update}
use sancus_riot.Kernel.Monad.{M, pure, fault, ◌>>=◌, ◌>>◌, get, modify, check}
use sancus_riot.Runqueue.{sched_set_status}
use sancus_riot.SecureMintimer.{
  timer_list_length, backoff, overhead, add32, sub32, lltimer_mask, is_set, spin_until,
  mintimer_now, lltimer_set, this_high_period, shoot_timer, add_to_timer_list, add_to_overflow_list,
  add_to_long_list,
}
use sancus_riot.SecureMintimer.TimerList.{null, list_fuel, remove_timer}

-- `timer->target = target; timer->long_target = long_target`
abbrev pub set_target : ℕ → ℕ → ℕ → Kernel → Kernel
set_target timer target long_target k = record k {
  timers =
      update k.timers timer
        (record (k.timers timer) { target = target; long_target = long_target });
}

-- The branch of `_remove` for the head of the current list.
remove_head : ℕ → Kernel → Kernel
unfolding lltimer_set
remove_head timer k =
    let head = (k.timers timer).next in
    let next =
      if head == null then lltimer_mask 0xffff_ffff else sub32 (k.timers head).target overhead in
    lltimer_set next (record k { timer_list_head = head })

-- The other branch: the three lists are tried in turn.
remove_inner : ℕ → M (Unit {0})
remove_inner timer k = elim (remove_timer list_fuel k.timers k.timer_list_head timer) [
  | none ↦ none
  | some (true, head, ts) ↦ some (tt, record k { timer_list_head = head; timers = ts })
  | some (false, _, _) ↦ elim (remove_timer list_fuel k.timers k.overflow_list_head timer) [
    | none ↦ none
    | some (true, head, ts) ↦ some (tt, record k { overflow_list_head = head; timers = ts })
    | some (false, _, _) ↦ elim (remove_timer list_fuel k.timers k.long_list_head timer) [
      | none ↦ none
      | some (_, head, ts) ↦ some (tt, record k { long_list_head = head; timers = ts })
    ]
  ]
]

-- `_remove`
unfoldable pub unlink : ℕ → M (Unit {0})
unfolding remove_head remove_inner
unlink timer = do
  k ← get
  if k.timer_list_head == timer then modify (remove_head timer) else remove_inner timer

unfoldable pub secure_mintimer_remove : ℕ → M (Unit {0})
unfolding unlink is_set
secure_mintimer_remove timer = do
  check timer
  k ← get
  if is_set (k.timers timer) then unlink timer >> modify (set_target timer 0 0) else pure tt

-- The timer of a thread, or NULL. `pid` is not negative here; the entry behind the last one is outside
-- of the array.
unfoldable pub get_available_timer : ℕ → M ℕ
unfolding secure_mintimer_remove
get_available_timer pid =
    if leb pid timer_list_length
    then (if pid == timer_list_length
        then fault
        else secure_mintimer_remove (pid + 1) >> pure (pid + 1))
    else pure null

-- The target is passed on to the list that the time of the target belongs to.
file_timer : ℕ → ℕ → ℕ → M (Unit {0})
unfolding this_high_period lltimer_mask lltimer_set
file_timer timer target now = do
  k ← get
  if ltb k.long_cnt (k.timers timer).long_target || not (this_high_period target k)
      then add_to_long_list timer
      else if leb target (lltimer_mask now)
      then add_to_overflow_list timer
      else do
        add_to_timer_list timer
        modify (λ k. if k.timer_list_head == timer then lltimer_set target k else k)

-- `_secure_mintimer_set_absolute_explicit`; it returns 0 always.
unfoldable pub set_absolute_explicit : ℕ → ℕ → M (Unit {0})
unfolding file_timer
set_absolute_explicit timer now = do
  check timer
  k ← get
  let t = k.timers timer
  let target = sub32 t.target overhead
  modify (λ k. if ltb target now then set_target timer t.target (add32 t.long_target 1) k else k)
  file_timer timer target now

-- `_secure_mintimer_set_absolute`; it returns 0 always.
unfoldable pub set_absolute : ℕ → ℕ → M (Unit {0})
unfolding mintimer_now is_set unlink set_absolute_explicit
set_absolute timer target = do
  now ← mintimer_now
  check timer
  modify
      (λ k. record k { timers = update k.timers timer (record (k.timers timer) { next = null }) })
  if leb (sub32 target now) backoff then spin_until target >> shoot_timer timer else do
    k ← get
    if is_set (k.timers timer) then unlink timer else pure tt
    modify (λ k. set_target timer target k.long_cnt k)
    set_absolute_explicit timer now

-- `_secure_mintimer_set`
unfoldable pub mintimer_set : ℕ → ℕ → M (Unit {0})
unfolding secure_mintimer_remove mintimer_now set_absolute
mintimer_set timer offset = do
  secure_mintimer_remove timer
  now ← mintimer_now
  set_absolute timer (add32 now offset)

-- `_secure_mintimer_tsleep_specific_pid`
unfoldable pub tsleep_specific_pid : ℕ → ℕ → M (Unit {0})
unfolding get_available_timer mintimer_set
tsleep_specific_pid offset pid = do
  timer ← get_available_timer pid
  if timer == null then pure tt else do
    modify (λ k. record k {
      timers =
          update k.timers timer
            (record (k.timers timer) { target = 0; long_target = 0; thread = pid });
    })
    sched_set_status pid sleeping
    mintimer_set timer offset

-- `_secure_mintimer_tsleep_internal`
unfoldable pub tsleep_internal : ℕ → M (Unit {0})
unfolding tsleep_specific_pid
tsleep_internal offset = do
  k ← get
  check k.active_thread
  tsleep_specific_pid offset (k.threads k.active_thread).pid
