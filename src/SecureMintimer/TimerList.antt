-- ===== src/SecureMintimer/TimerList.antt =====
-- The timer lists: `_add_timer_to_list`, `_add_timer_to_long_list`, `_remove_timer_from_list` and
-- `_merge_lists`, through the `next` pointers of the timers.
pub mod Walk
pub mod Insert
pub mod Order
pub mod Remove
pub mod Merge
use sancus_riot.Common.{
  ℕ, zero, suc, Bool, true, false, ◌&&◌, ◌||◌, Option, none, some, ◌==◌, ltb, leb, if◌then◌else◌,
}
use sancus_riot.Kernel.{Timer, update}

abbrev pub Timers : Type 0
Timers = ℕ → Timer

abbrev pub null : ℕ
null = 0

-- `timer->next = next`
abbrev pub set_next : Timers → ℕ → ℕ → Timers
set_next ts timer next = update ts timer (record (ts timer) { next = next })

-- No list has as many timers as this.
abbrev pub list_fuel : ℕ
list_fuel = 32

-- The loop tests: whether the walk for `timer` goes on at the entry `a`.
unfoldable pub not_after : Timer → Timer → Bool
not_after a timer = leb a.target timer.target

unfoldable pub not_after_long : Timer → Timer → Bool
not_after_long a timer =
    ltb a.long_target timer.long_target
    || (a.long_target == timer.long_target && leb a.target timer.target)

-- The walk along `*list_head`: `prev` is the timer whose `next` is `*list_head`, or NULL while that is
-- the list's own head, and `cur` is `*list_head`.
pub walk : ℕ → (Timer → Bool) → Timers → ℕ → ℕ → Option (ℕ × ℕ)
walk zero goes_on ts prev cur = none
walk (suc fuel) goes_on ts prev cur =
    let rest = walk fuel goes_on ts cur (ts cur).next in
    if cur == null then some (prev, cur) else if goes_on (ts cur) then rest else some (prev, cur)

-- `*list_head = value`
write_head : Timers → ℕ → ℕ → ℕ → ℕ × Timers
write_head ts head prev value = if prev == null then (value, ts) else (head, set_next ts prev value)

-- Both functions that add a timer, given the loop's test: the new head of the list, and the timers.
unfoldable pub add_timer : ℕ → (Timer → Timer → Bool) → Timers → ℕ → ℕ → Option (ℕ × Timers)
unfolding walk write_head
add_timer fuel before ts head timer = elim (walk fuel (λ a. before a (ts timer)) ts null head) [
  | none ↦ none
  | some (prev, cur) ↦ some (write_head (set_next ts timer cur) head prev timer)
]

-- The loop of `_remove_timer_from_list`.
remove_loop : ℕ → Timers → ℕ → ℕ → ℕ → ℕ → Option (Bool × ℕ × Timers)
unfolding write_head
remove_loop zero ts head timer prev cur = none
remove_loop (suc fuel) ts head timer prev cur =
    let rest = remove_loop fuel ts head timer cur (ts cur).next in
    if cur == null
    then some (false, head, ts)
    else if cur == timer
    then (let (head', ts') = write_head ts head prev (ts timer).next in some (true, head', ts'))
    else rest

unfoldable pub remove_timer : ℕ → Timers → ℕ → ℕ → Option (Bool × ℕ × Timers)
unfolding remove_loop
remove_timer fuel ts head timer = remove_loop fuel ts head timer null head

-- `_compare`
unfoldable pub compare_timers : Timers → ℕ → ℕ → ℕ
compare_timers ts a b =
    if a == null
    then b
    else if b == null
    then a
    else if leb (ts a).target (ts b).target
    then a
    else b

-- The loop of `_merge_lists`.
merge_loop : ℕ → Timers → ℕ → ℕ → ℕ → Option Timers
unfolding compare_timers
merge_loop zero ts pos head_a head_b = none
merge_loop (suc fuel) ts pos head_a head_b =
    let a = (ts head_a).next in
    let b = (ts head_b).next in
    let c = compare_timers ts a b in
    let rest = merge_loop fuel (set_next ts pos c) c a b in
    if a == null
    then some (set_next ts pos b)
    else if b == null
    then some (set_next ts pos a)
    else rest

unfoldable pub merge_lists : ℕ → Timers → ℕ → ℕ → Option (ℕ × Timers)
unfolding merge_loop
merge_lists fuel ts head_a head_b =
    let result_head = compare_timers ts head_a head_b in
    elim (merge_loop fuel ts result_head head_a head_b) [
      | none ↦ none
      | some ts' ↦ some (result_head, ts')
    ]
