-- ===== src/SecureMintimer/Tests.antt =====
-- Examples for the timer lists: timers 2 and 4 wait, timer 3 is due between them.
use sancus_riot.Common.{ℕ, ◌*◌, ◌≡◌, refl, true, some, [], ◌∷◌, arith, ◌==◌, if◌then◌else◌}
use sancus_riot.Clist.Erase.{erase}
use sancus_riot.SecureMintimer.TimerList.{Timers, not_after, add_timer, remove_timer, merge_lists}
use sancus_riot.SecureMintimer.TimerList.Walk.{Linked, insert}
use sancus_riot.SecureMintimer.TimerList.Insert.{SameTimes}
use sancus_riot.SecureMintimer.TimerList.Order.{InOrder, not_after-IsOrder, add_timer-InOrder}
use sancus_riot.SecureMintimer.TimerList.Merge.{IsEarlier, merge_lists-single}
use sancus_riot.SecureMintimer.TimerList.Remove.{remove_timer-erase}

abbrev waiting : Timers
waiting n = record { next = if n == 2 then 4 else 0; target = n * 100; long_target = 0; thread = n }

waiting-Linked : Linked waiting 2 (2 ∷ 4 ∷ [])
waiting-Linked = (refl, (λ e. ground arith), (refl, (λ e. ground arith), refl))

add_timer-InOrder_example :
    (head' : ℕ) × (ts' : Timers) × (add_timer 3 not_after waiting 2 3 ≡ some (head', ts'))
    × Linked ts' head' (2 ∷ 3 ∷ 4 ∷ [])
    × InOrder not_after ts' (2 ∷ 3 ∷ 4 ∷ [])
    × SameTimes waiting ts'
unfolding insert not_after
add_timer-InOrder_example =
    add_timer-InOrder 3 not_after waiting 2 3 (2 ∷ 4 ∷ []) not_after-IsOrder (λ e. ground arith)
      (refl, (refl, tt)) refl waiting-Linked (refl, (tt, tt)) (omega arith)

remove_timer-erase_example :
    (head' : ℕ) × (ts' : Timers) × (remove_timer 3 waiting 2 4 ≡ some (true, head', ts'))
    × Linked ts' head' (2 ∷ [])
    × SameTimes waiting ts'
unfolding erase
remove_timer-erase_example =
    remove_timer-erase 3 waiting 2 4 (2 ∷ 4 ∷ []) (refl, (refl, tt)) waiting-Linked (omega arith)

-- Timers 3 and 4 wait alone, each in a list of its own.
merge_lists-single_example :
    (c : ℕ) × (ts' : Timers) × (merge_lists 1 waiting 3 4 ≡ some (c, ts'))
    × IsEarlier waiting 3 4 c
    × Linked ts' c (c ∷ [])
merge_lists-single_example =
    merge_lists-single 0 3 4 waiting (refl, (λ e. ground arith), refl)
      (refl, (λ e. ground arith), refl)
