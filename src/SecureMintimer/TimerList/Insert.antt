-- ===== src/SecureMintimer/TimerList/Insert.antt =====
-- A timer list as the list of its timers; adding a timer puts it behind those that are due before
-- it or at the same time.
use sancus_riot.Common.{
  ℕ, zero, suc, ◌<◌, ◌≡◌, refl, ◌∙◌, ◌≢◌, Bool, true, false, some, List, [], ◌∷◌, arith, has,
  length, Distinct, Bool-cases, inl, inr,
}
use sancus_riot.Clist.Erase.{has-ne}
use sancus_riot.Kernel.{Timer}
use sancus_riot.SecureMintimer.TimerList.{Timers, null, set_next, walk, write_head, add_timer}
use sancus_riot.SecureMintimer.TimerList.Walk.{
  Linked, insert, Linked-frame, spliced, walk_stop, walk_on, walk_end, place,
}

pub has-null-Linked : (ts : Timers) (a : ℕ) (xs : List ℕ) → Linked ts a xs → has null xs ≡ false
has-null-Linked ts a [] l = refl
has-null-Linked ts a (x ∷ xs) l = ground (arith, l.1, has-null-Linked ts (ts x).next xs l.2)

-- The timers are due as before, for the same threads.
abbrev pub SameTimes : Timers → Timers → Type 0
SameTimes ts ts' =
    (n : ℕ)
    → ((ts' n).target ≡ (ts n).target)
      × ((ts' n).long_target ≡ (ts n).long_target)
      × ((ts' n).thread ≡ (ts n).thread)

set_next-SameTimes : (ts : Timers) (a v : ℕ) → SameTimes ts (set_next ts a v)
set_next-SameTimes ts a v n = (ground arith, ground arith, ground arith)

spliced-SameTimes : (ts : Timers) (timer prev cur : ℕ) → SameTimes ts (spliced ts timer prev cur)
spliced-SameTimes ts timer prev cur n = (ground arith, ground arith, ground arith)

-- What `add_timer` leaves.
pub record Added (fuel : ℕ) (before : Timer → Timer → Bool) (ts : Timers) (head timer : ℕ)
    (xs : List ℕ) : Type 0 where
  pub head_after : ℕ
  pub timers_after : Timers
  pub returns : add_timer fuel before ts head timer ≡ some (head_after, timers_after)
  pub linked : Linked timers_after head_after (insert before ts timer xs)
  pub same : SameTimes ts timers_after

add_timer-eq :
    (fuel : ℕ) (before : Timer → Timer → Bool) (ts : Timers) (head timer prev cur : ℕ)
    → walk fuel (λ a. before a (ts timer)) ts null head ≡ some (prev, cur)
    → add_timer fuel before ts head timer
      ≡ some (write_head (set_next ts timer cur) head prev timer)
unfolding add_timer
add_timer-eq fuel before ts head timer prev cur w = ground arith

write_head-null : (ts : Timers) (head value : ℕ) → write_head ts head null value ≡ (value, ts)
unfolding write_head
write_head-null ts head value = ground arith

write_head-ne :
    (ts : Timers) (head prev value : ℕ)
    → prev ≢ null
    → write_head ts head prev value ≡ (head, set_next ts prev value)
unfolding write_head
write_head-ne ts head prev value n = ground arith

-- Adding a timer that is in no list to a timer list ends, and puts it behind the entries that the
-- list's order puts before it, and before the others; no timer's time changes.
pub add_timer-insert :
    (fuel : ℕ) (before : Timer → Timer → Bool) (ts : Timers) (head timer : ℕ) (xs : List ℕ)
    → timer ≢ null
    → Distinct xs
    → has timer xs ≡ false
    → Linked ts head xs
    → length xs < fuel
    → Added fuel before ts head timer xs
unfolding insert
add_timer-insert zero before ts head timer xs nn d out l h = absurd (omega (arith, h))
add_timer-insert (suc fuel) before ts head timer [] nn d out l h = record {
  head_after = timer;
  timers_after = set_next ts timer null;
  returns =
      add_timer-eq (suc fuel) before ts head timer null null
        (rw l (walk_end fuel (λ a. before a (ts timer)) ts null))
      ∙ rw (write_head-null (set_next ts timer null) head timer) refl;
  linked = (refl, nn, ground arith);
  same = set_next-SameTimes ts timer null;
}
add_timer-insert (suc fuel) before ts head timer (x ∷ xs) nn d out l h =
    elim (Bool-cases (before (ts x) (ts timer))) [
      | inl b ↦
          let p =
            place before ts timer nn fuel x (ts x).next xs (omega (arith, h)) d out l.2 refl in
          record {
            head_after = x;
            timers_after = spliced ts timer p.left p.right;
            returns =
                add_timer-eq (suc fuel) before ts head timer p.left p.right
                  (rw l.0 (walk_on fuel (λ a. before a (ts timer)) ts null x l.1 b ∙ p.found))
                ∙ rw
                    (
                      write_head-ne (set_next ts timer p.right) head p.left timer (
                          has-ne p.left null (x ∷ xs) p.among (has-null-Linked ts head (x ∷ xs) l)),
                      l.0,
                    )
                    refl;
            linked = rw b (refl, l.1, p.linked);
            same = spliced-SameTimes ts timer p.left p.right;
          }
      | inr b ↦ record {
        head_after = timer;
        timers_after = set_next ts timer x;
        returns =
            add_timer-eq (suc fuel) before ts head timer null x
              (rw l.0 (walk_stop fuel (λ a. before a (ts timer)) ts null x l.1 b))
            ∙ rw (write_head-null (set_next ts timer x) head timer) refl;
        linked = rw b (refl, nn, (ground arith, l.1, behind));
        same = set_next-SameTimes ts timer x;
      }
    ]
  where
    kept : (n : ℕ) → has n (x ∷ xs) ≡ true → (set_next ts timer x n).next ≡ (ts n).next
    kept n i = ground (arith, has-ne n timer (x ∷ xs) i out)

    behind : Linked (set_next ts timer x) (set_next ts timer x x).next xs
    behind =
        rw (kept x (ground arith))
          (Linked-frame ts (set_next ts timer x) (ts x).next xs (λ n i. kept n (ground arith)) l.2)
