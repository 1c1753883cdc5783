-- ===== src/SecureMintimer/TimerList/Remove.antt =====
-- Removing a timer from a timer list.
use sancus_riot.Common.{
  ℕ, zero, suc, ◌<◌, ◌≡◌, refl, sym, ◌∙◌, ◌≢◌, true, false, some, List, [], ◌∷◌, arith, ◌==◌, has,
  length, Distinct, Bool-cases, inl, inr,
}
use mathlib.Core.Path.{subst}
use sancus_riot.Clist.Erase.{erase, has-ne}
use sancus_riot.SecureMintimer.TimerList.{
  Timers, null, set_next, write_head, remove_loop, remove_timer,
}
use sancus_riot.SecureMintimer.TimerList.Walk.{Linked, Linked-frame}
use sancus_riot.SecureMintimer.TimerList.Insert.{SameTimes}

-- What the loop leaves when it starts at the pointer of `prev`.
record Cut (fuel : ℕ) (ts : Timers) (head timer prev a : ℕ) (xs : List ℕ) : Type 0 where
  timers_after : Timers
  returns : remove_loop fuel ts head timer prev a ≡ some (has timer xs, head, timers_after)
  linked : Linked timers_after (timers_after prev).next (erase timer xs)
  kept : (n : ℕ) → has n (prev ∷ xs) ≡ false → (timers_after n).next ≡ (ts n).next
  same : SameTimes ts timers_after

loop_end :
    (fuel : ℕ) (ts : Timers) (head timer prev : ℕ)
    → remove_loop (suc fuel) ts head timer prev null ≡ some (false, head, ts)
unfolding remove_loop
loop_end fuel ts head timer prev = ground arith

loop_here :
    (fuel : ℕ) (ts : Timers) (head prev a : ℕ)
    → a ≢ null
    → prev ≢ null
    → remove_loop (suc fuel) ts head a prev a ≡ some (true, head, set_next ts prev (ts a).next)
unfolding remove_loop write_head
loop_here fuel ts head prev a n p = ground arith

loop_first :
    (fuel : ℕ) (ts : Timers) (head a : ℕ)
    → a ≢ null
    → remove_loop (suc fuel) ts head a null a ≡ some (true, (ts a).next, ts)
unfolding remove_loop write_head
loop_first fuel ts head a n = ground arith

loop_on :
    (fuel : ℕ) (ts : Timers) (head timer prev a : ℕ)
    → a ≢ null
    → a == timer ≡ false
    → remove_loop (suc fuel) ts head timer prev a ≡ remove_loop fuel ts head timer a (ts a).next
unfolding remove_loop
loop_on fuel ts head timer prev a n h = ground arith

module _ (ts : Timers) (head timer : ℕ) where
  here :
      (fuel prev x : ℕ) (xs : List ℕ)
      → x ≡ timer
      → prev ≢ null
      → Distinct (prev ∷ x ∷ xs)
      → Linked ts x (x ∷ xs)
      → Cut (suc fuel) ts head timer prev x (x ∷ xs)
  unfolding erase
  here fuel prev x xs e p d l =
      subst (λ t. Cut (suc fuel) ts head t prev x (x ∷ xs)) e
        record {
          timers_after = set_next ts prev (ts x).next;
          returns = loop_here fuel ts head prev x l.1 p ∙ rw self refl;
          linked = rw self (rw turned behind);
          kept = λ n o. ground arith;
          same = λ n. (ground arith, ground arith, ground arith);
        }
    where
      self : x == x ≡ true
      self = ground arith

      turned : (set_next ts prev (ts x).next prev).next ≡ (ts x).next
      turned = ground arith

      behind : Linked (set_next ts prev (ts x).next) (ts x).next xs
      behind =
          Linked-frame ts (set_next ts prev (ts x).next) (ts x).next xs
            (λ n i. ground (arith, has-ne n prev xs i (ground (arith, d)))) l.2

  on :
      (fuel prev x : ℕ) (xs : List ℕ)
      → x == timer ≡ false
      → Distinct (prev ∷ x ∷ xs)
      → x ≢ null
      → (ts prev).next ≡ x
      → Cut fuel ts head timer x (ts x).next xs
      → Cut (suc fuel) ts head timer prev x (x ∷ xs)
  unfolding erase
  on fuel prev x xs ne d n e c = record {
    timers_after = c.timers_after;
    returns = loop_on fuel ts head timer prev x n ne ∙ c.returns ∙ rw other refl;
    linked = rw ne (c.kept prev d.0 ∙ e, n, c.linked);
    kept = λ m o. c.kept m (ground arith);
    same = c.same;
  }
    where
      other : has timer (x ∷ xs) ≡ has timer xs
      other = ground (arith, ne)

  cut :
      (fuel prev a : ℕ) (xs : List ℕ)
      → length xs < fuel
      → prev ≢ null
      → Distinct (prev ∷ xs)
      → Linked ts a xs
      → (ts prev).next ≡ a
      → Cut fuel ts head timer prev a xs
  unfolding erase
  cut zero prev a xs h p d l e = absurd (omega (arith, h))
  cut (suc fuel) prev a [] h p d l e = record {
    timers_after = ts;
    returns = rw l (loop_end fuel ts head timer prev);
    linked = e ∙ l;
    kept = λ n o. refl;
    same = λ n. (refl, refl, refl);
  }
  cut (suc fuel) prev a (x ∷ xs) h p d l e =
      subst (λ m. Cut (suc fuel) ts head timer prev m (x ∷ xs)) (sym l.0)
        (elim (Bool-cases (x == timer)) [
          | inl b ↦ here fuel prev x xs (ground (arith, b)) p d (refl, l.1, l.2)
          | inr b ↦
              on fuel prev x xs b d l.1 (e ∙ l.0)
                (cut fuel x (ts x).next xs (omega (arith, h)) l.1 d.1 l.2 refl)
        ])

-- Removing a timer from a timer list ends, tells whether the timer was in the list, and takes
-- exactly it out; no timer's time changes.
pub remove_timer-erase :
    (fuel : ℕ) (ts : Timers) (head timer : ℕ) (xs : List ℕ)
    → Distinct xs
    → Linked ts head xs
    → length xs < fuel
    → (head' : ℕ) × (ts' : Timers) × (remove_timer fuel ts head timer
        ≡ some (has timer xs, head', ts'))
      × Linked ts' head' (erase timer xs)
      × SameTimes ts ts'
unfolding remove_timer erase
remove_timer-erase zero ts head timer xs d l h = absurd (omega (arith, h))
remove_timer-erase (suc fuel) ts head timer [] d l h =
    (head, ts, rw l (loop_end fuel ts null timer null), l, λ n. (refl, refl, refl))
remove_timer-erase (suc fuel) ts head timer (x ∷ xs) d l h = elim (Bool-cases (x == timer)) [
  | inl b ↦
      let b' : timer ≡ x = ground (arith, b) in
      (
        (ts x).next,
        ts,
        rw (l.0, b') (loop_first fuel ts x x l.1 ∙ rw self refl),
        rw b l.2,
        λ n. (refl, refl, refl),
      )
  | inr b ↦
      let c = cut ts head timer fuel x (ts x).next xs (omega (arith, h)) l.1 d l.2 refl in
      (
        head,
        c.timers_after,
        subst
            (λ m.
              remove_loop (suc fuel) ts head timer null m
              ≡ some (has timer (x ∷ xs), head, c.timers_after))
            (sym l.0) (loop_on fuel ts head timer null x l.1 b ∙ c.returns ∙ rw (other b) refl),
        rw b (l.0, l.1, c.linked),
        c.same,
      )
]
  where
    self : x == x ≡ true
    self = ground arith

    other : x == timer ≡ false → has timer (x ∷ xs) ≡ has timer xs
    other b = ground (arith, b)
