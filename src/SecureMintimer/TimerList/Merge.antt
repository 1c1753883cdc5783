-- ===== src/SecureMintimer/TimerList/Merge.antt =====
-- Merging two timer lists.
use sancus_riot.Common.{
  ℕ, suc, ◌≡◌, refl, ◌≢◌, ◌≤◌, ◌<◌, ◌==◌, leb, ◌⊎◌, inl, inr, false, Bool-cases, some, [], ◌∷◌,
  arith,
}
use sancus_riot.SecureMintimer.TimerList.{
  Timers, null, set_next, compare_timers, merge_loop, merge_lists,
}
use sancus_riot.SecureMintimer.TimerList.Walk.{Linked}

compare-ne-null : (ts : Timers) (a b : ℕ) → a ≢ null → b ≢ null → compare_timers ts a b ≢ null
unfolding compare_timers
compare-ne-null ts a b na nb e = ground (arith, e)

-- The first round of the loop looks at the entries behind the two heads.
merge_loop-single :
    (fuel pos a b : ℕ) (ts : Timers)
    → (ts a).next ≡ null
    → (ts b).next ≡ null
    → merge_loop (suc fuel) ts pos a b ≡ some (set_next ts pos null)
unfolding merge_loop
merge_loop-single fuel pos a b ts ea eb = rw (ea, eb) refl

merge_lists-eq :
    (fuel a b : ℕ) (ts : Timers)
    → (ts a).next ≡ null
    → (ts b).next ≡ null
    → merge_lists (suc fuel) ts a b
      ≡ some (compare_timers ts a b, set_next ts (compare_timers ts a b) null)
unfolding merge_lists
merge_lists-eq fuel a b ts ea eb =
    ground (arith, merge_loop-single fuel (compare_timers ts a b) a b ts ea eb)

-- The head of the merged list: that with the smaller target, of equal ones the first.
abbrev pub IsEarlier : Timers → ℕ → ℕ → ℕ → Type 0
IsEarlier ts a b c =
    ((c ≡ a) × ((ts a).target ≤ (ts b).target)) ⊎ ((c ≡ b) × ((ts b).target < (ts a).target))

compare_timers-IsEarlier :
    (ts : Timers) (a b : ℕ) → a ≢ null → b ≢ null → IsEarlier ts a b (compare_timers ts a b)
unfolding compare_timers
compare_timers-IsEarlier ts a b na nb =
    let some_a : (a == null) ≡ false = ground (arith, na) in
    let some_b : (b == null) ≡ false = ground (arith, nb) in
    elim (Bool-cases (leb (ts a).target (ts b).target)) [
      | inl e ↦ rw (some_a, some_b, e) (inl (refl, ground (arith, e)))
      | inr e ↦ rw (some_a, some_b, e) (inr (refl, ground (arith, e)))
    ]

-- `_merge_lists` of two lists that hold one timer each returns a list that holds one timer only:
-- that with the smaller target, or the first of two with equal targets.
pub merge_lists-single :
    (fuel a b : ℕ) (ts : Timers)
    → Linked ts a (a ∷ [])
    → Linked ts b (b ∷ [])
    → (c : ℕ) × (ts' : Timers) × (merge_lists (suc fuel) ts a b ≡ some (c, ts'))
      × IsEarlier ts a b c
      × Linked ts' c (c ∷ [])
merge_lists-single fuel a b ts la lb =
    let c = compare_timers ts a b in
    (
      c,
      set_next ts c null,
      merge_lists-eq fuel a b ts la.2 lb.2,
      compare_timers-IsEarlier ts a b la.1 lb.1,
      (refl, compare-ne-null ts a b la.1 lb.1, ground arith),
    )
