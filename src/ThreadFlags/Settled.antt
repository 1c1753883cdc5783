-- ===== src/ThreadFlags/Settled.antt =====
-- Waiting for flags and setting them keep a settled state settled.
use sancus_riot.Common.{
  ℕ, ◌≡◌, refl, sym, ◌∙◌, bit_and, Bool, true, false, Option, some, none, ◌==◌, arith, Bool-cases,
  inl, inr, if◌then◌else◌,
}
use mathlib.Core.Path.{subst}
use sancus_riot.Kernel.{Kernel, Status, flag_blocked_any, flag_blocked_all, pending, on_runqueue}
use sancus_riot.Kernel.Monad.{◌>>◌, M, pure, ◌>>=◌}
use sancus_riot.Kernel.Within.{state_of, bind-inv}
use sancus_riot.Runqueue.{set_status}
use sancus_riot.Entry.{Caller, thread_yield_higher}
use sancus_riot.ThreadFlags.{
  Flags, with_flags, thread_flags_wake, thread_flags_clear, clear_one, begin_wait_any,
  begin_wait_all, wait_or, thread_flags_wait_any, thread_flags_wait_one, thread_flags_wait_all,
  thread_flags_set,
}
use sancus_riot.ThreadFlags.Lost.{wakes, wake-null, wake-yes, wake-no}
use sancus_riot.ThreadFlags.Waits.{
  any-null, any-blocks, any-passes, all-null, all-blocks, all-passes, clear-null, clear-eq,
}
use sancus_riot.System.Sound.{IsSound, IsSettled, Sound-Keeps, Keeps-Same}
use sancus_riot.Runqueue.Scheduled.{IsScheduled-frame}
use sancus_riot.ThreadFlags.Cleared.{clear_one-eq}
use sancus_riot.System.Leave.{left-Sound}
use sancus_riot.System.Yields.{thread_yield_higher-Settled}
use sancus_riot.System.Joins.{joined-Settled}

-- Settled, or, if the thread has to wait, in order up to its place on a run queue.
abbrev Begun : Bool → Kernel → Type 0
Begun true k = IsSound k
Begun false k = IsSettled k

begun :
    (r : Option ((Bool × Flags) × Kernel)) (b b' : Bool) (f g : Flags) (k m : Kernel)
    → r ≡ some ((b, f), k)
    → r ≡ some ((b', g), m)
    → Begun b k
    → Begun b' m
begun r b b' f g k m e h s = subst (λ b. Begun b m) same_flag (subst (λ k. Begun b k) same s)
  where
    same_flag : b ≡ b'
    same_flag = cc

    same : k ≡ m
    same = cc

module _ (k k' : Kernel) (f f' : Flags) (mask : ℕ) (blocked : Bool) (s : IsSettled k) where
  blocks : (st : Status) → on_runqueue st ≡ false → IsSound (set_status k k.active_thread st)
  blocks st off = left-Sound k s.0 k.active_thread st off s.2 s.1

  any-Begun : begin_wait_any mask f k ≡ some ((blocked, f'), k') → Begun blocked k'
  any-Begun h = elim (Bool-cases (k.active_thread == 0)) [
    | inl z ↦ absurd (ground (arith, any-null k f mask z, h))
    | inr nn ↦ elim (Bool-cases (bit_and (f.flags k.active_thread) mask == 0)) [
      | inl e ↦
          begun (begin_wait_any mask f k) true blocked _ f' _ k' (any-blocks k f mask nn e) h
            (blocks flag_blocked_any refl)
      | inr e ↦
          begun (begin_wait_any mask f k) false blocked f f' k k' (any-passes k f mask nn e) h s
    ]
  ]

  all-Begun : begin_wait_all mask f k ≡ some ((blocked, f'), k') → Begun blocked k'
  all-Begun h = elim (Bool-cases (k.active_thread == 0)) [
    | inl z ↦ absurd (ground (arith, all-null k f mask z, h))
    | inr nn ↦ elim (Bool-cases (bit_and (f.flags k.active_thread) mask == mask)) [
      | inl e ↦
          begun (begin_wait_all mask f k) false blocked f f' k k' (all-passes k f mask nn e) h s
      | inr e ↦
          begun (begin_wait_all mask f k) true blocked _ f' _ k' (all-blocks k f mask nn e) h
            (blocks flag_blocked_all refl)
    ]
  ]

-- Clearing flags leaves the scheduler's variables.
abbrev pub IsQuiet : (Flags → M (ℕ × Flags)) → Type 0
IsQuiet clear = (f : Flags) (k k' : Kernel) (r : ℕ × Flags) → clear f k ≡ some (r, k') → k ≡ k'

wait_or-Settled :
    (fuel : ℕ) (caller : Caller) (clear : Flags → M (ℕ × Flags)) (b : Bool × Flags) (k k' : Kernel)
    (r : Option ℕ × Flags)
    → IsQuiet clear
    → Begun b.0 k
    → wait_or fuel caller clear b k ≡ some (r, k')
    → IsSettled k'
unfolding wait_or
wait_or-Settled fuel caller clear (true, f) k k' r q s h =
    let (t, k1, e, e') =
      bind-inv (thread_yield_higher fuel caller) (λ _. pure (none, f)) k k' r h in
    subst IsSettled (state_of e') (thread_yield_higher-Settled fuel caller k k1 t s e)
wait_or-Settled fuel caller clear (false, f) k k' r q s h =
    let (m, k1, e, e') = bind-inv (clear f) (λ (mask, f). pure (some mask, f)) k k' r h in
    subst IsSettled (q f k k1 m e ∙ state_of e') s

clear-IsQuiet : (mask : ℕ) → IsQuiet (thread_flags_clear mask)
clear-IsQuiet mask f k k' r h = elim (Bool-cases (k.active_thread == 0)) [
  | inl z ↦ absurd (ground (arith, clear-null k f mask z, h))
  | inr nn ↦ state_of (sym (clear-eq k f mask nn) ∙ h)
]

clear_one-null :
    (k : Kernel) (f : Flags) (mask : ℕ) → k.active_thread == 0 ≡ true → clear_one mask f k ≡ none
unfolding clear_one
clear_one-null k f mask e = rw e refl

clear_one-IsQuiet : (mask : ℕ) → IsQuiet (clear_one mask)
clear_one-IsQuiet mask f k k' r h = elim (Bool-cases (k.active_thread == 0)) [
  | inl z ↦ absurd (ground (arith, clear_one-null k f mask z, h))
  | inr nn ↦ state_of (sym (clear_one-eq mask f k nn) ∙ h)
]

module _ (fuel : ℕ) (caller : Caller) (mask : ℕ) (f : Flags) (k k' : Kernel) (r : Option ℕ × Flags)
    (s : IsSettled k) where
  -- A call that begins to wait, and then yields or clears flags.
  after-Settled :
      (begin : M (Bool × Flags)) (clear : Flags → M (ℕ × Flags))
      → IsQuiet clear
      → ((b : Bool) (f' : Flags) (k1 : Kernel) → begin k ≡ some ((b, f'), k1) → Begun b k1)
      → (begin >>= wait_or fuel caller clear) k ≡ some (r, k')
      → IsSettled k'
  after-Settled begin clear q then_begun h =
      let (b, k1, e, e') = bind-inv begin (wait_or fuel caller clear) k k' r h in
      wait_or-Settled fuel caller clear b k1 k' r q (then_begun b.0 b.1 k1 e) e'

  pub wait_any-Settled : thread_flags_wait_any fuel caller mask f k ≡ some (r, k') → IsSettled k'
  unfolding thread_flags_wait_any
  wait_any-Settled h =
      after-Settled (begin_wait_any mask f) (thread_flags_clear mask) (clear-IsQuiet mask)
        (λ b f' k1 e. any-Begun k k1 f f' mask b s e) h

  pub wait_one-Settled : thread_flags_wait_one fuel caller mask f k ≡ some (r, k') → IsSettled k'
  unfolding thread_flags_wait_one
  wait_one-Settled h =
      after-Settled (begin_wait_any mask f) (clear_one mask) (clear_one-IsQuiet mask)
        (λ b f' k1 e. any-Begun k k1 f f' mask b s e) h

  pub wait_all-Settled : thread_flags_wait_all fuel caller mask f k ≡ some (r, k') → IsSettled k'
  unfolding thread_flags_wait_all
  wait_all-Settled h =
      after-Settled (begin_wait_all mask f) (thread_flags_clear mask) (clear-IsQuiet mask)
        (λ b f' k1 e. all-Begun k k1 f f' mask b s e) h

-- The request for another choice of thread does not matter between calls.
asks-Settled : (k : Kernel) → IsSettled k → IsSettled (record k { switch_request = true })
asks-Settled k (qs, v, first) = (
  qs,
  Sound-Keeps k (record k { switch_request = true }) qs qs
      (IsScheduled-frame k (record k { switch_request = true }) qs refl refl refl refl v.scheduled)
      (Keeps-Same k (record k { switch_request = true }) refl) v,
  first,
)

then_yields : ℕ → Caller → ℕ → ℕ → Flags → Bool → M Flags
then_yields fuel caller thread mask f woken =
    if woken
    then (do thread_yield_higher fuel caller; pure (with_flags thread mask f))
    else pure (with_flags thread mask f)

yields-Settled :
    (fuel : ℕ) (caller : Caller) (thread mask : ℕ) (f f' : Flags) (k k' : Kernel) (woken : Bool)
    → IsSettled k
    → then_yields fuel caller thread mask f woken k ≡ some (f', k')
    → IsSettled k'
unfolding then_yields
yields-Settled fuel caller thread mask f f' k k' true (qs, v, first) h =
    let (t, k1, e, e') =
      bind-inv (thread_yield_higher fuel caller) (λ _. pure (with_flags thread mask f)) k k' f' h in
    subst IsSettled (state_of e') (thread_yield_higher-Settled fuel caller k k1 t (qs, v) e)
yields-Settled fuel caller thread mask f f' k k' false s h = subst IsSettled (state_of h) s

wake-Settled :
    (k k' : Kernel) (f : Flags) (thread : ℕ) (woken : Bool)
    → IsSettled k
    → thread_flags_wake thread f k ≡ some (woken, k')
    → IsSettled k'
wake-Settled k k' f thread woken s h = elim (Bool-cases (thread == 0)) [
  | inl z ↦ absurd (ground (arith, wake-null k f thread z, h))
  | inr nn ↦ elim (Bool-cases (wakes k f thread)) [
    | inl e ↦ subst IsSettled (state_of (sym (wake-yes k f thread nn e) ∙ h)) (
        asks-Settled (set_status k thread pending)
          (joined-Settled k thread pending (λ z. ground (arith, nn, z)) refl s))
    | inr e ↦ subst IsSettled (state_of (sym (wake-no k f thread nn e) ∙ h)) s
  ]
]

pub thread_flags_set-Settled :
    (fuel : ℕ) (caller : Caller) (thread mask : ℕ) (f f' : Flags) (k k' : Kernel)
    → IsSettled k
    → thread_flags_set fuel caller thread mask f k ≡ some (f', k')
    → IsSettled k'
unfolding thread_flags_set then_yields
thread_flags_set-Settled fuel caller thread mask f f' k k' s h =
    let (w, k1, e, e') =
      bind-inv (thread_flags_wake thread (with_flags thread mask f))
        (then_yields fuel caller thread mask f) k k' f' h in
    yields-Settled fuel caller thread mask f f' k1 k' w
      (wake-Settled k k1 (with_flags thread mask f) thread w s e) e'
