-- ===== src/ThreadFlags/Lost.antt =====
-- No wake-up is lost.
use sancus_riot.Common.{
  ℕ, ◌%◌, ◌^◌, ◌≡◌, ◌≢◌, refl, sym, ◌∙◌, Bool, true, false, some, none, ◌==◌, arith, Bool-cases,
  inl, inr,
}
use mathlib.Core.Path.{subst}
use sancus_riot.Kernel.{Kernel, Status, pending}
use sancus_riot.Kernel.Within.{state_of}
use sancus_riot.Runqueue.{set_status, sched_set_status}
use sancus_riot.Runqueue.Scheduled.{threads-set_status}
use sancus_riot.ThreadFlags.{Flags, with_flags, wakeup, thread_flags_wake}

-- No thread is to be woken, as `thread_flags_wake` tests it.
abbrev pub NotWoken : Kernel → Flags → Type 0
NotWoken k f = (n : ℕ) → wakeup (k.threads n).status (f.flags n) (f.wait_data n % 2 ^ 16) ≡ false

module _ (k : Kernel) (f : Flags) (a : NotWoken k f) (thread : ℕ) where
  -- Another status for one thread, and other flags and another mask for it.
  pub one_changed :
      (s : Status) (f' : Flags)
      → ((n : ℕ) → n ≢ thread → (f'.flags n ≡ f.flags n) × (f'.wait_data n ≡ f.wait_data n))
      → wakeup s (f'.flags thread) (f'.wait_data thread % 2 ^ 16) ≡ false
      → NotWoken (set_status k thread s) f'
  one_changed s f' others self n = elim (Bool-cases (n == thread)) [
    | inl e ↦
        let e' : n ≡ thread = ground (arith, e) in
        rw (threads-set_status k thread s, e)
          (subst (λ m. wakeup s (f'.flags m) (f'.wait_data m % 2 ^ 16) ≡ false) (sym e') self)
    | inr e ↦
        let o = others n (ground (arith, e)) in
        rw (threads-set_status k thread s, e, o.0, o.1) (a n)
  ]

  pub flags_changed :
      (f' : Flags)
      → ((n : ℕ) → n ≢ thread → (f'.flags n ≡ f.flags n) × (f'.wait_data n ≡ f.wait_data n))
      → wakeup (k.threads thread).status (f'.flags thread) (f'.wait_data thread % 2 ^ 16) ≡ false
      → NotWoken k f'
  flags_changed f' others self n = elim (Bool-cases (n == thread)) [
    | inl e ↦
        let e' : n ≡ thread = ground (arith, e) in
        subst (λ m. wakeup (k.threads m).status (f'.flags m) (f'.wait_data m % 2 ^ 16) ≡ false)
          (sym e') self
    | inr e ↦ let o = others n (ground (arith, e)) in rw (o.0, o.1) (a n)
  ]

  with_flags-others :
      (mask n : ℕ)
      → n ≢ thread
      → ((with_flags thread mask f).flags n ≡ f.flags n)
        × ((with_flags thread mask f).wait_data n ≡ f.wait_data n)
  with_flags-others mask n ne = (ground (arith, ne), refl)

-- Whether the thread is woken.
pub wakes : Kernel → Flags → ℕ → Bool
wakes k f thread = wakeup (k.threads thread).status (f.flags thread) (f.wait_data thread % 2 ^ 16)

pub wake-null :
    (k : Kernel) (f : Flags) (thread : ℕ) → thread == 0 ≡ true → thread_flags_wake thread f k ≡ none
unfolding thread_flags_wake
wake-null k f thread e = rw e refl

pub wake-yes :
    (k : Kernel) (f : Flags) (thread : ℕ)
    → thread == 0 ≡ false
    → wakes k f thread ≡ true
    → thread_flags_wake thread f k
      ≡ some (true, record (set_status k thread pending) { switch_request = true })
unfolding thread_flags_wake wakes sched_set_status
wake-yes k f thread nn e = rw (nn, e) refl

pub wake-no :
    (k : Kernel) (f : Flags) (thread : ℕ)
    → thread == 0 ≡ false
    → wakes k f thread ≡ false
    → thread_flags_wake thread f k ≡ some (false, k)
unfolding thread_flags_wake wakes
wake-no k f thread nn e = rw (nn, e) refl

-- Setting flags wakes the thread if it waits for them.
pub set-NotWoken :
    (k k' : Kernel) (f : Flags) (thread mask : ℕ) (woken : Bool)
    → NotWoken k f
    → thread_flags_wake thread (with_flags thread mask f) k ≡ some (woken, k')
    → NotWoken k' (with_flags thread mask f)
unfolding wakes wakeup
set-NotWoken k k' f thread mask woken a h = elim (Bool-cases (thread == 0)) [
  | inl z ↦ absurd (ground (arith, wake-null k (with_flags thread mask f) thread z, h))
  | inr nn ↦ elim (Bool-cases (wakes k (with_flags thread mask f) thread)) [
    | inl e ↦
        subst (λ m. NotWoken m (with_flags thread mask f))
          (state_of (sym (wake-yes k (with_flags thread mask f) thread nn e) ∙ h))
          (one_changed k f a thread pending (with_flags thread mask f)
            (with_flags-others k f a thread mask) refl)
    | inr e ↦
        subst (λ m. NotWoken m (with_flags thread mask f))
          (state_of (sym (wake-no k (with_flags thread mask f) thread nn e) ∙ h))
          (flags_changed k f a thread (with_flags thread mask f)
            (with_flags-others k f a thread mask) e)
  ]
]
