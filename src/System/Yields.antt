-- ===== src/System/Yields.antt =====
-- A yield puts a sound state in order, whatever timer interrupts come before it.
use sancus_riot.Common.{ℕ, ◌≡◌, Bool, true, false, some, if◌then◌else◌, List, [], ◌∷◌}
use mathlib.Core.Path.{subst}
use sancus_riot.Kernel.{Kernel}
use sancus_riot.Kernel.Monad.{M, pure, ◌>>=◌}
use sancus_riot.Kernel.Within.{state_of, bind-inv}
use sancus_riot.Entry.{
  yield_after, handle_timer, Caller, Interrupted, save_context, thread_yield_higher,
}
use sancus_riot.System.Sound.{IsSound, IsSettled}
use sancus_riot.System.Interrupts.{Chosen, handle_timer-Chosen, save_context-Sound}
use sancus_riot.System.Entries.{yield_entry-Settled}

-- What is left of a yield after an interrupt.
goes_on : ℕ → Caller → List (Interrupted × ℕ) → Bool → M (Unit {0})
goes_on fuel c rest chosen = if chosen then pure tt else yield_after fuel c rest

goes_on-Settled :
    (fuel : ℕ) (c : Caller) (rest : List (Interrupted × ℕ)) (b : Bool) (k k' : Kernel)
    (u : Unit {0})
    → Chosen b k
    → (IsSound k → yield_after fuel c rest k ≡ some (u, k') → IsSettled k')
    → goes_on fuel c rest b k ≡ some (u, k')
    → IsSettled k'
unfolding goes_on
goes_on-Settled fuel c rest true k k' u s on h = subst IsSettled (state_of h) s
goes_on-Settled fuel c rest false k k' u s on h = on s h

yield_after-Settled :
    (fuel : ℕ) (c : Caller) (is : List (Interrupted × ℕ)) (k k' : Kernel) (u : Unit {0})
    → IsSound k
    → yield_after fuel c is k ≡ some (u, k')
    → IsSettled k'
unfolding yield_after goes_on
yield_after-Settled fuel c [] k k' u s h = yield_entry-Settled fuel c k k' u s h
yield_after-Settled fuel c ((i, sp) ∷ rest) k k' u s h =
    let (u1, k1, e, e') =
      bind-inv (save_context i sp) (λ _. handle_timer fuel >>= goes_on fuel c rest) k k' u h in
    let (b, k2, f, f') = bind-inv (handle_timer fuel) (goes_on fuel c rest) k1 k' u e' in
    goes_on-Settled fuel c rest b k2 k' u
      (handle_timer-Chosen fuel k1 k2 b (save_context-Sound i sp k k1 u1 s e) f)
      (λ s. yield_after-Settled fuel c rest k2 k' u s) f'

pub thread_yield_higher-Settled :
    (fuel : ℕ) (c : Caller) (k k' : Kernel) (u : Unit {0})
    → IsSound k
    → thread_yield_higher fuel c k ≡ some (u, k')
    → IsSettled k'
unfolding thread_yield_higher
thread_yield_higher-Settled fuel c k k' u s h = yield_after-Settled fuel c c.interrupts k k' u s h
