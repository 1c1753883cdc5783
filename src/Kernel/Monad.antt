-- ===== src/Kernel/Monad.antt =====
-- Kernel code as functions from the kernel's variables to a result and new variables. `none` is a
-- fault: a read through NULL, or a loop that has not ended when its fuel is used up.
use sancus_riot.Common.{ℕ, Option, none, some, ◌==◌, if◌then◌else◌}
use sancus_riot.Kernel.{Kernel}

abbrev pub M : Type 0 → Type 0
M A = Kernel → Option (A × Kernel)

abbrev pub pure : {A : Type 0} → A → M A
pure a k = some (a, k)

infixl 5 ◌>>=◌ ◌>>◌
abbrev pub ◌>>=◌ : {A B : Type 0} → M A → (A → M B) → M B
◌>>=◌ m f k = elim (m k) [ none ↦ none | some (a, k') ↦ f a k' ]

abbrev pub ◌>>◌ : {B : Type 0} → M (Unit {0}) → M B → M B
◌>>◌ m n k = elim (m k) [ none ↦ none | some (_, k') ↦ n k' ]

abbrev pub fault : {A : Type 0} → M A
fault k = none

abbrev pub get : M Kernel
get k = some (k, k)

abbrev pub modify : (Kernel → Kernel) → M (Unit {0})
modify f k = some (tt, f k)

-- A read through the pointer `p` comes first.
abbrev pub check : ℕ → M (Unit {0})
check p = if p == 0 then fault else pure tt
