-- ===== src/Lifo.antt =====
-- core/lifo.c, as built without DEVELHELP: a stack of indices in an array of `int`, where -1 is `none`.
-- Cell 0 holds the top, and cell i + 1 what lies below index i.
pub mod Stack
mod Tests
use sancus_riot.Common.{ℕ, zero, suc, ◌+◌, Bool, true, false, Option, none, some}
use sancus_riot.Kernel.{update}

abbrev pub Cells : Type 0
Cells = ℕ → Option ℕ

unfoldable pub lifo_empty : Cells → Bool
lifo_empty array = elim (array 0) [ none ↦ true | some i ↦ false ]

-- The loop of `lifo_init`, with so many cells left from `i` on.
unfoldable pub init_loop : ℕ → ℕ → Cells → Cells
init_loop zero i array = array
init_loop (suc left) i array = init_loop left (i + 1) (update array i none)

unfoldable pub lifo_init : Cells → ℕ → Cells
unfolding init_loop
lifo_init array n = init_loop (n + 1) 0 array

unfoldable pub lifo_insert : Cells → ℕ → Cells
lifo_insert array i = update (update array (i + 1) (array 0)) 0 (some i)

unfoldable pub lifo_get : Cells → Option ℕ × Cells
lifo_get array = elim (array 0) [
  | none ↦ (none, array)
  | some head ↦ (some head, update array 0 (array (head + 1)))
]
