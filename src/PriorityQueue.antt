-- ===== src/PriorityQueue.antt =====
-- core/priority_queue.c: a list of nodes by priority. The root is a node as well, whose `next` is the
-- pointer `first`; NULL is 0. `none` is a loop that has not ended. The assertion of
-- priority_queue_add is left out.
pub mod Add
pub mod Remove
mod Tests
use sancus_riot.Common.{ℕ, zero, suc, Option, none, some, ◌==◌, ltb, if◌then◌else◌}
use sancus_riot.Clist.Chain.{Links, null, set_next}

-- The loop of `priority_queue_remove`, at the node `root`.
unfoldable pub priority_queue_remove : ℕ → Links → ℕ → ℕ → Option Links
priority_queue_remove zero next root node = none
priority_queue_remove (suc fuel) next root node =
    let rest = priority_queue_remove fuel next (next root) node in
    if next root == null
    then some next
    else if next root == node
    then some (set_next (set_next next root (next node)) node null)
    else rest

unfoldable pub priority_queue_remove_head : Links → ℕ → ℕ × Links
priority_queue_remove_head next root =
    let head = next root in (head, if head == null then next else set_next next root (next head))

-- The loop of `priority_queue_add`, at `node`.
unfoldable pub priority_queue_add : ℕ → (ℕ → ℕ) → Links → ℕ → ℕ → Option Links
priority_queue_add zero priority next node new_obj = none
priority_queue_add (suc fuel) priority next node new_obj =
    let rest = priority_queue_add fuel priority next (next node) new_obj in
    if next node == null
    then some (set_next (set_next next node new_obj) new_obj null)
    else if ltb (priority new_obj) (priority (next node))
    then some (set_next (set_next next new_obj (next node)) node new_obj)
    else rest
