-- ===== src/Clist.antt =====
-- core/include/clist.h: circular lists through the `next` pointers of their nodes. A list head is
-- a node whose `next` points to the last entry; the functions take that pointer, `last`, beside
-- the pointers of the other nodes, and return both. A loop that follows pointers runs on fuel.
pub mod Chain
pub mod Queue
pub mod Search
pub mod Erase
pub mod Remove
pub mod Frame
pub mod Rpop
mod Tests
use sancus_riot.Common.{
  ℕ, zero, suc, ◌+◌, Bool, true, false, Option, none, some, ◌==◌, if◌then◌else◌,
}
use Chain.{Links, null, set_next}

-- What a function leaves behind: the pointers, and `list->next`.
pub record Clist : Type 0 where
  pub links : Links
  pub next : ℕ

abbrev pub clist : Links → ℕ → Clist
clist l t = record { links = l; next = t }

-- Puts `new_node` behind the node `list->next`, in the circle of the other nodes.
link_in : Clist → ℕ → Links
link_in c new_node = set_next (set_next c.links new_node (c.links c.next)) c.next new_node

pub rpush : Clist → ℕ → Clist
unfolding link_in
rpush c new_node =
    if c.next == null
    then clist (set_next c.links new_node new_node) new_node
    else clist (link_in c new_node) new_node

pub lpush : Clist → ℕ → Clist
unfolding link_in
lpush c new_node =
    if c.next == null
    then clist (set_next c.links new_node new_node) new_node
    else clist (link_in c new_node) c.next

-- The popped node, or NULL.
pub lpop : Clist → ℕ × Clist
lpop c =
    if c.next == null
    then (null, c)
    else (let first = c.links c.next in
        if c.next == first
        then (first, clist c.links null)
        else (first, clist (set_next c.links c.next (c.links first)) c.next))

pub lpoprpush : Clist → Clist
lpoprpush c = if c.next == null then c else clist c.links (c.links c.next)

pub lpeek : Clist → ℕ
lpeek c = if c.next == null then null else c.links c.next

pub rpeek : Clist → ℕ
rpeek c = c.next

-- The loop of `clist_rpop`: rotate until `target` comes after `list->next`.
rotate_until : ℕ → ℕ → Clist → Option Clist
rotate_until zero target c = none
rotate_until (suc fuel) target c =
    let rest = rotate_until fuel target (lpoprpush c) in
    if c.links c.next == target then some c else rest

pub rpop : ℕ → Clist → Option (ℕ × Clist)
unfolding rotate_until
rpop fuel c =
    if c.next == null
    then some (null, c)
    else elim (rotate_until fuel c.next c) [ none ↦ none | some d ↦ some (lpop d) ]

-- The loop of `clist_find_before`: `pos` is the node before the one that is looked at.
find_loop : ℕ → Clist → ℕ → ℕ → Option ℕ
find_loop zero c node pos = none
find_loop (suc fuel) c node pos =
    let pos' = c.links pos in
    let rest = find_loop fuel c node pos' in
    if c.links pos' == node then some pos' else if pos' == c.next then some null else rest

pub find_before : ℕ → Clist → ℕ → Option ℕ
unfolding find_loop
find_before fuel c node = if c.next == null then some null else find_loop fuel c node c.next

pub find : ℕ → Clist → ℕ → Option ℕ
unfolding find_before
find fuel c node = elim (find_before fuel c node) [
  | none ↦ none
  | some tmp ↦ some (if tmp == null then null else c.links tmp)
]

-- What `clist_remove` does at the node `tmp` before the one that goes.
unlink_after : Clist → ℕ → ℕ → ℕ × Clist
unlink_after c node tmp =
    if tmp == null
    then (null, c)
    else (let links = set_next c.links tmp (c.links (c.links tmp)) in
        (node, clist links (if node == c.next then tmp else c.next)))

pub remove : ℕ → Clist → ℕ → Option (ℕ × Clist)
unfolding unlink_after find_before lpop
remove fuel c node =
    if c.next == null
    then some (null, c)
    else if c.links c.next == node
    then some (lpop c)
    else elim (find_before fuel c node) [ none ↦ none | some tmp ↦ some (unlink_after c node tmp) ]

-- The loop of `clist_foreach`; `func` answers whether the walk stops.
foreach_loop : ℕ → Clist → (ℕ → Bool) → ℕ → Option ℕ
foreach_loop zero c func node = none
foreach_loop (suc fuel) c func node =
    let node' = c.links node in
    let rest = foreach_loop fuel c func node' in
    if func node' then some node' else if node' == c.next then some null else rest

pub foreach : ℕ → Clist → (ℕ → Bool) → Option ℕ
unfolding foreach_loop
foreach fuel c func = if c.next == null then some null else foreach_loop fuel c func c.next

-- The loop of `clist_count`.
count_loop : ℕ → Clist → ℕ → ℕ → Option ℕ
count_loop zero c node cnt = none
count_loop (suc fuel) c node cnt =
    let node' = c.links node in
    let rest = count_loop fuel c node' (cnt + 1) in if node' == c.next then some (cnt + 1) else rest

pub count : ℕ → Clist → Option ℕ
unfolding count_loop
count fuel c = if c.next == null then some 0 else count_loop fuel c c.next 0
