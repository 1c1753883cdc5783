-- ===== src/PriorityQueue/Tests.antt =====
-- Examples for the priority queue: the root 9 with the nodes 1, 2 and 3, of priorities 10, 20 and 30;
-- node 4 has priority 20.
use sancus_riot.Common.{ℕ, refl, [], ◌∷◌, arith, ◌*◌, ◌==◌, if◌then◌else◌}
use sancus_riot.Clist.Chain.{Links}
use sancus_riot.PriorityQueue.Add.{Nodes, Added, IsSorted, insert, priority_queue_add-Added}

abbrev nodes : Links
nodes m = if m == 9 then 1 else if m == 1 then 2 else if m == 2 then 3 else 0

abbrev priorities : ℕ → ℕ
priorities m = if m == 4 then 20 else m * 10

nodes-Nodes : Nodes nodes 9 (1 ∷ 2 ∷ 3 ∷ [])
nodes-Nodes = (
  refl,
  (λ e. ground (arith, e)),
  (refl, (λ e. ground (arith, e)), (refl, (λ e. ground (arith, e)), refl)),
)

priority_queue_add-Added_example :
    Added priorities nodes 9 4 (1 ∷ 2 ∷ 3 ∷ []) 4
    × IsSorted priorities (insert priorities 4 (1 ∷ 2 ∷ 3 ∷ []))
priority_queue_add-Added_example =
    priority_queue_add-Added priorities 4 nodes 9 (1 ∷ 2 ∷ 3 ∷ []) 4 (λ e. ground (arith, e))
      nodes-Nodes (refl, (refl, (refl, (refl, tt)))) refl (omega arith, (omega arith, tt))
      (omega arith)
