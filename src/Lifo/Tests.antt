-- ===== src/Lifo/Tests.antt =====
-- Examples for the stack of indices.
use sancus_riot.Common.{◌≡◌, refl, some, [], ◌∷◌}
use sancus_riot.Lifo.{Cells, lifo_init, lifo_insert, lifo_get}
use sancus_riot.Lifo.Stack.{IsLifo, lifo_get-lifo_insert, lifo_init-IsLifo}

abbrev fresh : Cells
fresh = lifo_init (λ i. some 7) 4

lifo_get-lifo_insert_example :
    let (r, rest) = lifo_get (lifo_insert fresh 2) in
    IsLifo (lifo_insert fresh 2) (2 ∷ []) × (r ≡ some 2) × IsLifo rest []
lifo_get-lifo_insert_example =
    lifo_get-lifo_insert fresh [] 2 (lifo_init-IsLifo (λ i. some 7) 4) refl
