-- ===== src/Malloc/Tests.antt =====
-- Examples: a heap of 1000 bytes.
use sancus_riot.Common.{◌+◌, ◌-◌, ◌^◌, ◌≡◌, refl, arith, [], ◌∷◌}
use sancus_riot.Malloc.{Heap, malloc, calloc, sbrk}
use sancus_riot.Malloc.Blocks.{IsHeap, blocks, InOrder, blocks-InOrder}
use sancus_riot.Malloc.Reuse.{malloc-reuse}

abbrev small : Heap
small = record { cur_break = 512; heap_end = 1512; memory = λ _. 0 }

small-IsHeap : IsHeap 0 small
small-IsHeap = record {
  positive = omega arith;
  below = omega arith;
  end = omega arith;
  room = omega arith;
}

blocks-InOrder_example : InOrder 512 (blocks 0 (600 ∷ 500 ∷ 400 ∷ []) small) 1512
blocks-InOrder_example =
    blocks-InOrder 0 (600 ∷ 500 ∷ 400 ∷ []) small small-IsHeap
      ((omega arith), (omega arith), (omega arith, omega arith, (omega arith, omega arith, tt)))

malloc-reuse_example :
    (malloc 0 100 small ≡ (512, record small { cur_break = 612 }))
    × (malloc 0 (2 ^ 16 - 100) (malloc 0 100 small).1 ≡ (612, small))
malloc-reuse_example =
    malloc-reuse 0 100 small small-IsHeap (omega arith) (omega arith) (omega arith)

-- The second block does not fit, the third does.
three-blocks : blocks 0 (600 ∷ 500 ∷ 400 ∷ []) small ≡ (512, 600) ∷ (1112, 400) ∷ []
unfolding malloc sbrk
three-blocks = refl

-- A product of more than 16 bits leads to a block that is too small.
short-calloc : (calloc 0 257 256 small).1.cur_break ≡ 512 + 256
unfolding calloc malloc sbrk
short-calloc = refl
