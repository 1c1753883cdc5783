-- ===== src/Malloc/Reuse.antt =====
-- A size that is negative as an `int` moves the end of the blocks down.
use sancus_riot.Common.{
  ℕ, ◌+◌, ◌-◌, ◌^◌, ◌%◌, ◌≤◌, ◌<◌, ◌≡◌, refl, inl, inr, arith, ◌==◌, false, ap,
}
use sancus_riot.Malloc.{Heap, heap_top, sbrk, malloc, enomem, exceeds}
use sancus_riot.Malloc.Blocks.{IsHeap, malloc-Allocated}

sbrk-negative :
    (sp n : ℕ) (heap : Heap)
    → IsHeap sp heap
    → 0 < n
    → n < 2 ^ 15
    → heap.cur_break + n ≤ heap_top sp heap
    → sbrk sp (2 ^ 16 - n) (record heap { cur_break = heap.cur_break + n })
      ≡ (heap.cur_break + n, heap)
unfolding sbrk
sbrk-negative sp n heap v p s l =
    let top = heap_top sp heap in
    let break = heap.cur_break in
    let few : exceeds (2 ^ 16 - n) ((top + 2 ^ 16 - (break + n)) % 2 ^ 16) ≡ false =
      ground (arith, v.room, v.below, p, s, l) in
    let back : (break + n + (2 ^ 16 - n)) % 2 ^ 16 ≡ break = omega (arith, l, v.end, s) in
    rw (sbrk, few) (ap (λ b. (break + n, record heap { cur_break = b })) back)

malloc-negative :
    (sp n : ℕ) (heap : Heap)
    → IsHeap sp heap
    → 0 < n
    → n < 2 ^ 15
    → heap.cur_break + n ≤ heap_top sp heap
    → malloc sp (2 ^ 16 - n) (record heap { cur_break = heap.cur_break + n })
      ≡ (heap.cur_break + n, heap)
unfolding malloc
malloc-negative sp n heap v p s l =
    let some_bytes : (2 ^ 16 - n == 0) ≡ false = ground (arith, s) in
    let got : (heap.cur_break + n == enomem) ≡ false = ground (arith, l, v.end) in
    rw (malloc, sbrk-negative sp n heap v p s l, some_bytes, got) refl

-- In a heap of less than 2^15 bytes, whose addresses are neither 0 nor -1, with room for n bytes,
-- n from 1 to 2^15 - 1, `malloc(n)` returns a block, and `malloc(65536 - n)` after it is not
-- refused: it returns the address behind that block and leaves the heap as it was before the first
-- call, so that the next call returns the same block again.
pub malloc-reuse :
    (sp n : ℕ) (heap : Heap)
    → IsHeap sp heap
    → 0 < n
    → n < 2 ^ 15
    → heap.cur_break + n ≤ heap_top sp heap
    → (malloc sp n heap ≡ (heap.cur_break, record heap { cur_break = heap.cur_break + n }))
      × (malloc sp (2 ^ 16 - n) (malloc sp n heap).1 ≡ (heap.cur_break + n, heap))
malloc-reuse sp n heap v p s l = elim (malloc-Allocated sp n heap v p s) [
  | inl (few, _) ↦ absurd (omega (arith, few, l))
  | inr (_, e) ↦ (e, rw e (malloc-negative sp n heap v p s l))
]
