-- ===== src/Malloc/Blocks.antt =====
-- The blocks that one call after another returns.
use sancus_riot.Common.{
  ℕ, ◌+◌, ◌-◌, ◌^◌, ◌%◌, ap, ◌≤◌, ◌<◌, ◌≡◌, refl, ◌⊎◌, inl, inr, List, [], ◌∷◌, arith,
  if◌then◌else◌, ◌==◌, Bool-cases, true, false,
}
use sancus_riot.Malloc.{Heap, heap_top, sbrk, malloc, enomem, exceeds}

-- Less than 2 ^ 15 bytes are left, and none of them is at the address 0 or -1.
pub record IsHeap (sp : ℕ) (heap : Heap) : Type 0 where
  pub positive : 0 < heap.cur_break
  pub below : heap.cur_break ≤ heap_top sp heap
  pub end : heap_top sp heap < enomem
  pub room : heap_top sp heap - heap.cur_break < 2 ^ 15

-- What a call for `size` bytes does.
abbrev pub Allocated : ℕ → ℕ → Heap → Type 0
Allocated sp size heap =
    ((heap_top sp heap - heap.cur_break < size) × (malloc sp size heap ≡ (0, heap)))
    ⊎ ((heap.cur_break + size ≤ heap_top sp heap)
        × (malloc sp size heap
            ≡ (heap.cur_break, record heap { cur_break = heap.cur_break + size })))

module _ (size top break : ℕ) (below : break ≤ top) (room : top - break < 2 ^ 15)
    (s : size < 2 ^ 15) where
  refusal : exceeds size ((top + 2 ^ 16 - break) % 2 ^ 16) ≡ true → top - break < size
  refusal e = ground (arith, below, room, s, e)

  acceptance : exceeds size ((top + 2 ^ 16 - break) % 2 ^ 16) ≡ false → break + size ≤ top
  acceptance e = ground (arith, below, room, s, e)

sbrk-room :
    (sp size : ℕ) (heap : Heap)
    → IsHeap sp heap
    → size < 2 ^ 15
    → (((heap_top sp heap - heap.cur_break < size) × (sbrk sp size heap ≡ (enomem, heap)))
        ⊎ ((heap.cur_break + size ≤ heap_top sp heap)
            × (sbrk sp size heap
                ≡ (heap.cur_break, record heap { cur_break = heap.cur_break + size }))))
unfolding sbrk
sbrk-room sp size heap v s =
    let top = heap_top sp heap in
    let refused = exceeds size ((top + 2 ^ 16 - heap.cur_break) % 2 ^ 16) in
    elim (Bool-cases refused) [
      | inl e ↦ inl (refusal size top heap.cur_break v.below v.room s e, rw (sbrk, e) refl)
      | inr e ↦ inr (
        acceptance size top heap.cur_break v.below v.room s e,
        rw (sbrk, e)
            (ap (λ b. (heap.cur_break, record heap { cur_break = b }))
              (omega (arith, acceptance size top heap.cur_break v.below v.room s e, v.end))),
      )
    ]

pub malloc-Allocated :
    (sp size : ℕ) (heap : Heap) → IsHeap sp heap → 0 < size → size < 2 ^ 15 → Allocated sp size heap
unfolding malloc
malloc-Allocated sp size heap v p s =
    let some_bytes : (size == 0) ≡ false = ground (arith, p) in
    let got : (heap.cur_break == enomem) ≡ false = ground (arith, v.below, v.end) in
    elim (sbrk-room sp size heap v s) [
      | inl (few, e) ↦ inl (few, rw (malloc, e, some_bytes) refl)
      | inr (fits, e) ↦ inr (fits, rw (malloc, e, some_bytes, got) refl)
    ]

-- The blocks that calls for these sizes return, with their sizes.
abbrev pub blocks : ℕ → List ℕ → Heap → List (ℕ × ℕ)
blocks sp [] heap = []
blocks sp (size ∷ sizes) heap =
    let (ptr, heap) = malloc sp size heap in
    let rest = blocks sp sizes heap in if ptr == 0 then rest else (ptr, size) ∷ rest

-- The blocks stand one behind another from `from` up to `to`.
abbrev pub InOrder : ℕ → List (ℕ × ℕ) → ℕ → Type 0
InOrder from [] to = from ≤ to
InOrder from ((ptr, size) ∷ rest) to = (from ≤ ptr) × InOrder (ptr + size) rest to

abbrev pub AllSmall : List ℕ → Type 0
AllSmall [] = Unit
AllSmall (size ∷ sizes) = (0 < size) × (size < 2 ^ 15) × AllSmall sizes

-- From a heap of less than 2^15 bytes, whose end is fixed and whose addresses are neither 0 nor
-- -1, any sequence of calls of `malloc` for at least 1 and less than 2^15 bytes returns blocks
-- that stand one behind another inside the heap, or NULL: no two of them overlap.
pub blocks-InOrder :
    (sp : ℕ) (sizes : List ℕ) (heap : Heap)
    → IsHeap sp heap
    → AllSmall sizes
    → InOrder heap.cur_break (blocks sp sizes heap) (heap_top sp heap)
blocks-InOrder sp [] heap v s = v.below
blocks-InOrder sp (size ∷ sizes) heap v s = elim (malloc-Allocated sp size heap v s.0 s.1) [
  | inl (_, e) ↦ rw e (blocks-InOrder sp sizes heap v s.2)
  | inr (fits, e) ↦
      let taken : (heap.cur_break == 0) ≡ false = ground (arith, v.positive) in
      let heap' = record heap { cur_break = heap.cur_break + size } in
      let v' : IsHeap sp heap' = record {
        positive = omega (arith, v.positive);
        below = fits;
        end = v.end;
        room = omega (arith, v.room);
      } in
      rw (e, taken) (omega arith, blocks-InOrder sp sizes heap' v' s.2)
]
