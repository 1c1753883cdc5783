-- ===== src/Malloc.antt =====
-- sys/oneway-malloc/oneway-malloc.c over the sbrk of cpu/msp430_common/msp430-main.c. Addresses,
-- sizes and `int`s are 16 bits wide; an `int` from 2 ^ 15 on stands for a negative one.
pub mod Blocks
pub mod Reuse
mod Tests
use sancus_riot.Common.{ℕ, ◌+◌, ◌-◌, ◌*◌, ◌%◌, ◌^◌, Bool, ◌&&◌, ◌==◌, ltb, leb, if◌then◌else◌, not}

-- `cur_break`, `__heap_end` and the memory.
pub record Heap : Type 0 where
  pub cur_break : ℕ
  pub heap_end : ℕ
  pub memory : ℕ → ℕ

abbrev pub stack_extra : ℕ
stack_extra = 32

-- The pointer -1.
abbrev pub enomem : ℕ
enomem = 2 ^ 16 - 1

-- `a > b` for `int`s.
abbrev pub exceeds : ℕ → ℕ → Bool
exceeds a b = ltb ((b + 2 ^ 15) % 2 ^ 16) ((a + 2 ^ 15) % 2 ^ 16)

-- The end of the heap, or below the stack pointer `sp` if there is none.
abbrev pub heap_top : ℕ → Heap → ℕ
heap_top sp heap =
    if heap.heap_end == 0 then (sp + 2 ^ 16 - stack_extra) % 2 ^ 16 else heap.heap_end

unfoldable pub sbrk : ℕ → ℕ → Heap → ℕ × Heap
sbrk sp incr heap =
    if exceeds incr ((heap_top sp heap + 2 ^ 16 - heap.cur_break) % 2 ^ 16)
    then (enomem, heap)
    else (heap.cur_break, record heap { cur_break = (heap.cur_break + incr) % 2 ^ 16 })

unfoldable pub malloc : ℕ → ℕ → Heap → ℕ × Heap
malloc sp size heap =
    let (ptr, heap') = sbrk sp size heap in
    if not (size == 0)
    then (if not (ptr == enomem) then (ptr, heap') else (0, heap'))
    else (0, heap)

-- The address `a` is one of `n` from `from` on.
abbrev pub inside : ℕ → ℕ → ℕ → Bool
inside a from n = leb from a && ltb a (from + n)

abbrev pub memcpy : ℕ → ℕ → ℕ → Heap → Heap
memcpy to from n heap = record heap {
  memory = λ a. if inside a to n then heap.memory (from + (a - to)) else heap.memory a;
}

abbrev pub memset : ℕ → ℕ → ℕ → Heap → Heap
memset to value n heap = record heap {
  memory = λ a. if inside a to n then value else heap.memory a;
}

-- Nothing is freed.
abbrev pub free : ℕ → Heap → Heap
free ptr heap = heap

unfoldable pub realloc : ℕ → ℕ → ℕ → Heap → ℕ × Heap
realloc sp ptr size heap =
    let (newptr, heap') = malloc sp size heap in
    if ptr == 0
    then (newptr, heap')
    else if size == 0
    then (0, free ptr heap)
    else (newptr, if newptr == 0 then heap' else memcpy newptr ptr size heap')

unfoldable pub calloc : ℕ → ℕ → ℕ → Heap → ℕ × Heap
calloc sp size cnt heap =
    let n = (size * cnt) % 2 ^ 16 in
    let (mem, heap') = malloc sp n heap in (mem, if mem == 0 then heap' else memset mem 0 n heap')
