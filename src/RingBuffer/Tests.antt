-- ===== src/RingBuffer/Tests.antt =====
-- Examples for the ring buffer: four bytes, of which the two last and the first are in use.
use sancus_riot.Common.{[], ◌∷◌, ◌+◌, ◌≡◌, refl, none, arith}
use sancus_riot.RingBuffer.{RingBuffer, ringbuffer_get_one, ringbuffer_remove}
use sancus_riot.RingBuffer.Queue.{IsValid}
use sancus_riot.RingBuffer.Add.{Added, ringbuffer_add-Added}
use sancus_riot.RingBuffer.Get.{Copied, ringbuffer_get-Copied}
use sancus_riot.RingBuffer.Remove.{ringbuffer_remove-fault}

abbrev four : RingBuffer
four = record { buf = λ i. i + 10; size = 4; start = 2; avail = 3 }

four-IsValid : IsValid four
four-IsValid = record { inside = omega arith; fits = omega arith; addressable = omega arith }

ringbuffer_get-Copied_example : Copied four 3
ringbuffer_get-Copied_example = ringbuffer_get-Copied four 3 four-IsValid

ringbuffer_add-Added_example : Added four (7 ∷ 8 ∷ 9 ∷ [])
ringbuffer_add-Added_example = ringbuffer_add-Added four (7 ∷ 8 ∷ 9 ∷ []) four-IsValid

abbrev full : RingBuffer
full = record { buf = λ i. i + 10; size = 4; start = 2; avail = 4 }

full-IsValid : IsValid full
full-IsValid = record { inside = omega arith; fits = omega arith; addressable = omega arith }

ringbuffer_remove-fault_example : ringbuffer_get_one (ringbuffer_remove four 2).1 ≡ none
ringbuffer_remove-fault_example = ringbuffer_remove-fault four 2 four-IsValid refl (omega arith)
