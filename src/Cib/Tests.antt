-- ===== src/Cib/Tests.antt =====
-- Examples for the indices of a circular buffer: four cells, counts that are about to wrap around.
use sancus_riot.Common.{◌^◌, refl, arith}
use sancus_riot.Cib.{Cib}
use sancus_riot.Cib.Queue.{IsCib, Queued, cib_put-Queued}
use sancus_riot.Cib.Take.{Got, cib_get-Got}

abbrev wrapping : Cib
wrapping = record { read_count = 0xfffe; write_count = 1; mask = 3 }

wrapping-IsCib : IsCib wrapping 2 3
wrapping-IsCib = record {
  small = omega arith;
  mask = refl;
  read = omega arith;
  filled = refl;
  room = omega arith;
}

abbrev whole : Cib
whole = record { read_count = 0xfffe; write_count = 2; mask = 3 }

whole-IsCib : IsCib whole 2 (2 ^ 2)
whole-IsCib = record {
  small = omega arith;
  mask = refl;
  read = omega arith;
  filled = refl;
  room = omega arith;
}

cib_put-Queued_example : Queued wrapping 2 3 (λ i. i) 7
cib_put-Queued_example = cib_put-Queued wrapping 2 3 wrapping-IsCib (omega arith) (λ i. i) 7

cib_get-Got_example : Got wrapping 2 2 (λ i. i)
cib_get-Got_example = cib_get-Got wrapping 2 2 wrapping-IsCib (λ i. i)
