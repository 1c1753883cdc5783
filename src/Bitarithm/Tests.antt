-- ===== src/Bitarithm/Tests.antt =====
-- Examples for the bit arithmetic.
use sancus_riot.Common.{◌≡◌, some, arith}
use sancus_riot.Bitarithm.{bitarithm_lsb, lsb_lookup}
use sancus_riot.Bitarithm.Lookup.{lsb_lookup-lsb}

lsb_lookup-lsb_example : bitarithm_lsb 0x1240 ≡ some (lsb_lookup 0x1240)
lsb_lookup-lsb_example = lsb_lookup-lsb 0x1240 (omega arith) (omega arith)
