-- ===== src/Cib.antt =====
-- core/include/cib.h: the indices of a circular buffer. An `unsigned` and an `int` are 16 bits wide;
-- an index that is -1 is `none`.
pub mod Queue
pub mod Take
mod Tests
use sancus_riot.Common.{
  ℕ, ◌+◌, ◌-◌, ◌%◌, ◌^◌, bit_and, Bool, not, Option, none, some, ◌==◌, leb, if◌then◌else◌,
}

-- `cib_t`
pub record Cib : Type 0 where
  pub read_count : ℕ
  pub write_count : ℕ
  pub mask : ℕ

-- `(int) a <= (int) b`
abbrev pub signed_le : ℕ → ℕ → Bool
signed_le a b = leb ((a + 2 ^ 15) % 2 ^ 16) ((b + 2 ^ 15) % 2 ^ 16)

-- `cib_init`, less its assertion that the size is a power of two.
abbrev pub cib_init : ℕ → Cib
cib_init size = record { read_count = 0; write_count = 0; mask = (size + 2 ^ 16 - 1) % 2 ^ 16 }

unfoldable pub cib_avail : Cib → ℕ
cib_avail cib = (cib.write_count + 2 ^ 16 - cib.read_count) % 2 ^ 16

unfoldable pub cib_full : Cib → Bool
unfolding cib_avail
cib_full cib = not (signed_le (cib_avail cib) cib.mask)

unfoldable pub cib_get_unsafe : Cib → ℕ × Cib
cib_get_unsafe cib =
    (bit_and cib.read_count cib.mask, record cib { read_count = (cib.read_count + 1) % 2 ^ 16 })

unfoldable pub cib_put_unsafe : Cib → ℕ × Cib
cib_put_unsafe cib =
    (bit_and cib.write_count cib.mask, record cib { write_count = (cib.write_count + 1) % 2 ^ 16 })

unfoldable pub cib_get : Cib → Option ℕ × Cib
unfolding cib_avail
cib_get cib = if cib_avail cib == 0 then (none, cib) else (
  some (bit_and cib.read_count cib.mask),
  record cib { read_count = (cib.read_count + 1) % 2 ^ 16 },
)

unfoldable pub cib_peek : Cib → Option ℕ
unfolding cib_avail
cib_peek cib = if cib_avail cib == 0 then none else some (bit_and cib.read_count cib.mask)

unfoldable pub cib_put : Cib → Option ℕ × Cib
unfolding cib_avail
cib_put cib =
    if signed_le (cib_avail cib) cib.mask
    then (
      some (bit_and cib.write_count cib.mask),
      record cib { write_count = (cib.write_count + 1) % 2 ^ 16 },
    )
    else (none, cib)
