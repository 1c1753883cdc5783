-- ===== src/Ethos/Write.antt =====
-- `checked_write` with a `write` that takes a part of the bytes only.
use sancus_riot.Common.{
  ℕ, ◌-◌, ◌<◌, ◌≡◌, false, arith, ◌==◌, List, [], ◌∷◌, ◌++◌, take, append-nil, ap,
}
use sancus_riot.Ethos.Sender.{checked_write}

-- One call that takes everything is enough.
pub checked_write-whole :
    (buffer : List ℕ) (n : ℕ) → 0 < n → checked_write (n ∷ []) buffer n ≡ take n buffer
unfolding checked_write
checked_write-whole buffer n h =
    let some_bytes : (n == 0) ≡ false = ground (arith, h) in
    rw (checked_write, some_bytes) (append-nil (take n buffer))

-- If the first call takes `k` bytes of `n`, and the second the others, the second starts at the
-- front of the buffer again: the last bytes are never written.
pub checked_write-again :
    (buffer : List ℕ) (k n : ℕ)
    → 0 < k
    → k < n
    → checked_write (k ∷ (n - k) ∷ []) buffer n ≡ take k buffer ++ take (n - k) buffer
unfolding checked_write
checked_write-again buffer k n h l =
    let taken : (k == 0) ≡ false = ground (arith, h) in
    let some_bytes : (n == 0) ≡ false = ground (arith, l) in
    rw (checked_write, taken, some_bytes)
      (ap (λ xs. take k buffer ++ xs) (checked_write-whole buffer (n - k) (omega (arith, l))))
