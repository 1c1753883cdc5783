-- ===== src/Byteorder/Swap.antt =====
-- Conversions there and back, and the order that they give the bytes.
use sancus_riot.Common.{ℕ, ◌*◌, ◌/◌, ◌%◌, ◌^◌, ◌<◌, ◌≡◌, refl, sym, ap, ◌∙◌, [], ◌∷◌, arith}
use sancus_riot.Byteorder.{
  bytes, value, reverse, byteorder_swaps, byteorder_swapl, byteorder_swapll, byteorder_htons,
  byteorder_ntohs, byteorder_htonl, byteorder_ntohl, byteorder_htonll, byteorder_ntohll, htons,
  ntohs, htonl, ntohl, htonll, ntohll, byteorder_bebuftohs, byteorder_htobebufs,
}
use sancus_riot.Common.Masks.{bit_or-byte}
use sancus_riot.Byteorder.Bytes.{
  limit, value-bytes, bytes-value, bytes-IsBytes, reverse-IsBytes, reverse-reverse,
}

-- The bytes reversed.
pub swapped : ℕ → ℕ → ℕ
swapped n v = value (reverse (bytes n v))

pub bytes-swapped : (n v : ℕ) → bytes n (swapped n v) ≡ reverse (bytes n v)
unfolding swapped
bytes-swapped n v =
    bytes-value n (reverse (bytes n v)) (reverse-IsBytes n (bytes n v) (bytes-IsBytes n v))

pub swapped-swapped : (n v : ℕ) → v < limit n → swapped n (swapped n v) ≡ v
unfolding swapped
swapped-swapped n v h =
    ap (λ bs. value (reverse bs)) (bytes-swapped n v)
    ∙ ap value (reverse-reverse (bytes n v))
    ∙ value-bytes n v h

swaps-eq : (v : ℕ) → byteorder_swaps v ≡ swapped 2 v
unfolding byteorder_swaps swapped value reverse bytes
swaps-eq v = refl

-- `ntohs`, `ntohl` and `ntohll` undo `htons`, `htonl` and `htonll` on numbers of 16, 32 and 64
-- bits.
pub ntoh-hton :
    (a b c : ℕ)
    → a < 2 ^ 16
    → b < 2 ^ 32
    → c < 2 ^ 64
    → (ntohs (htons a) ≡ a) × (ntohl (htonl b) ≡ b) × (ntohll (htonll c) ≡ c)
unfolding ntohs htons ntohl htonl ntohll htonll byteorder_ntohs byteorder_htons byteorder_ntohl
    byteorder_htonl byteorder_ntohll byteorder_htonll byteorder_swapl byteorder_swapll swapped limit
ntoh-hton a b c ha hb hc = (
  rw (swaps-eq a, swaps-eq (swapped 2 a)) (swapped-swapped 2 a ha),
  swapped-swapped 4 b hb,
  swapped-swapped 8 c hc,
)

-- The bytes of `htons`, `htonl` and `htonll` of a number are those of the number in the opposite
-- order: the most significant one is first.
pub bytes-hton :
    (a b c : ℕ)
    → (bytes 2 (htons a) ≡ reverse (bytes 2 a))
      × (bytes 4 (htonl b) ≡ reverse (bytes 4 b))
      × (bytes 8 (htonll c) ≡ reverse (bytes 8 c))
unfolding htons htonl htonll byteorder_htons byteorder_htonl byteorder_htonll byteorder_swapl
    byteorder_swapll swapped
bytes-hton a b c =
    (ap (bytes 2) (swaps-eq a) ∙ bytes-swapped 2 a, bytes-swapped 4 b, bytes-swapped 8 c)

two_reversed : (val : ℕ) → reverse (bytes 2 val) ≡ (val / 2 ^ 8 % 256) ∷ (val % 256) ∷ []
unfolding reverse bytes
two_reversed val = refl

-- `byteorder_htobebufs` writes the bytes that `htons` gives a number of 16 bits, and
-- `byteorder_bebuftohs` reads the number back from them.
pub htobebufs-hton :
    (val : ℕ)
    → val < 2 ^ 16
    → (byteorder_htobebufs val ≡ bytes 2 (htons val))
      × (byteorder_bebuftohs (val / 2 ^ 8 % 256) (val % 256) ≡ val)
unfolding byteorder_htobebufs byteorder_bebuftohs
htobebufs-hton val h = (
  sym ((bytes-hton val 0 0).0 ∙ two_reversed val),
  rw (small, bit_or-byte (val / 2 ^ 8 % 256) (val % 256) (omega arith)) (omega (arith, h)),
)
  where
    small : val / 2 ^ 8 % 256 * 2 ^ 8 % 2 ^ 16 ≡ val / 2 ^ 8 % 256 * 2 ^ 8
    small = omega arith
