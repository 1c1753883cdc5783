-- ===== src/Byteorder.antt =====
-- core/include/byteorder.h: conversion between byte orders. The processor is a little endian one: the
-- bytes of a number, the member `u8` of the unions, are the least significant one first. The
-- unions of the other byte order are the numbers with the same bytes.
pub mod Bytes
pub mod Swap
mod Tests
use sancus_riot.Common.{ℕ, zero, suc, ◌+◌, ◌*◌, ◌/◌, ◌%◌, ◌^◌, bit_or, List, [], ◌∷◌, ◌++◌}

-- The `n` bytes of a number.
unfoldable pub bytes : ℕ → ℕ → List ℕ
bytes zero v = []
bytes (suc n) v = (v % 256) ∷ bytes n (v / 256)

-- The number with these bytes.
unfoldable pub value : List ℕ → ℕ
value [] = 0
value (b ∷ bs) = b + 256 * value bs

unfoldable pub reverse : List ℕ → List ℕ
reverse [] = []
reverse (b ∷ bs) = reverse bs ++ (b ∷ [])

-- `byteorder_swaps`: the two bytes of the union are exchanged.
unfoldable pub byteorder_swaps : ℕ → ℕ
unfolding value
byteorder_swaps v = let tmp = v % 256 in value (v / 256 % 256 ∷ tmp ∷ [])

-- `byteorder_swapl` and `byteorder_swapll`: `__builtin_bswap32` and `__builtin_bswap64` reverse the
-- bytes.
unfoldable pub byteorder_swapl : ℕ → ℕ
unfolding value bytes reverse
byteorder_swapl v = value (reverse (bytes 4 v))

unfoldable pub byteorder_swapll : ℕ → ℕ
unfolding value bytes reverse
byteorder_swapll v = value (reverse (bytes 8 v))

unfoldable pub byteorder_ltobs : ℕ → ℕ
unfolding byteorder_swaps
byteorder_ltobs v = byteorder_swaps v

unfoldable pub byteorder_ltobl : ℕ → ℕ
unfolding byteorder_swapl
byteorder_ltobl v = byteorder_swapl v

unfoldable pub byteorder_ltobll : ℕ → ℕ
unfolding byteorder_swapll
byteorder_ltobll v = byteorder_swapll v

unfoldable pub byteorder_btols : ℕ → ℕ
unfolding byteorder_swaps
byteorder_btols v = byteorder_swaps v

unfoldable pub byteorder_btoll : ℕ → ℕ
unfolding byteorder_swapl
byteorder_btoll v = byteorder_swapl v

unfoldable pub byteorder_btolll : ℕ → ℕ
unfolding byteorder_swapll
byteorder_btolll v = byteorder_swapll v

unfoldable pub byteorder_htons : ℕ → ℕ
unfolding byteorder_swaps
byteorder_htons v = byteorder_swaps v

unfoldable pub byteorder_htonl : ℕ → ℕ
unfolding byteorder_swapl
byteorder_htonl v = byteorder_swapl v

unfoldable pub byteorder_htonll : ℕ → ℕ
unfolding byteorder_swapll
byteorder_htonll v = byteorder_swapll v

unfoldable pub byteorder_ntohs : ℕ → ℕ
unfolding byteorder_swaps
byteorder_ntohs v = byteorder_swaps v

unfoldable pub byteorder_ntohl : ℕ → ℕ
unfolding byteorder_swapl
byteorder_ntohl v = byteorder_swapl v

unfoldable pub byteorder_ntohll : ℕ → ℕ
unfolding byteorder_swapll
byteorder_ntohll v = byteorder_swapll v

unfoldable pub htons : ℕ → ℕ
unfolding byteorder_htons
htons v = byteorder_htons v

unfoldable pub htonl : ℕ → ℕ
unfolding byteorder_htonl
htonl v = byteorder_htonl v

unfoldable pub htonll : ℕ → ℕ
unfolding byteorder_htonll
htonll v = byteorder_htonll v

unfoldable pub ntohs : ℕ → ℕ
unfolding byteorder_ntohs
ntohs v = byteorder_ntohs v

unfoldable pub ntohl : ℕ → ℕ
unfolding byteorder_ntohl
ntohl v = byteorder_ntohl v

unfoldable pub ntohll : ℕ → ℕ
unfolding byteorder_ntohll
ntohll v = byteorder_ntohll v

-- `byteorder_bebuftohs`, of a buffer that starts with these two bytes. The shift is one of `int`, 16
-- bits wide, whose bits `uint16_t` takes over.
unfoldable pub byteorder_bebuftohs : ℕ → ℕ → ℕ
byteorder_bebuftohs high low = bit_or (high * 2 ^ 8 % 2 ^ 16) low

-- `byteorder_htobebufs`: the two bytes that it writes.
unfoldable pub byteorder_htobebufs : ℕ → List ℕ
byteorder_htobebufs val = (val / 2 ^ 8 % 256) ∷ (val % 256) ∷ []
