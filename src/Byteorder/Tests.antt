-- ===== src/Byteorder/Tests.antt =====
-- Examples for the byte order.
use sancus_riot.Common.{◌≡◌, refl}
use sancus_riot.Byteorder.{htonl}

htonl_at : htonl 0x0102_0304 ≡ 0x0403_0201
unfolding htonl
htonl_at = refl
