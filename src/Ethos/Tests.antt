-- ===== src/Ethos/Tests.antt =====
-- Examples: a side with the address 1 to 6, a packet with both bytes that are escaped, a frame of one
-- byte more than there is room for.
use sancus_riot.Common.{
  ◌≡◌, refl, none, some, arith, List, ℕ, [], ◌∷◌, ◌++◌, ◌+◌, replicate, length-replicate,
}
use sancus_riot.Ethos.{
  Serial, wait_framestart, write_tap, write_stdout, write_serial, clear_neighbor_cache,
  line_frame_delimiter, line_esc_char, received, cleared, send_hello,
}
use sancus_riot.Ethos.Sender.{send_packet, send_text, checked_write}
use sancus_riot.Ethos.Escape.{escaped, joined}
use sancus_riot.Ethos.Frames.{answers}
use sancus_riot.Ethos.Link.{Carried, send-Carried, received-none, received-send_hello}

abbrev side : Serial
side = record {
  state = wait_framestart;
  frametype = 0;
  framebytes = 0;
  frame = λ _. 0;
  local_l2_addr = λ i. i + 1;
  remote_l2_addr = λ _. 0;
}

abbrev packet : List ℕ
packet = 0x45 ∷ 0x7e ∷ 0x7d ∷ 0x20 ∷ []

send-Carried_example :
    Carried (send_packet packet) side (write_tap packet)
    × Carried (send_text packet) side (write_stdout packet)
send-Carried_example = send-Carried side refl packet (omega arith) (omega arith)

received-none_example :
    received side (line_frame_delimiter ∷ (escaped (replicate 9001 1) ++ packet)) ≡ none
received-none_example =
    received-none side refl (replicate 9001 1) packet
      (omega (arith, length-replicate {A = ℕ} 9001 1))

received-send_hello_example :
    (received side (joined (send_hello side 2)) ≡ some (answers side 2, cleared side))
    × (received side (
          line_frame_delimiter
          ∷ (escaped packet ++ (line_frame_delimiter ∷ joined (send_hello side 2))))
        ≡ some (
          write_tap packet
              ∷ write_serial (line_frame_delimiter ∷ line_esc_char ∷ 0x23 ∷ [])
              ∷ write_serial (replicate 6 0)
              ∷ write_serial (line_frame_delimiter ∷ [])
              ∷ clear_neighbor_cache
              ∷ [],
          cleared side,
        ))
received-send_hello_example =
    received-send_hello side refl side packet (refl, refl) (omega arith) (omega arith)

escaped-packet : escaped packet ≡ 0x45 ∷ 0x7d ∷ 0x5e ∷ 0x7d ∷ 0x5d ∷ 0x20 ∷ []
escaped-packet = refl

twice : checked_write (1 ∷ 2 ∷ []) (7 ∷ 8 ∷ 9 ∷ []) 3 ≡ 7 ∷ 7 ∷ 8 ∷ []
unfolding checked_write
twice = refl
