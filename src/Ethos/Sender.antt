-- ===== src/Ethos/Sender.antt =====
-- The sender of dist/tools/ethos/ethos.c: escaping, and what the main loop writes to the line.
use sancus_riot.Common.{
  ℕ, ◌+◌, ◌-◌, ◌||◌, Option, none, some, ◌==◌, ltb, leb, if◌then◌else◌, List, [], ◌∷◌, ◌++◌, length,
  bit_xor, take,
}
use sancus_riot.Ethos.{
  serial_buffer_size, line_frame_delimiter, line_esc_char, line_frame_type_text,
}

-- `out[buffered++] = c`, and the write of the buffer when it is full.
unfoldable pub put_out : List ℕ → ℕ → Option (List (List ℕ) × List ℕ)
put_out out c =
    if ltb (length out) serial_buffer_size
    then some (
        if leb serial_buffer_size (length out + 1)
        then ((out ++ (c ∷ [])) ∷ [], [])
        else ([], out ++ (c ∷ [])))
    else none

-- The part of the loop for one character.
unfoldable pub put_escaped : List ℕ → ℕ → Option (List (List ℕ) × List ℕ)
put_escaped out c =
    if c == line_frame_delimiter || c == line_esc_char
    then (elim (put_out out line_esc_char) [
      | none ↦ none
      | some (written, out) ↦ elim (put_out out (bit_xor c 0x20)) [
        | none ↦ none
        | some (more, out) ↦ some (written ++ more, out)
      ]
    ])
    else put_out out c

unfoldable pub escape_loop : List ℕ → List ℕ → Option (List (List ℕ))
escape_loop [] out = some (if length out == 0 then [] else out ∷ [])
escape_loop (c ∷ cs) out = elim (put_escaped out c) [
  | none ↦ none
  | some (written, out) ↦ elim (escape_loop cs out) [
    | none ↦ none
    | some more ↦ some (written ++ more)
  ]
]

-- The writes to the serial line.
abbrev pub write_escaped : List ℕ → Option (List (List ℕ))
write_escaped buf = escape_loop buf []

-- What the main loop writes to the serial line for a packet of the tap device.
unfoldable pub send_packet : List ℕ → Option (List (List ℕ))
send_packet buf = elim (write_escaped buf) [
  | none ↦ none
  | some writes ↦
      some (((line_frame_delimiter ∷ []) ∷ writes) ++ ((line_frame_delimiter ∷ []) ∷ []))
]

-- What it writes for text of the standard input.
unfoldable pub send_text : List ℕ → Option (List (List ℕ))
send_text buf = elim (write_escaped buf) [
  | none ↦ none
  | some writes ↦ some (
      ((line_frame_delimiter ∷ line_esc_char ∷ bit_xor line_frame_type_text 0x20 ∷ []) ∷ writes)
      ++ ((line_frame_delimiter ∷ []) ∷ []))
]

-- `checked_write`: what it writes, where the calls of `write` take as many bytes as the list says, 0
-- for an error.
unfoldable pub checked_write : List ℕ → List ℕ → ℕ → List ℕ
checked_write [] buffer nbyte = []
checked_write (res ∷ results) buffer nbyte =
    let rest = checked_write results buffer (nbyte - res) in
    if nbyte == 0 then [] else if res == 0 then [] else take res buffer ++ rest
