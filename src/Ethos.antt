-- ===== src/Ethos.antt =====
-- dist/tools/ethos/ethos.c: the framing with which the host's tool carries network packets and text
-- over one serial line; the receiver here, the sender in Ethos.Sender. A `char` is a number below
-- 2 ^ 8. A write outside of the frame or of the output buffer is a fault, `none`.
pub mod Sender
pub mod Escape
pub mod Receive
pub mod Frames
pub mod Link
pub mod Write
mod Tests
use sancus_riot.Common.{
  ℕ, ◌+◌, ◌-◌, Bool, ◌||◌, Option, none, some, ◌==◌, ltb, leb, if◌then◌else◌, List, [], ◌∷◌, ◌++◌,
  map, length, bit_xor, zero, suc, take,
}
use sancus_riot.Kernel.{update}

abbrev pub mtu : ℕ
mtu = 9000

abbrev pub serial_buffer_size : ℕ
serial_buffer_size = 64

abbrev pub line_frame_delimiter : ℕ
line_frame_delimiter = 0x7e

abbrev pub line_esc_char : ℕ
line_esc_char = 0x7d

abbrev pub line_frame_type_data : ℕ
line_frame_type_data = 0

abbrev pub line_frame_type_text : ℕ
line_frame_type_text = 1

abbrev pub line_frame_type_hello : ℕ
line_frame_type_hello = 2

abbrev pub line_frame_type_hello_reply : ℕ
line_frame_type_hello_reply = 3

-- `line_state_t`
pub data LineState : Type 0 where
  wait_framestart : LineState
  in_frame : LineState
  in_escape : LineState

-- `serial_t`, the arrays as functions of the index.
pub record Serial : Type 0 where
  pub state : LineState
  pub frametype : ℕ
  pub framebytes : ℕ
  pub frame : ℕ → ℕ
  pub local_l2_addr : ℕ → ℕ
  pub remote_l2_addr : ℕ → ℕ

-- A frame character that fits.
abbrev pub stored : Serial → ℕ → Serial
stored serial c = record serial {
  frame = update serial.frame serial.framebytes c;
  framebytes = serial.framebytes + 1;
}

unfoldable pub handle_char : Serial → ℕ → Option Serial
handle_char serial c = if ltb serial.framebytes mtu then some (stored serial c) else none

-- The case IN_FRAME.
unfoldable pub handle_in_frame : Serial → ℕ → Option (ℕ × Serial)
handle_in_frame serial c =
    if c == line_esc_char
    then some (0, record serial { state = in_escape })
    else if c == line_frame_delimiter
    then (if serial.framebytes == 0
        then some (0, serial)
        else some (serial.framebytes, record serial { state = wait_framestart }))
    else elim (handle_char serial c) [ none ↦ none | some serial ↦ some (0, serial) ]

-- The tests of the case IN_ESCAPE.
unfoldable pub escape_char : Serial → ℕ → Option Serial
escape_char serial c =
    if c == bit_xor line_frame_delimiter 0x20
    then handle_char serial line_frame_delimiter
    else if c == bit_xor line_esc_char 0x20
    then handle_char serial line_esc_char
    else if c == bit_xor line_frame_type_text 0x20
    then some (record serial { frametype = line_frame_type_text })
    else if c == bit_xor line_frame_type_hello 0x20
    then some (record serial { frametype = line_frame_type_hello })
    else if c == bit_xor line_frame_type_hello_reply 0x20
    then some (record serial { frametype = line_frame_type_hello_reply })
    else some serial

unfoldable pub serial_handle_byte : Serial → ℕ → Option (ℕ × Serial)
serial_handle_byte serial c = elim serial.state [
  | wait_framestart ↦ some (
    0,
    if c == line_frame_delimiter
        then record serial { state = in_frame; frametype = 0; framebytes = 0 }
        else serial,
  )
  | in_frame ↦ handle_in_frame serial c
  | in_escape ↦ elim (escape_char serial c) [
    | none ↦ none
    | some serial ↦ some (0, record serial { state = in_frame })
  ]
]

-- The first `n` values of an array.
abbrev pub values : (ℕ → ℕ) → ℕ → List ℕ
values f zero = []
values f (suc n) = values f n ++ (f n ∷ [])

-- What the tool does to the outside: calls of `checked_write` with what they are to write, and of
-- `_clear_neighbor_cache`.
pub data Output : Type 0 where
  write_tap : List ℕ → Output
  write_stdout : List ℕ → Output
  write_serial : List ℕ → Output
  clear_neighbor_cache : Output

-- The writes of `_send_hello` to the serial line.
abbrev pub send_hello : Serial → ℕ → List (List ℕ)
send_hello serial type =
    (line_frame_delimiter ∷ line_esc_char ∷ bit_xor type 0x20 ∷ [])
    ∷ values serial.local_l2_addr 6
    ∷ (line_frame_delimiter ∷ [])
    ∷ []

-- The `switch` of the main loop.
unfoldable pub frame_done : Serial → List Output × Serial
frame_done serial =
    let bytes = values serial.frame serial.framebytes in
    let from_peer = record serial {
      remote_l2_addr = λ i. if ltb i 6 then serial.frame i else serial.remote_l2_addr i;
    } in
    let reply =
      if serial.frametype == line_frame_type_hello
      then map write_serial (send_hello from_peer line_frame_type_hello_reply)
      else [] in
    if serial.frametype == line_frame_type_data
    then (write_tap bytes ∷ [], serial)
    else if serial.frametype == line_frame_type_text
    then (write_stdout bytes ∷ [], serial)
    else if serial.frametype == line_frame_type_hello
        || serial.frametype == line_frame_type_hello_reply
    then (if serial.framebytes == 6
        then (reply ++ (clear_neighbor_cache ∷ []), from_peer)
        else ([], serial))
    else ([], serial)

-- `memset` to 0.
abbrev pub cleared : Serial → Serial
cleared serial = record serial {
  state = wait_framestart;
  frametype = 0;
  framebytes = 0;
  frame = λ _. 0;
  local_l2_addr = λ _. 0;
  remote_l2_addr = λ _. 0;
}

-- The body of the loop over the bytes that were read.
unfoldable pub received_byte : Serial → ℕ → Option (List Output × Serial)
received_byte serial c = elim (serial_handle_byte serial c) [
  | none ↦ none
  | some (res, serial) ↦
      if res == 0
      then some ([], serial)
      else some ((frame_done serial).0, cleared (frame_done serial).1)
]

unfoldable pub received : Serial → List ℕ → Option (List Output × Serial)
received serial [] = some ([], serial)
received serial (c ∷ cs) = elim (received_byte serial c) [
  | none ↦ none
  | some (output, serial) ↦ elim (received serial cs) [
    | none ↦ none
    | some (more, serial) ↦ some (output ++ more, serial)
  ]
]
