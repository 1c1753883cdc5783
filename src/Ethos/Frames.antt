-- ===== src/Ethos/Frames.antt =====
-- How the receiver reads the start, the type and the end of a frame, and what it does with the bytes.
use sancus_riot.Common.{
  ℕ, zero, suc, ◌<◌, ◌≤◌, ◌≡◌, refl, ap, ◌∙◌, false, none, some, arith, ◌==◌, if◌then◌else◌, List,
  [], ◌∷◌, ◌++◌, length, bit_xor, inl, inr, Option, ◌⊎◌, map,
}
use sancus_riot.Ethos.{
  Serial, in_frame, in_escape, wait_framestart, Output, write_tap, write_stdout, write_serial,
  clear_neighbor_cache, line_frame_delimiter, line_esc_char, serial_handle_byte, handle_in_frame,
  escape_char, received_byte, received, values, mtu, frame_done, cleared, send_hello,
}
use sancus_riot.Ethos.Escape.{escaped}
use sancus_riot.Ethos.Receive.{
  received-quiet, framing, stored_all, stored_all-Stored, received-escaped,
}

-- In a frame of the type `t` that holds no byte yet.
abbrev pub opened : Serial → ℕ → Serial
opened s t = record s { state = in_frame; frametype = t; framebytes = 0 }

pub received-start :
    (s : Serial) (cs : List ℕ)
    → s.state ≡ wait_framestart
    → received s (line_frame_delimiter ∷ cs) ≡ received (opened s 0) cs
unfolding serial_handle_byte
received-start s cs w =
    received-quiet s (opened s 0) line_frame_delimiter cs (rw (serial_handle_byte, w) refl)

-- The three types that are named in a frame.
abbrev pub Named : ℕ → Type 0
Named t = (0 < t) × (t ≤ 3)

handle-type :
    (s : Serial) (t : ℕ)
    → Named t
    → serial_handle_byte (record (opened s 0) { state = in_escape }) (bit_xor t 0x20)
      ≡ some (0, opened s t)
unfolding serial_handle_byte escape_char
handle-type s zero n = absurd (omega (arith, n.0))
handle-type s (suc zero) n = refl
handle-type s (suc (suc zero)) n = refl
handle-type s (suc (suc (suc zero))) n = refl
handle-type s (suc (suc (suc (suc t)))) n = absurd (omega (arith, n.1))

pub received-type :
    (s : Serial) (t : ℕ) (cs : List ℕ)
    → Named t
    → s.state ≡ wait_framestart
    → received s (line_frame_delimiter ∷ line_esc_char ∷ bit_xor t 0x20 ∷ cs)
      ≡ received (opened s t) cs
unfolding serial_handle_byte handle_in_frame
received-type s t cs n w =
    let u = record (opened s 0) { state = in_escape } in
    received-start s (line_esc_char ∷ bit_xor t 0x20 ∷ cs) w
    ∙ received-quiet (opened s 0) u line_esc_char (bit_xor t 0x20 ∷ cs) refl
    ∙ received-quiet u (opened s t) (bit_xor t 0x20) cs (handle-type s t n)

-- What is done with the bytes `ms` of a frame of the type `t`.
abbrev pub done : Serial → ℕ → List ℕ → List Output
done s t ms = (frame_done (record (stored_all (opened s t) ms) { state = wait_framestart })).0

received-done :
    (s t : Serial) (c n : ℕ) (cs : List ℕ) {o : List Output} {v : Serial}
    → serial_handle_byte s c ≡ some (n, t)
    → (n == 0) ≡ false
    → received (cleared t) cs ≡ some (o, v)
    → received s (c ∷ cs) ≡ some ((frame_done t).0 ++ o, v)
unfolding received received_byte
received-done s t c n cs {o} {v} e nz r =
    rw (received, received_byte, e, nz)
      (ap
        (λ x. elim x as (λ _. Option (List Output × Serial)) [
          | none ↦ none
          | some (o, v) ↦ some ((frame_done t).0 ++ o, v)
        ])
        r)

received-end :
    (s : Serial) (cs : List ℕ) {o : List Output} {v : Serial}
    → 0 < s.framebytes
    → received (cleared s) cs ≡ some (o, v)
    → received (framing s) (line_frame_delimiter ∷ cs)
      ≡ some ((frame_done (record s { state = wait_framestart })).0 ++ o, v)
unfolding serial_handle_byte handle_in_frame
received-end s cs h e =
    let some_bytes : (s.framebytes == 0) ≡ false = ground (arith, h) in
    let u = record s { state = wait_framestart } in
    received-done (framing s) u line_frame_delimiter s.framebytes cs
      (ap (λ b. if b then some (0, framing s) else some (s.framebytes, u)) some_bytes) some_bytes e

-- The bytes of a frame and its end, and what follows.
pub received-frame :
    (s : Serial) (t : ℕ) (ms cs : List ℕ) {o : List Output} {v : Serial}
    → 0 < length ms
    → length ms ≤ mtu
    → received (cleared s) cs ≡ some (o, v)
    → received (opened s t) (escaped ms ++ (line_frame_delimiter ∷ cs)) ≡ some (done s t ms ++ o, v)
received-frame s t ms cs l h e =
    let r = stored_all-Stored (opened s t) ms in
    received-escaped (opened s t) ms (line_frame_delimiter ∷ cs) (omega (arith, h))
    ∙ received-end (stored_all (opened s t) ms) cs (omega (arith, r.count, l)) e

-- The bytes that are handed on.
pub done-bytes :
    (s : Serial) (t : ℕ) (ms : List ℕ)
    → values (stored_all (opened s t) ms).frame (stored_all (opened s t) ms).framebytes ≡ ms
done-bytes s t ms = (stored_all-Stored (opened s t) ms).bytes

frame_done-bytes :
    (u : Serial) (ms : List ℕ)
    → values u.frame u.framebytes ≡ ms
    → (u.frametype ≡ 0 → (frame_done u).0 ≡ write_tap ms ∷ [])
      × (u.frametype ≡ 1 → (frame_done u).0 ≡ write_stdout ms ∷ [])
unfolding frame_done
frame_done-bytes u ms b = (λ t. rw (frame_done, t, b) refl, λ t. rw (frame_done, t, b) refl)

pub done-packet : (s : Serial) (ms : List ℕ) → done s 0 ms ≡ write_tap ms ∷ []
done-packet s ms =
    let u = record (stored_all (opened s 0) ms) { state = wait_framestart } in
    (frame_done-bytes u ms (done-bytes s 0 ms)).0 (stored_all-Stored (opened s 0) ms).type

pub done-text : (s : Serial) (ms : List ℕ) → done s 1 ms ≡ write_stdout ms ∷ []
done-text s ms =
    let u = record (stored_all (opened s 1) ms) { state = wait_framestart } in
    (frame_done-bytes u ms (done-bytes s 1 ms)).1 (stored_all-Stored (opened s 1) ms).type

-- The answer to an address of the peer.
abbrev pub answers : Serial → ℕ → List Output
answers s t =
    (if t == 2 then map write_serial (send_hello s 3) else []) ++ (clear_neighbor_cache ∷ [])

pub frame_done-address :
    (u s : Serial) (t : ℕ)
    → (t ≡ 2) ⊎ (t ≡ 3)
    → u.frametype ≡ t
    → u.framebytes ≡ 6
    → u.local_l2_addr ≡ s.local_l2_addr
    → (frame_done u).0 ≡ answers s t
unfolding frame_done
frame_done-address u s t (inl e) f n l = rw (frame_done, f, n, l, e) refl
frame_done-address u s t (inr e) f n l = rw (frame_done, f, n, l, e) refl
