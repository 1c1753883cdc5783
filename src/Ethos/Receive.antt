-- ===== src/Ethos/Receive.antt =====
-- What the state machine of the receiver makes of escaped bytes.
use sancus_riot.Common.{
  ℕ, zero, suc, ◌+◌, ◌<◌, ◌≤◌, ◌≡◌, refl, sym, ap, ◌∙◌, true, false, none, some, arith, ◌==◌, ltb,
  lt→ltb, ltb→lt, append_assoc, append-nil, if◌then◌else◌, List, [], ◌∷◌, ◌++◌, length, inl, inr,
  Bool-cases, Option-cases, Option, ==_iff,
}
use sancus_riot.Kernel.{update}
use sancus_riot.Ethos.{
  Serial, in_frame, in_escape, Output, line_frame_delimiter, line_esc_char, stored, handle_char,
  handle_in_frame, escape_char, serial_handle_byte, received_byte, received, values, mtu,
}
use sancus_riot.Ethos.Escape.{escaped_char, escaped}

-- A byte that leads to no output.
pub received-quiet :
    (s s' : Serial) (c : ℕ) (cs : List ℕ)
    → serial_handle_byte s c ≡ some (0, s')
    → received s (c ∷ cs) ≡ received s' cs
unfolding received received_byte
received-quiet s s' c cs e =
    rw (received, received_byte, e)
      (elim (Option-cases (received s' cs)) [ inl n ↦ rw n refl | inr (r, h) ↦ rw h refl ])

-- In a frame, a byte in its escaped form is stored.
abbrev pub framing : Serial → Serial
framing s = record s { state = in_frame }

abbrev escaping : Serial → Serial
escaping s = record s { state = in_escape }

-- What a byte of the frame leads to, after the attempt to store it.
abbrev answer : Option Serial → Option (ℕ × Serial)
answer none = none
answer (some s) = some (0, framing s)

abbrev goes_on : Option Serial → List ℕ → Option (List Output × Serial)
goes_on none cs = none
goes_on (some s) cs = received (framing s) cs

received-goes_on :
    (s : Serial) (c : ℕ) (cs : List ℕ) (o : Option Serial)
    → serial_handle_byte s c ≡ answer o
    → received s (c ∷ cs) ≡ goes_on o cs
unfolding received received_byte
received-goes_on s c cs none e = rw (received, received_byte, e) refl
received-goes_on s c cs (some t) e = received-quiet s (framing t) c cs e

handle-plain :
    (s : Serial) (c : ℕ)
    → (c == line_esc_char) ≡ false
    → (c == line_frame_delimiter) ≡ false
    → serial_handle_byte (framing s) c ≡ answer (handle_char s c)
unfolding serial_handle_byte handle_in_frame handle_char
handle-plain s c e d = elim (Bool-cases (ltb s.framebytes mtu)) [
  | inl h ↦ rw (e, d, h) refl
  | inr h ↦ rw (e, d, h) refl
]

-- Both bytes that are escaped.
handle-hidden :
    (s : Serial)
    → (serial_handle_byte (escaping s) 0x5e ≡ answer (handle_char s line_frame_delimiter))
      × (serial_handle_byte (escaping s) 0x5d ≡ answer (handle_char s line_esc_char))
unfolding serial_handle_byte handle_char escape_char
handle-hidden s = elim (Bool-cases (ltb s.framebytes mtu)) [
  | inl h ↦ (
    rw (serial_handle_byte, escape_char, handle_char, h) refl,
    rw (serial_handle_byte, escape_char, handle_char, h) refl,
  )
  | inr h ↦ (
    rw (serial_handle_byte, escape_char, handle_char, h) refl,
    rw (serial_handle_byte, escape_char, handle_char, h) refl,
  )
]

handle-esc : (s : Serial) → serial_handle_byte (framing s) line_esc_char ≡ some (0, escaping s)
unfolding serial_handle_byte handle_in_frame
handle-esc s = refl

received-hidden :
    (s : Serial) (c d : ℕ) (cs : List ℕ)
    → serial_handle_byte (escaping s) d ≡ answer (handle_char s c)
    → received (framing s) (line_esc_char ∷ d ∷ cs) ≡ goes_on (handle_char s c) cs
received-hidden s c d cs e =
    received-quiet (framing s) (escaping s) line_esc_char (d ∷ cs) (handle-esc s)
    ∙ received-goes_on (escaping s) d cs (handle_char s c) e

-- In a frame, a byte in its escaped form is stored, if there is room.
received-escaped_char :
    (s : Serial) (c : ℕ) (cs : List ℕ)
    → received (framing s) (escaped_char c ++ cs) ≡ goes_on (handle_char s c) cs
received-escaped_char s c cs = elim (Bool-cases (c == line_frame_delimiter)) [
  | inl d ↦
      rw ((==_iff c line_frame_delimiter).0 d)
        (received-hidden s line_frame_delimiter 0x5e cs (handle-hidden s).0)
  | inr d ↦ elim (Bool-cases (c == line_esc_char)) [
    | inl x ↦
        rw ((==_iff c line_esc_char).0 x)
          (received-hidden s line_esc_char 0x5d cs (handle-hidden s).1)
    | inr x ↦ rw (d, x) (received-goes_on (framing s) c cs (handle_char s c) (handle-plain s c x d))
  ]
]

received-stored :
    (s : Serial) (c : ℕ) (cs : List ℕ)
    → s.framebytes < mtu
    → received (framing s) (escaped_char c ++ cs) ≡ received (framing (stored s c)) cs
unfolding handle_char
received-stored s c cs h =
    received-escaped_char s c cs
    ∙ ap (λ b. goes_on (if b then some (stored s c) else none) cs) (lt→ltb s.framebytes mtu h)

-- The state with all of the bytes stored.
abbrev pub stored_all : Serial → List ℕ → Serial
stored_all s [] = s
stored_all s (c ∷ cs) = stored_all (stored s c) cs

pub received-escaped :
    (s : Serial) (ms cs : List ℕ)
    → s.framebytes + length ms ≤ mtu
    → received (framing s) (escaped ms ++ cs) ≡ received (framing (stored_all s ms)) cs
received-escaped s [] cs h = refl
received-escaped s (c ∷ ms) cs h = rw (append_assoc (escaped_char c) (escaped ms) cs) (
    received-stored s c (escaped ms ++ cs) (omega (arith, h))
    ∙ received-escaped (stored s c) ms cs (omega (arith, h)))

-- What the frame holds then.
pub record Stored (s t : Serial) (ms : List ℕ) : Type 0 where
  pub count : t.framebytes ≡ s.framebytes + length ms
  pub bytes : values t.frame t.framebytes ≡ values s.frame s.framebytes ++ ms
  pub type : t.frametype ≡ s.frametype
  pub local : t.local_l2_addr ≡ s.local_l2_addr

values-update : (f : ℕ → ℕ) (i v n : ℕ) → n ≤ i → values (update f i v) n ≡ values f n
values-update f i v zero h = refl
values-update f i v (suc n) h =
    let other : (n == i) ≡ false = ground (arith, h) in
    rw (values-update f i v n (omega (arith, h)), other) refl

values-stored : (f : ℕ → ℕ) (n v : ℕ) → values (update f n v) (n + 1) ≡ values f n ++ (v ∷ [])
values-stored f n v =
    let next : n + 1 ≡ suc n = omega arith in
    let own : (n == n) ≡ true = ground arith in
    ap (values (update f n v)) next ∙ rw (values-update f n v n (omega arith), own) refl

pub stored_all-Stored : (s : Serial) (ms : List ℕ) → Stored s (stored_all s ms) ms
stored_all-Stored s [] = record {
  count = omega arith;
  bytes = sym (append-nil (values s.frame s.framebytes));
  type = refl;
  local = refl;
}
stored_all-Stored s (c ∷ ms) =
    let r = stored_all-Stored (stored s c) ms in
    record {
      count = omega (arith, r.count);
      bytes =
          r.bytes
          ∙ ap (λ xs. xs ++ ms) (values-stored s.frame s.framebytes c)
          ∙ append_assoc (values s.frame s.framebytes) (c ∷ []) ms;
      type = r.type;
      local = r.local;
    }

-- More bytes than the frame has room for are written outside of it.
pub received-overflow :
    (s : Serial) (ms cs : List ℕ)
    → s.framebytes ≤ mtu
    → mtu < s.framebytes + length ms
    → received (framing s) (escaped ms ++ cs) ≡ none
unfolding handle_char
received-overflow s [] cs l h = absurd (omega arith)
received-overflow s (c ∷ ms) cs l h =
    rw (append_assoc (escaped_char c) (escaped ms) cs) (elim (Bool-cases (ltb s.framebytes mtu)) [
      | inl e ↦
          received-stored s c (escaped ms ++ cs) (ltb→lt s.framebytes mtu e)
          ∙ received-overflow (stored s c) ms cs (omega (arith, ltb→lt s.framebytes mtu e))
              (omega (arith, h))
      | inr e ↦
          received-escaped_char s c (escaped ms ++ cs)
          ∙ ap (λ b. goes_on (if b then some (stored s c) else none) (escaped ms ++ cs)) e
    ])
