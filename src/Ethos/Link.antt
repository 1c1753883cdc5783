-- ===== src/Ethos/Link.antt =====
-- Whole frames: what one side sends, received by the other.
use sancus_riot.Common.{
  ℕ, ◌<◌, ◌≤◌, ◌≡◌, refl, sym, ap, ◌∙◌, false, none, some, arith, List, [], ◌∷◌, ◌++◌, length,
  Option, has, inl, inr, replicate, ◌⊎◌,
}
use sancus_riot.Ethos.{
  Serial, wait_framestart, Output, write_tap, write_stdout, write_serial, clear_neighbor_cache,
  line_frame_delimiter, line_esc_char, received, values, mtu, cleared, send_hello,
}
use sancus_riot.Ethos.Sender.{send_packet, send_text}
use sancus_riot.Ethos.Escape.{
  escaped, joined, joined-append, AllFit, AllFit-append, Written, escape_loop-Written,
}
use sancus_riot.Ethos.Receive.{received-overflow, stored_all-Stored, stored_all}
use sancus_riot.Ethos.Frames.{
  opened, Named, done, answers, received-start, received-type, received-frame, done-packet,
  done-text, frame_done-address,
}

-- What is sent is written in pieces of 1 to 64 bytes, and leads to one output at the other side.
pub record Carried (sent : Option (List (List ℕ))) (s : Serial) (output : Output) : Type 0 where
  pub writes : List (List ℕ)
  pub sends : sent ≡ some writes
  pub fit : AllFit writes
  pub arrives : received s (joined writes) ≡ some (output ∷ [], cleared s)

joined-frame :
    (head : List ℕ) (ws : List (List ℕ)) (ms : List ℕ)
    → joined ws ≡ escaped ms
    → joined ((head ∷ ws) ++ ((line_frame_delimiter ∷ []) ∷ []))
      ≡ head ++ (escaped ms ++ (line_frame_delimiter ∷ []))
joined-frame head ws ms e =
    ap (λ xs. head ++ xs)
      (joined-append ws ((line_frame_delimiter ∷ []) ∷ [])
        ∙ ap (λ xs. xs ++ (line_frame_delimiter ∷ [])) e)

AllFit-frame :
    (head : List ℕ) (ws : List (List ℕ))
    → 0 < length head
    → length head ≤ 64
    → AllFit ws
    → AllFit ((head ∷ ws) ++ ((line_frame_delimiter ∷ []) ∷ []))
AllFit-frame head ws a b f = (a, b, AllFit-append ws _ f (omega arith, omega arith, tt))

-- A frame whose head opens the type `t`.
framed-Carried :
    (s : Serial) (t : ℕ) (head ms : List ℕ) (output : Output)
    → ((cs : List ℕ) → received s (head ++ cs) ≡ received (opened s t) cs)
    → done s t ms ≡ output ∷ []
    → (0 < length head) × (length head ≤ 64)
    → (0 < length ms) × (length ms ≤ mtu)
    → (e : Written [] ms)
    → Carried (some ((head ∷ e.writes) ++ ((line_frame_delimiter ∷ []) ∷ []))) s output
unfolding received
framed-Carried s t head ms output opens d short bounds e = record {
  writes = (head ∷ e.writes) ++ ((line_frame_delimiter ∷ []) ∷ []);
  sends = refl;
  fit = AllFit-frame head e.writes short.0 short.1 e.fit;
  arrives =
      ap (received s) (joined-frame head e.writes ms e.bytes)
      ∙ opens (escaped ms ++ (line_frame_delimiter ∷ []))
      ∙ received-frame s t ms [] bounds.0 bounds.1 refl
      ∙ ap (λ o. some (o ++ [], cleared s)) d;
}

escaped-plain :
    (xs : List ℕ)
    → has line_frame_delimiter xs ≡ false
    → has line_esc_char xs ≡ false
    → escaped xs ≡ xs
escaped-plain [] d e = refl
escaped-plain (x ∷ xs) d e =
    let r = escaped-plain xs (ground (arith, d)) (ground (arith, e)) in ground (arith, r, d, e)

-- The address that `p` sends has no byte that would have to be escaped.
abbrev pub PlainAddress : Serial → Type 0
PlainAddress p =
    (has line_frame_delimiter (values p.local_l2_addr 6) ≡ false)
    × (has line_esc_char (values p.local_l2_addr 6) ≡ false)

done-address :
    (s p : Serial) (t : ℕ) → (t ≡ 2) ⊎ (t ≡ 3) → done s t (values p.local_l2_addr 6) ≡ answers s t
done-address s p t n =
    let r = stored_all-Stored (opened s t) (values p.local_l2_addr 6) in
    let u = record (stored_all (opened s t) (values p.local_l2_addr 6)) {
      state = wait_framestart;
    } in
    frame_done-address u s t n r.type r.count r.local

Named-hello : (t : ℕ) → (t ≡ 2) ⊎ (t ≡ 3) → Named t
Named-hello t (inl e) = (omega (arith, e), omega (arith, e))
Named-hello t (inr e) = (omega (arith, e), omega (arith, e))

received-hello :
    (s p : Serial) (t : ℕ)
    → (t ≡ 2) ⊎ (t ≡ 3)
    → s.state ≡ wait_framestart
    → PlainAddress p
    → received s (joined (send_hello p t)) ≡ some (answers s t ++ [], cleared s)
unfolding received
received-hello s p t n w plain =
    let address = values p.local_l2_addr 6 in
    received-type s t (address ++ (line_frame_delimiter ∷ [])) (Named-hello t n) w
    ∙ ap (λ xs. received (opened s t) (xs ++ (line_frame_delimiter ∷ [])))
        (sym (escaped-plain address plain.0 plain.1))
    ∙ received-frame s t address [] (omega arith) (omega arith) refl
    ∙ ap (λ o. some (o ++ [], cleared s)) (done-address s p t n)

module _ (s : Serial) (w : s.state ≡ wait_framestart) where
  -- From 1 to 9000 bytes of a packet or of text, whatever they are, are written to the line in
  -- pieces of 1 to 64 bytes; a receiver that waits for the start of a frame and reads what was
  -- written does nothing but hand on exactly these bytes, to the tap device or to the standard
  -- output, and its whole state is 0 then.
  pub send-Carried :
      (ms : List ℕ)
      → 0 < length ms
      → length ms ≤ mtu
      → Carried (send_packet ms) s (write_tap ms) × Carried (send_text ms) s (write_stdout ms)
  unfolding send_packet send_text
  send-Carried ms l h =
      let e = escape_loop-Written ms [] (omega arith) in
      (
        rw (send_packet, e.returns)
            (framed-Carried s 0 (line_frame_delimiter ∷ []) ms _ (λ cs. received-start s cs w)
              (done-packet s ms) (omega arith, omega arith) (l, h) e),
        rw (send_text, e.returns)
            (framed-Carried s 1 (line_frame_delimiter ∷ line_esc_char ∷ 0x21 ∷ []) ms _
              (λ cs. received-type s 1 cs (omega arith, omega arith) w) (done-text s ms)
              (omega arith, omega arith) (l, h) e),
      )

  -- A receiver that waits for the start of a frame and then reads more than 9000 bytes of it,
  -- escaped or not, writes outside of its frame, whatever follows.
  pub received-none :
      (ms cs : List ℕ)
      → mtu < length ms
      → received s (line_frame_delimiter ∷ (escaped ms ++ cs)) ≡ none
  received-none ms cs h =
      received-start s (escaped ms ++ cs) w
      ∙ received-overflow (opened s 0) ms cs (omega arith) (omega (arith, h))

  -- From an address without a byte that would be escaped, a receiver that waits for the start of a
  -- frame answers a hello with its own address; but after a packet of 1 to 9000 bytes it answers
  -- the same hello with an address of zeros.
  pub received-send_hello :
      (p : Serial) (ms : List ℕ)
      → PlainAddress p
      → 0 < length ms
      → length ms ≤ mtu
      → (received s (joined (send_hello p 2)) ≡ some (answers s 2, cleared s))
        × (received s (
              line_frame_delimiter
              ∷ (escaped ms ++ (line_frame_delimiter ∷ joined (send_hello p 2))))
            ≡ some (
              write_tap ms
                  ∷ write_serial (line_frame_delimiter ∷ line_esc_char ∷ 0x23 ∷ [])
                  ∷ write_serial (replicate 6 0)
                  ∷ write_serial (line_frame_delimiter ∷ [])
                  ∷ clear_neighbor_cache
                  ∷ [],
              cleared s,
            ))
  received-send_hello p ms plain l h = (
    received-hello s p 2 (inl refl) w plain,
    received-start s (escaped ms ++ (line_frame_delimiter ∷ joined (send_hello p 2))) w
        ∙ received-frame s 0 ms (joined (send_hello p 2)) l h
            (received-hello (cleared s) p 2 (inl refl) refl plain)
        ∙ ap (λ o. some (o ++ answers (cleared s) 2, cleared s)) (done-packet s ms),
  )
