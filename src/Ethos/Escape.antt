-- ===== src/Ethos/Escape.antt =====
-- What `_write_escaped` writes: the escaped bytes, in pieces that fit the output buffer.
use sancus_riot.Common.{
  ℕ, ◌+◌, ◌<◌, ◌≤◌, ◌≡◌, refl, sym, ap, ◌∙◌, ◌||◌, some, arith, ◌==◌, lt→ltb, leb, if◌then◌else◌,
  List, [], ◌∷◌, ◌++◌, length, length-append, append-nil, append_assoc, bit_xor, inl, inr,
  Bool-cases, Option,
}
use sancus_riot.Ethos.{line_frame_delimiter, line_esc_char}
use sancus_riot.Ethos.Sender.{put_out, put_escaped, escape_loop}

-- What stands for a byte between two delimiters.
abbrev pub escaped_char : ℕ → List ℕ
escaped_char c =
    if c == line_frame_delimiter || c == line_esc_char
    then line_esc_char ∷ bit_xor c 0x20 ∷ []
    else c ∷ []

abbrev pub escaped : List ℕ → List ℕ
escaped [] = []
escaped (c ∷ cs) = escaped_char c ++ escaped cs

abbrev pub joined : List (List ℕ) → List ℕ
joined [] = []
joined (w ∷ ws) = w ++ joined ws

pub joined-append : (us ws : List (List ℕ)) → joined (us ++ ws) ≡ joined us ++ joined ws
joined-append [] ws = refl
joined-append (u ∷ us) ws = rw (joined-append us ws) (sym (append_assoc u (joined us) (joined ws)))

-- Every write has from 1 to 64 bytes.
abbrev pub AllFit : List (List ℕ) → Type 0
AllFit [] = Unit
AllFit (w ∷ ws) = (0 < length w) × (length w ≤ 64) × AllFit ws

pub AllFit-append : (us ws : List (List ℕ)) → AllFit us → AllFit ws → AllFit (us ++ ws)
AllFit-append [] ws f g = g
AllFit-append (u ∷ us) ws f g = (f.0, f.1, AllFit-append us ws f.2 g)

-- With `out` in the buffer, the bytes `cs` leave `rest` there, and the others are written.
record Put (out cs : List ℕ) (result : Option (List (List ℕ) × List ℕ)) : Type 0 where
  written : List (List ℕ)
  rest : List ℕ
  returns : result ≡ some (written, rest)
  room : length rest < 64
  fit : AllFit written
  bytes : joined written ++ rest ≡ out ++ cs

put_out-Put : (out : List ℕ) (c : ℕ) → length out < 64 → Put out (c ∷ []) (put_out out c)
unfolding put_out
put_out-Put out c h = elim (Bool-cases (leb 64 (length out + 1))) [
  | inl e ↦ record {
    written = (out ++ (c ∷ [])) ∷ [];
    rest = [];
    returns = rw (lt→ltb (length out) 64 h, e) refl;
    room = omega arith;
    fit = (
      rw (length-append out (c ∷ [])) (omega arith),
      rw (length-append out (c ∷ [])) (omega (arith, h)),
      tt,
    );
    bytes = rw (append-nil (out ++ (c ∷ []))) (append-nil (out ++ (c ∷ [])));
  }
  | inr e ↦ record {
    written = [];
    rest = out ++ (c ∷ []);
    returns = rw (lt→ltb (length out) 64 h, e) refl;
    room = rw (length-append out (c ∷ [])) (ground (arith, e));
    fit = tt;
    bytes = refl;
  }
]

joined-then :
    (us ws : List (List ℕ)) (out xs mid ys rest : List ℕ)
    → joined ws ++ rest ≡ mid ++ ys
    → joined us ++ mid ≡ out ++ xs
    → joined (us ++ ws) ++ rest ≡ out ++ (xs ++ ys)
joined-then us ws out xs mid ys rest f e = rw (joined-append us ws) (
    append_assoc (joined us) (joined ws) rest
    ∙ ap (λ zs. joined us ++ zs) f
    ∙ sym (append_assoc (joined us) mid ys)
    ∙ ap (λ zs. zs ++ ys) e
    ∙ append_assoc out xs ys)

put_escaped-Put :
    (out : List ℕ) (c : ℕ) → length out < 64 → Put out (escaped_char c) (put_escaped out c)
unfolding put_escaped
put_escaped-Put out c h = elim (Bool-cases (c == line_frame_delimiter || c == line_esc_char)) [
  | inl e ↦
      let p = put_out-Put out line_esc_char h in
      let q = put_out-Put p.rest (bit_xor c 0x20) p.room in
      record {
        written = p.written ++ q.written;
        rest = q.rest;
        returns = rw (e, p.returns, q.returns) refl;
        room = q.room;
        fit = AllFit-append p.written q.written p.fit q.fit;
        bytes = rw e (joined-then p.written q.written _ _ _ _ _ q.bytes p.bytes);
      }
  | inr e ↦ rw e (put_out-Put out c h)
]

-- The writes of the loop, with `out` in the buffer.
pub record Written (out cs : List ℕ) : Type 0 where
  pub writes : List (List ℕ)
  pub returns : escape_loop cs out ≡ some writes
  pub fit : AllFit writes
  pub bytes : joined writes ≡ out ++ escaped cs

pub escape_loop-Written : (cs out : List ℕ) → length out < 64 → Written out cs
unfolding escape_loop
escape_loop-Written [] [] h = record { writes = []; returns = refl; fit = tt; bytes = refl }
escape_loop-Written [] (o ∷ out) h = record {
  writes = (o ∷ out) ∷ [];
  returns = ground arith;
  fit = (omega arith, omega (arith, h), tt);
  bytes = refl;
}
escape_loop-Written (c ∷ cs) out h =
    let p = put_escaped-Put out c h in
    let w = escape_loop-Written cs p.rest p.room in
    record {
      writes = p.written ++ w.writes;
      returns = rw (escape_loop, p.returns, w.returns) refl;
      fit = AllFit-append p.written w.writes p.fit w.fit;
      bytes =
          rw (joined-append p.written w.writes, w.bytes)
            (sym (append_assoc (joined p.written) p.rest (escaped cs))
              ∙ ap (λ xs. xs ++ escaped cs) p.bytes
              ∙ append_assoc out (escaped_char c) (escaped cs));
    }
