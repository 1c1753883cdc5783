-- ===== src/Byteorder/Bytes.antt =====
-- Numbers and their bytes.
use sancus_riot.Common.{
  ℕ, zero, suc, ◌+◌, ◌*◌, ◌/◌, ◌%◌, ◌<◌, ◌≡◌, refl, List, [], ◌∷◌, ◌++◌, arith,
}
use sancus_riot.Byteorder.{bytes, value, reverse}

-- 256 to the power of `n`.
unfoldable pub limit : ℕ → ℕ
limit zero = 1
limit (suc n) = 256 * limit n

-- A list of `n` bytes.
abbrev pub IsBytes : ℕ → List ℕ → Type 0
IsBytes zero [] = Unit {0}
IsBytes zero (b ∷ bs) = ⊥
IsBytes (suc n) [] = ⊥
IsBytes (suc n) (b ∷ bs) = (b < 256) × IsBytes n bs

pub value-bytes : (n v : ℕ) → v < limit n → value (bytes n v) ≡ v
unfolding limit value bytes
value-bytes zero v h = omega (arith, h)
value-bytes (suc n) v h = ground (arith, value-bytes n (v / 256) (omega (arith, h)))

pub bytes-value : (n : ℕ) (bs : List ℕ) → IsBytes n bs → bytes n (value bs) ≡ bs
unfolding value bytes
bytes-value zero [] h = refl
bytes-value zero (b ∷ bs) h = absurd h
bytes-value (suc n) [] h = absurd h
bytes-value (suc n) (b ∷ bs) (lt, h) =
    let first : (b + 256 * value bs) % 256 ≡ b = omega (arith, lt) in
    let rest : (b + 256 * value bs) / 256 ≡ value bs = omega (arith, lt) in
    rw (first, rest, bytes-value n bs h) refl

pub bytes-IsBytes : (n v : ℕ) → IsBytes n (bytes n v)
unfolding bytes
bytes-IsBytes zero v = tt
bytes-IsBytes (suc n) v = (omega arith, bytes-IsBytes n (v / 256))

snoc-IsBytes :
    (n : ℕ) (bs : List ℕ) (b : ℕ) → b < 256 → IsBytes n bs → IsBytes (suc n) (bs ++ (b ∷ []))
snoc-IsBytes zero [] b lt h = (lt, tt)
snoc-IsBytes zero (c ∷ bs) b lt h = absurd h
snoc-IsBytes (suc n) [] b lt h = absurd h
snoc-IsBytes (suc n) (c ∷ bs) b lt (lc, h) = (lc, snoc-IsBytes n bs b lt h)

pub reverse-IsBytes : (n : ℕ) (bs : List ℕ) → IsBytes n bs → IsBytes n (reverse bs)
unfolding reverse
reverse-IsBytes zero [] h = tt
reverse-IsBytes zero (b ∷ bs) h = absurd h
reverse-IsBytes (suc n) [] h = absurd h
reverse-IsBytes (suc n) (b ∷ bs) (lt, h) = snoc-IsBytes n (reverse bs) b lt (reverse-IsBytes n bs h)

reverse-snoc : (bs : List ℕ) (b : ℕ) → reverse (bs ++ (b ∷ [])) ≡ b ∷ reverse bs
unfolding reverse
reverse-snoc [] b = refl
reverse-snoc (c ∷ bs) b = rw (reverse-snoc bs b) refl

pub reverse-reverse : (bs : List ℕ) → reverse (reverse bs) ≡ bs
unfolding reverse
reverse-reverse [] = refl
reverse-reverse (b ∷ bs) = rw (reverse-snoc (reverse bs) b, reverse-reverse bs) refl
