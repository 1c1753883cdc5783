-- ===== src/Cib/Queue.antt =====
-- With an array of cells, the indices form a queue.
use sancus_riot.Common.{
  ℕ, zero, suc, ◌+◌, ◌-◌, ◌/◌, ◌%◌, ◌^◌, ◌<◌, ◌≤◌, ◌≡◌, ◌≢◌, refl, sym, ap, ◌∙◌, true, false, some,
  List, [], ◌∷◌, ◌++◌, bit_and, arith, ◌==◌, leb, ltb, Bool-cases, inl, inr,
}
use mathlib.Core.Path.{subst}
use native.Mathlib.Nat.{mul-le-mul_right, div-add-mod', mod-lt}
use sancus_riot.Common.Bits.{bit-mod, all_below_at}
use sancus_riot.Common.Masks.{bit-ext, bit-high, bit_and-mask, pow-positive}
use sancus_riot.Kernel.{update}
use sancus_riot.Cib.{Cib, signed_le, cib_avail, cib_put, cib_put_unsafe}

-- The mask is that of `2 ^ k` cells, `n` of which are in use.
pub record IsCib (c : Cib) (k n : ℕ) : Type 0 where
  pub small : k ≤ 14
  pub mask : c.mask ≡ 2 ^ k - 1
  pub read : c.read_count < 2 ^ 16
  pub filled : c.write_count ≡ (c.read_count + n) % 2 ^ 16
  pub room : n ≤ 2 ^ k

-- The values in `n` cells from number `r` on, of `m` cells in a circle.
unfoldable pub contents : {A : Type 0} → (ℕ → A) → ℕ → ℕ → ℕ → List A
contents cells m r zero = []
contents cells m r (suc n) = cells (r % m) ∷ contents cells m (r + 1) n

-- A count that has wrapped around leads to the same cell.
pub mod-pow : (x k : ℕ) → k ≤ 14 → x % 2 ^ 16 % 2 ^ k ≡ x % 2 ^ k
mod-pow x k h = bit-ext (x % 2 ^ 16 % 2 ^ k) (x % 2 ^ k) λ q. elim (Bool-cases (ltb q k)) [
  | inl e ↦
      let lt : q < k = ground (arith, e) in
      bit-mod k q (x % 2 ^ 16) lt ∙ bit-mod 16 q x (omega (arith, lt, h)) ∙ sym (bit-mod k q x lt)
  | inr e ↦
      let le : k ≤ q = ground (arith, e) in
      bit-high k (x % 2 ^ 16 % 2 ^ k) q (mod-lt (x % 2 ^ 16) (pow-positive k)) le
      ∙ sym (bit-high k (x % 2 ^ k) q (mod-lt x (pow-positive k)) le)
]

pub limit_of : (k : ℕ) → k ≤ 14 → 2 ^ k ≤ 2 ^ 14
limit_of k h = ground (arith, all_below_at 15 (λ k. leb (2 ^ k) (2 ^ 14)) k refl (omega (arith, h)))

-- Less than a circle apart, two numbers lead to different cells.
apart : (m a d : ℕ) → 0 < d → d < m → (a + d) % m ≢ a % m
apart m a d pos lt e = elim (Bool-cases (leb ((a + d) / m) (a / m))) [
  | inl l ↦
      omega (arith, pos, e, div-add-mod' a m, div-add-mod' (a + d) m, mul-le-mul_right m (le_of l))
  | inr l ↦ omega (
    arith,
    lt,
    e,
    div-add-mod' a m,
    div-add-mod' (a + d) m,
    mul-le-mul_right {m = a / m + 1} {n = (a + d) / m} m (ground (arith, l)),
  )
]
  where
    le_of : {x y : ℕ} → leb x y ≡ true → x ≤ y
    le_of h = ground (arith, h)

module _ (c : Cib) (k n : ℕ) (v : IsCib c k n) where
  pub avail-eq : cib_avail c ≡ n
  unfolding cib_avail
  avail-eq = omega (arith, v.filled, v.read, v.room, limit_of k v.small)

  pub below : signed_le (cib_avail c) c.mask ≡ ltb n (2 ^ k)
  below = rw (avail-eq, v.mask) (ground (arith, v.room, limit_of k v.small, pow-positive k))

  write_cell : bit_and c.write_count c.mask ≡ (c.read_count + n) % 2 ^ k
  write_cell =
      ap (bit_and c.write_count) v.mask
      ∙ bit_and-mask c.write_count k
      ∙ ap (λ w. w % 2 ^ k) v.filled
      ∙ mod-pow (c.read_count + n) k v.small

  pub read_cell : bit_and c.read_count c.mask ≡ c.read_count % 2 ^ k
  read_cell = ap (bit_and c.read_count) v.mask ∙ bit_and-mask c.read_count k

-- Writing a cell that is none of those in use leaves their values.
contents-frame :
    {A : Type 0} (cells : ℕ → A) (m r i d : ℕ) (a : A) (n : ℕ)
    → i ≡ (r + n + d) % m
    → n + d < m
    → contents (update cells i a) m r n ≡ contents cells m r n
unfolding contents
contents-frame cells m r i d a zero e h = refl
contents-frame cells m r i d a (suc n) e h =
    rw
      (
        other,
        contents-frame cells m (r + 1) i d a n (e ∙ ap (λ x. x % m) (omega arith))
            (omega (arith, h)),
      )
      refl
  where
    ne : (r % m) ≢ i
    ne z = apart m r (suc n + d) (omega arith) h (ap (λ x. x % m) (omega arith) ∙ sym e ∙ sym z)

    other : (r % m) == i ≡ false
    other = ground (arith, ne)

contents-snoc :
    {A : Type 0} (cells : ℕ → A) (m r n : ℕ)
    → contents cells m r (suc n) ≡ contents cells m r n ++ (cells ((r + n) % m) ∷ [])
unfolding contents
contents-snoc cells m r zero = ap (λ x. cells (x % m) ∷ []) (omega arith)
contents-snoc cells m r (suc n) =
    ap (λ xs. cells (r % m) ∷ xs)
      (contents-snoc cells m (r + 1) n
        ∙ ap (λ x. contents cells m (r + 1) n ++ (cells (x % m) ∷ [])) (omega arith))

-- What a put into a buffer with room does.
pub record Queued {A : Type 0} (c : Cib) (k n : ℕ) (cells : ℕ → A) (a : A) : Type 0 where
  pub index : ℕ
  pub after : Cib
  pub returns : cib_put c ≡ (some index, after)
  pub unsafe : cib_put_unsafe c ≡ (index, after)
  pub in_range : index < 2 ^ k
  pub valid : IsCib after k (suc n)
  pub appended :
      contents (update cells index a) (2 ^ k) after.read_count (suc n)
      ≡ contents cells (2 ^ k) c.read_count n ++ (a ∷ [])

module _ (c : Cib) (k n : ℕ) (v : IsCib c k n) (room : n < 2 ^ k) where
  written : Cib
  written = record c { write_count = (c.write_count + 1) % 2 ^ 16 }

  put-eq : cib_put c ≡ (some (bit_and c.write_count c.mask), written)
  unfolding cib_put written
  put-eq = rw below_room refl
    where
      below_room : signed_le (cib_avail c) c.mask ≡ true
      below_room = below c k n v ∙ ground (arith, room)

  written-IsCib : IsCib written k (suc n)
  unfolding written
  written-IsCib = record {
    small = v.small;
    mask = v.mask;
    read = v.read;
    filled = omega (arith, v.filled);
    room = omega (arith, room);
  }

  -- With an array of 2^k cells, k at most 14, a buffer in order that has room is a queue:
  -- `cib_put` returns an index in range, so does `cib_put_unsafe`, and when a value is written to
  -- the cell at that index, the values in the buffer are the old ones, in order, and the new one
  -- behind them; the buffer stays in order, also where the counts wrap around.
  pub cib_put-Queued : {A : Type 0} (cells : ℕ → A) (a : A) → Queued c k n cells a
  unfolding cib_put_unsafe written
  cib_put-Queued cells a = record {
    index = i;
    after = written;
    returns = put-eq;
    unsafe = refl;
    in_range = subst (λ x. x < 2 ^ k) (sym at) (mod-lt (c.read_count + n) (pow-positive k));
    valid = written-IsCib;
    appended =
        contents-snoc (update cells i a) (2 ^ k) c.read_count n
        ∙ ap (λ x. contents (update cells i a) (2 ^ k) c.read_count n ++ (x ∷ [])) read_back
        ∙ ap (λ xs. xs ++ (a ∷ []))
            (contents-frame cells (2 ^ k) c.read_count i 0 a n
              (at ∙ ap (λ x. x % 2 ^ k) (omega arith)) (omega (arith, room)));
  }
    where
      i : ℕ
      i = bit_and c.write_count c.mask

      at : i ≡ (c.read_count + n) % 2 ^ k
      at = write_cell c k n v

      read_back : update cells i a ((c.read_count + n) % 2 ^ k) ≡ a
      read_back = rw hit refl
        where
          hit : (c.read_count + n) % 2 ^ k == i ≡ true
          hit = ground (arith, at)
