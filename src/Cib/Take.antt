-- ===== src/Cib/Take.antt =====
-- Taking an index out, and the buffers that refuse.
use sancus_riot.Common.{
  ℕ, zero, suc, ◌+◌, ◌%◌, ◌^◌, ◌<◌, ◌≤◌, ◌≡◌, refl, sym, ap, ◌∙◌, true, false, none, some, ◌∷◌,
  bit_and, arith, ◌==◌,
}
use mathlib.Core.Path.{subst}
use native.Mathlib.Nat.{mod-lt}
use sancus_riot.Common.Masks.{pow-positive}
use sancus_riot.Cib.{
  Cib, signed_le, cib_init, cib_avail, cib_full, cib_get, cib_get_unsafe, cib_peek, cib_put,
}
use sancus_riot.Cib.Queue.{IsCib, contents, mod-pow, limit_of, avail-eq, below, read_cell}

-- Counts that are the same up to their width lead to the same cells.
contents-wrap :
    {A : Type 0} (cells : ℕ → A) (k r r' n : ℕ)
    → k ≤ 14
    → r % 2 ^ 16 ≡ r' % 2 ^ 16
    → contents cells (2 ^ k) r n ≡ contents cells (2 ^ k) r' n
unfolding contents
contents-wrap cells k r r' zero h e = refl
contents-wrap cells k r r' (suc n) h e =
    rw (contents-wrap cells k (r + 1) (r' + 1) n h (omega (arith, e))) (
      ap (λ x. cells x ∷ contents cells (2 ^ k) (r' + 1) n)
        (sym (mod-pow r k h) ∙ ap (λ x. x % 2 ^ k) e ∙ mod-pow r' k h))

-- What a get from a buffer that is not empty does.
pub record Got {A : Type 0} (c : Cib) (k n : ℕ) (cells : ℕ → A) : Type 0 where
  pub index : ℕ
  pub after : Cib
  pub returns : cib_get c ≡ (some index, after)
  pub unsafe : cib_get_unsafe c ≡ (index, after)
  pub peeked : cib_peek c ≡ some index
  pub in_range : index < 2 ^ k
  pub valid : IsCib after k n
  pub head :
      contents cells (2 ^ k) c.read_count (suc n)
      ≡ cells index ∷ contents cells (2 ^ k) after.read_count n

module _ (c : Cib) (k n : ℕ) (v : IsCib c k (suc n)) where
  taken : Cib
  taken = record c { read_count = (c.read_count + 1) % 2 ^ 16 }

  some_left : cib_avail c == 0 ≡ false
  some_left = ground (arith, avail-eq c k (suc n) v)

  get-eq : cib_get c ≡ (some (bit_and c.read_count c.mask), taken)
  unfolding cib_get taken
  get-eq = rw some_left refl

  peek-eq : cib_peek c ≡ some (bit_and c.read_count c.mask)
  unfolding cib_peek
  peek-eq = rw some_left refl

  taken-IsCib : IsCib taken k n
  unfolding taken
  taken-IsCib = record {
    small = v.small;
    mask = v.mask;
    read = omega arith;
    filled = omega (arith, v.filled);
    room = omega (arith, v.room);
  }

  -- From a buffer in order with 2^k cells, k at most 14, that is not empty, `cib_get` returns an
  -- index below 2^k, as `cib_get_unsafe` and `cib_peek` do; the cell there has the oldest value,
  -- the buffer holds the others in order and stays in order, also where the counts wrap around.
  pub cib_get-Got : {A : Type 0} (cells : ℕ → A) → Got c k n cells
  unfolding cib_get_unsafe taken contents
  cib_get-Got cells = record {
    index = bit_and c.read_count c.mask;
    after = taken;
    returns = get-eq;
    unsafe = refl;
    peeked = peek-eq;
    in_range =
        subst (λ x. x < 2 ^ k) (sym (read_cell c k (suc n) v))
          (mod-lt c.read_count (pow-positive k));
    valid = taken-IsCib;
    head =
        ap (λ x. cells x ∷ contents cells (2 ^ k) (c.read_count + 1) n)
          (sym (read_cell c k (suc n) v))
        ∙ ap (λ xs. cells (bit_and c.read_count c.mask) ∷ xs)
            (contents-wrap cells k (c.read_count + 1) ((c.read_count + 1) % 2 ^ 16) n v.small
              (omega arith));
  }

pub cib_init-IsCib : (k : ℕ) → k ≤ 14 → IsCib (cib_init (2 ^ k)) k 0
cib_init-IsCib k h = record {
  small = h;
  mask = omega (arith, limit_of k h, pow-positive k);
  read = omega arith;
  filled = refl;
  room = omega arith;
}

-- A buffer in order with all its 2^k cells in use, k at most 14, reports that it is full and
-- refuses a put, one with none in use refuses to be read and to be peeked into, and a buffer of
-- size 0 refuses both, all without any change.
pub cib-refuses :
    (c d : Cib) (k l : ℕ)
    → IsCib c k (2 ^ k)
    → IsCib d l 0
    → (cib_put c ≡ (none, c))
      × (cib_full c ≡ true)
      × (cib_get d ≡ (none, d))
      × (cib_peek d ≡ none)
      × (cib_put (cib_init 0) ≡ (none, cib_init 0))
      × (cib_get (cib_init 0) ≡ (none, cib_init 0))
unfolding cib_put cib_full cib_get cib_peek cib_avail
cib-refuses c d k l v w =
    let full : signed_le (cib_avail c) c.mask ≡ false = below c k (2 ^ k) v ∙ ground arith in
    let empty : cib_avail d == 0 ≡ true = ground (arith, avail-eq d l 0 w) in
    (rw full refl, rw full refl, rw empty refl, rw empty refl, refl, refl)
