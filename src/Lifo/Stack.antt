-- ===== src/Lifo/Stack.antt =====
-- The array as a stack.
use sancus_riot.Common.{
  ℕ, zero, suc, ◌+◌, ◌≡◌, refl, sym, ap, true, false, Option, none, some, List, [], ◌∷◌, arith,
  ◌==◌, has, Distinct, Bool-cases, inl, inr,
}
use mathlib.Core.Path.{subst}
use sancus_riot.Kernel.{update}
use sancus_riot.Lifo.{Cells, init_loop, lifo_init, lifo_insert, lifo_get}

-- From `top` the cells lead through `xs`.
abbrev pub Below : Cells → Option ℕ → List ℕ → Type 0
Below array top [] = top ≡ none
Below array top (x ∷ xs) = (top ≡ some x) × Below array (array (x + 1)) xs

-- The array holds the stack `xs`, the top first.
pub record IsLifo (array : Cells) (xs : List ℕ) : Type 0 where
  pub below : Below array (array 0) xs
  pub distinct : Distinct xs

-- Cells of indices that are not in the stack do not matter, nor does cell 0.
Below-frame :
    (array array' : Cells) (top : Option ℕ) (xs : List ℕ)
    → ((x : ℕ) → has x xs ≡ true → array' (x + 1) ≡ array (x + 1))
    → Below array top xs
    → Below array' top xs
Below-frame array array' top [] same b = b
Below-frame array array' top (x ∷ xs) same b = (
  b.0,
  subst (λ t. Below array' t xs) (sym (same x (ground arith)))
      (Below-frame array array' (array (x + 1)) xs (λ y i. same y (ground (arith, i))) b.1),
)

insert-below : (array : Cells) (i : ℕ) → lifo_insert array i (i + 1) ≡ array 0
unfolding lifo_insert
insert-below array i = ground arith

insert-other :
    (array : Cells) (i x : ℕ) → x == i ≡ false → lifo_insert array i (x + 1) ≡ array (x + 1)
unfolding lifo_insert
insert-other array i x e = ground (arith, e)

insert-top : (array : Cells) (i : ℕ) → lifo_insert array i 0 ≡ some i
unfolding lifo_insert
insert-top array i = refl

lifo_insert-IsLifo :
    (array : Cells) (xs : List ℕ) (i : ℕ)
    → IsLifo array xs
    → has i xs ≡ false
    → IsLifo (lifo_insert array i) (i ∷ xs)
lifo_insert-IsLifo array xs i v out = record {
  below = (
    insert-top array i,
    subst (λ t. Below (lifo_insert array i) t xs) (sym (insert-below array i))
        (Below-frame array (lifo_insert array i) (array 0) xs
          (λ x h. insert-other array i x (ground (arith, h, out, ap (λ a. has a xs)))) v.below),
  );
  distinct = (out, v.distinct);
}

get-some :
    (array : Cells) (x : ℕ)
    → array 0 ≡ some x
    → lifo_get array ≡ (some x, update array 0 (array (x + 1)))
unfolding lifo_get
get-some array x e = rw (lifo_get, e) refl

lifo_get-IsLifo :
    (array : Cells) (x : ℕ) (xs : List ℕ)
    → IsLifo array (x ∷ xs)
    → let (r, rest) = lifo_get array in (r ≡ some x) × IsLifo rest xs
lifo_get-IsLifo array x xs v = rw (get-some array x v.below.0) (
  refl,
  record {
    below =
        Below-frame array (update array 0 (array (x + 1))) (array (x + 1)) xs (λ y h. ground arith)
          v.below.1;
    distinct = v.distinct.1;
  },
)

-- Inserting an index that is not on the stack puts it on top of the others, which stay in order;
-- the next get returns it and leaves the stack as it was before the insertion.
pub lifo_get-lifo_insert :
    (array : Cells) (xs : List ℕ) (i : ℕ)
    → IsLifo array xs
    → has i xs ≡ false
    → let (r, rest) = lifo_get (lifo_insert array i) in
      IsLifo (lifo_insert array i) (i ∷ xs) × (r ≡ some i) × IsLifo rest xs
lifo_get-lifo_insert array xs i v out =
    let w = lifo_insert-IsLifo array xs i v out in
    let (e, rest) = lifo_get-IsLifo (lifo_insert array i) i xs w in (w, e, rest)

init_loop-none : (left i j : ℕ) (array : Cells) → array j ≡ none → init_loop left i array j ≡ none
unfolding init_loop
init_loop-none zero i j array h = h
init_loop-none (suc left) i j array h =
    init_loop-none left (i + 1) j (update array i none)
      (elim (Bool-cases (j == i)) [ inl e ↦ rw e refl | inr e ↦ rw e h ])

pub lifo_init-IsLifo : (array : Cells) (n : ℕ) → IsLifo (lifo_init array n) []
unfolding lifo_init init_loop
lifo_init-IsLifo array n = record {
  below =
      let whole : suc n ≡ n + 1 = omega arith in
      subst (λ m. init_loop m 0 array 0 ≡ none) whole
        (init_loop-none n 1 0 (update array 0 none) refl);
  distinct = tt;
}
