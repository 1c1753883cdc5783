-- ===== src/Clist/Rpop.antt =====
-- `clist_rpop`: the loop turns the list until its last node stands first.
use sancus_riot.Common.{
  ℕ, zero, suc, ◌<◌, ◌≡◌, refl, sym, ap, ◌∙◌, some, true, false, ◌==◌, List, [], ◌∷◌, ◌++◌, arith,
  length, has, Distinct, last-append, has-append, append_assoc, append-nil,
}
use sancus_riot.Clist.{Clist, lpop, lpoprpush, rotate_until, rpop}
use sancus_riot.Clist.Chain.{null}
use sancus_riot.Clist.Queue.{IsClist, next_links, next-ne-null, lpop-IsClist, lpoprpush-IsClist}

-- The loop ends with the node `t` first.
record Turned (fuel t : ℕ) (c : Clist) (xs : List ℕ) : Type 0 where
  after : Clist
  ends : rotate_until fuel t c ≡ some after
  list : IsClist after (t ∷ xs)

rotate_until-Turned :
    (us vs : List ℕ) (t fuel : ℕ) (c : Clist)
    → IsClist c (us ++ (t ∷ vs))
    → has t us ≡ false
    → length us < fuel
    → Turned fuel t c (vs ++ us)
unfolding rotate_until
rotate_until-Turned us vs t zero c v out l = absurd (omega (arith, l))
rotate_until-Turned [] vs t (suc fuel) c v out l =
    let first : (c.links c.next == t) ≡ true = ground (arith, next_links c t vs v) in
    record { after = c; ends = rw first refl; list = rw (append-nil vs) v }
rotate_until-Turned (u ∷ us) vs t (suc fuel) c v out l =
    let first : (c.links c.next == t) ≡ false =
      ground (arith, next_links c u (us ++ (t ∷ vs)) v, out) in
    let turned : IsClist (lpoprpush c) (us ++ (t ∷ (vs ++ (u ∷ [])))) =
      rw (← append_assoc us (t ∷ vs) (u ∷ [])) (lpoprpush-IsClist c u (us ++ (t ∷ vs)) v) in
    let r =
      rotate_until-Turned us (vs ++ (u ∷ [])) t fuel (lpoprpush c) turned (ground (arith, out))
        (omega (arith, l)) in
    record {
      after = r.after;
      ends = rw first r.ends;
      list = rw (← append_assoc vs (u ∷ []) us) r.list;
    }

Distinct-last : (xs : List ℕ) (x : ℕ) → Distinct (xs ++ (x ∷ [])) → has x xs ≡ false
Distinct-last [] x d = refl
Distinct-last (y ∷ ys) x d = ground (arith, Distinct-last ys x d.1, has-append y ys (x ∷ []), d.0)

-- The last node of a list, the first one being written out.
tail-IsClist :
    (c : Clist) (xs : List ℕ) (x : ℕ)
    → IsClist c (xs ++ (x ∷ []))
    → (c.next ≡ x) × (has x xs ≡ false) × ((c.next == null) ≡ false)
tail-IsClist c [] x v = (sym v.at_last, refl, ground (arith, next-ne-null c x [] v))
tail-IsClist c (y ∷ ys) x v = (
  sym v.at_last ∙ last-append y x ys,
  Distinct-last (y ∷ ys) x v.distinct,
  ground (arith, next-ne-null c y (ys ++ (x ∷ [])) v),
)

-- What the removal of the last node `x` leaves.
pub record Popped (fuel : ℕ) (c : Clist) (xs : List ℕ) (x : ℕ) : Type 0 where
  pub after : Clist
  pub returns : rpop fuel c ≡ some (x, after)
  pub list : IsClist after xs

-- With fuel for as many rounds as there are nodes, the loop of `clist_rpop` ends on a well-formed
-- list that is not empty: the last node is returned, and the others stay, in order.
pub rpop-Popped :
    (c : Clist) (xs : List ℕ) (x fuel : ℕ)
    → IsClist c (xs ++ (x ∷ []))
    → length xs < fuel
    → Popped fuel c xs x
unfolding rpop
rpop-Popped c xs x fuel v l =
    let t = tail-IsClist c xs x v in
    let r = rotate_until-Turned xs [] x fuel c v t.1 l in
    let ends : rotate_until fuel c.next c ≡ some r.after =
      ap (λ n. rotate_until fuel n c) t.0 ∙ r.ends in
    let p = lpop-IsClist r.after x xs r.list in
    record {
      after = (lpop r.after).1;
      returns = rw (rpop, t.2, ends) (ap (λ n. some (n, (lpop r.after).1)) p.0);
      list = p.1;
    }

-- An empty list stays empty.
pub rpop-empty : (c : Clist) (fuel : ℕ) → IsClist c [] → rpop fuel c ≡ some (null, c)
unfolding rpop
rpop-empty c fuel v = rw (rpop, v) refl
