-- ===== src/Clist/Frame.antt =====
-- What the list functions leave alone: every pointer but those of the new node and of the last
-- node of the list.
use sancus_riot.Common.{ℕ, ◌≡◌, refl, ◌≢◌, ◌∙◌, true, false, List, [], ◌∷◌, arith, has, has-last}
use sancus_riot.Clist.{Clist, link_in, rpush, lpop, lpoprpush}
use sancus_riot.Clist.Chain.{null, Chain-frame}
use sancus_riot.Clist.Queue.{IsClist}

pub rpush-frame : (c : Clist) (n m : ℕ) → m ≢ n → m ≢ c.next → (rpush c n).links m ≡ c.links m
unfolding rpush link_in
rpush-frame c n m h h' = ground arith

pub next-rpush : (c : Clist) (n : ℕ) → (rpush c n).next ≡ n
unfolding rpush
next-rpush c n = ground arith

pub lpop-frame : (c : Clist) (m : ℕ) → m ≢ c.next → (lpop c).1.links m ≡ c.links m
unfolding lpop
lpop-frame c m h = ground arith

pub lpoprpush-frame : (c : Clist) → (lpoprpush c).links ≡ c.links
unfolding lpoprpush
lpoprpush-frame c = ground arith

-- A list survives any change that spares its own nodes and its head.
pub IsClist-frame :
    (c d : Clist) (xs : List ℕ)
    → d.next ≡ c.next
    → ((n : ℕ) → has n xs ≡ true → d.links n ≡ c.links n)
    → IsClist c xs
    → IsClist d xs
IsClist-frame c d [] e same v = ground arith
IsClist-frame c d (x ∷ xs) e same v = record {
  proper = v.proper;
  distinct = v.distinct;
  at_last = rw e v.at_last;
  chain = Chain-frame c.links d.links x xs x same v.chain;
}

pub not-has-null : (c : Clist) (xs : List ℕ) → IsClist c xs → has null xs ≡ false
not-has-null c [] v = refl
not-has-null c (x ∷ xs) v = v.proper

-- The head points to none of the nodes outside the list.
pub ne-next :
    (c : Clist) (xs : List ℕ) (m : ℕ) → IsClist c xs → has m xs ≡ false → m ≢ null → m ≢ c.next
ne-next c [] m v out h e = h (e ∙ v)
ne-next c (x ∷ xs) m v out h e = ground (arith, has-last x xs, v.at_last)
