-- ===== src/Mutex/Insert.antt =====
-- A thread that has to wait is put into the list of a mutex by its priority.
use sancus_riot.Common.{
  ℕ, zero, suc, ◌<◌, ◌≡◌, refl, sym, ◌≢◌, ◌∙◌, true, false, some, List, [], ◌∷◌, arith, ◌==◌, ltb,
  if◌then◌else◌, has, length, Distinct, Bool-cases, inl, inr,
}
use mathlib.Core.Path.{subst}
use sancus_riot.Clist.Chain.{Links, null, set_next}
use sancus_riot.Clist.Erase.{has-ne}
use sancus_riot.Kernel.{Kernel, on_runqueue}
use sancus_riot.Mutex.{wait_place, wait_fuel, thread_add_to_list}
use sancus_riot.Mutex.Unlock.{Waits, Waits-frame, ne-null_of_Waits}

-- `thread` before the first of `ws` whose priority number is greater than `prio`.
unfoldable pub insert : Kernel → ℕ → ℕ → List ℕ → List ℕ
insert k prio thread [] = thread ∷ []
insert k prio thread (w ∷ ws) =
    if ltb prio (k.threads w).priority then thread ∷ w ∷ ws else w ∷ insert k prio thread ws

-- The pointers after `thread` is put between `prev` and `cur`.
abbrev spliced : Links → ℕ → ℕ → ℕ → Links
spliced l thread prev cur = set_next (set_next l thread cur) prev thread

spliced-ne :
    (l : Links) (thread prev cur n : ℕ) → n ≢ thread → n ≢ prev → spliced l thread prev cur n ≡ l n
spliced-ne l thread prev cur n h j = ground arith

-- Where the loop ends, and what the list is when `thread` is put there.
record Place (fuel : ℕ) (k : Kernel) (thread prio prev a : ℕ) (ws : List ℕ) : Type 0 where
  left : ℕ
  right : ℕ
  found : wait_place fuel k prio prev a ≡ some (left, right)
  among : has left (prev ∷ ws) ≡ true
  linked :
      Waits
        (spliced k.links thread left right)
        (spliced k.links thread left right prev)
        (insert k prio thread ws)

place_end :
    (fuel prio prev : ℕ) (k : Kernel) → wait_place (suc fuel) k prio prev null ≡ some (prev, null)
unfolding wait_place
place_end fuel prio prev k = ground arith

place_stop :
    (fuel prio prev a : ℕ) (k : Kernel)
    → a ≢ null
    → ltb prio (k.threads a).priority ≡ true
    → wait_place (suc fuel) k prio prev a ≡ some (prev, a)
unfolding wait_place
place_stop fuel prio prev a k n h = ground arith

place_on :
    (fuel prio prev a : ℕ) (k : Kernel)
    → a ≢ null
    → ltb prio (k.threads a).priority ≡ false
    → wait_place (suc fuel) k prio prev a ≡ wait_place fuel k prio a (k.links a)
unfolding wait_place
place_on fuel prio prev a k n h = ground arith

module _ (k : Kernel) (prio thread : ℕ) (nn : thread ≢ null) where
  on :
      (fuel prev x : ℕ) (ws : List ℕ)
      → Distinct (prev ∷ x ∷ ws)
      → has thread (prev ∷ x ∷ ws) ≡ false
      → x ≢ null
      → k.links prev ≡ x
      → ltb prio (k.threads x).priority ≡ false
      → Place fuel k thread prio x (k.links x) ws
      → Place (suc fuel) k thread prio prev x (x ∷ ws)
  unfolding insert
  on fuel prev x ws d out n e b p = record {
    left = p.left;
    right = p.right;
    found = rw (place_on fuel prio prev x k n b) p.found;
    among = ground (arith, p.among);
    linked = rw b (kept, n, p.linked);
  }
    where
      kept : spliced k.links thread p.left p.right prev ≡ x
      kept =
          spliced-ne k.links thread p.left p.right prev (λ q. ground (arith, out))
            (λ q. has-ne p.left prev (x ∷ ws) p.among d.0 (sym q))
          ∙ e

  stop :
      (fuel prev x : ℕ) (ws : List ℕ)
      → Distinct (prev ∷ x ∷ ws)
      → has thread (prev ∷ x ∷ ws) ≡ false
      → Waits k.links x (x ∷ ws)
      → ltb prio (k.threads x).priority ≡ true
      → Place (suc fuel) k thread prio prev x (x ∷ ws)
  unfolding insert
  stop fuel prev x ws d out l b = record {
    left = prev;
    right = x;
    found = place_stop fuel prio prev x k l.1 b;
    among = ground arith;
    linked = rw b (ground arith, nn, (ground arith, l.1, rest));
  }
    where
      rest : Waits (spliced k.links thread prev x) (spliced k.links thread prev x x) ws
      rest =
          rw
            (spliced-ne k.links thread prev x x (λ q. ground (arith, out)) (λ q. ground (arith, d)))
            (Waits-frame k.links (spliced k.links thread prev x) (k.links x) ws
              (λ n i.
                spliced-ne k.links thread prev x n (has-ne n thread ws i (ground (arith, out)))
                  (has-ne n prev ws i (ground (arith, d))))
              l.2)

  place :
      (fuel prev a : ℕ) (ws : List ℕ)
      → length ws < fuel
      → Distinct (prev ∷ ws)
      → has thread (prev ∷ ws) ≡ false
      → Waits k.links a ws
      → k.links prev ≡ a
      → Place fuel k thread prio prev a ws
  unfolding insert
  place zero prev a ws h d out l e = absurd (omega (arith, h))
  place (suc fuel) prev a [] h d out l e = record {
    left = prev;
    right = null;
    found = rw l (place_end fuel prio prev k);
    among = ground arith;
    linked = (ground arith, nn, ground arith);
  }
  place (suc fuel) prev a (x ∷ ws) h d out l e =
      subst (λ m. Place (suc fuel) k thread prio prev m (x ∷ ws)) (sym l.0)
        (elim (Bool-cases (ltb prio (k.threads x).priority)) [
          | inl b ↦ stop fuel prev x ws d out (refl, l.1, l.2) b
          | inr b ↦
              on fuel prev x ws d out l.1 (e ∙ l.0) b
                (place fuel x (k.links x) ws (omega (arith, h)) d.1 (ground (arith, out)) l.2 refl)
        ])

-- What `thread_add_to_list` leaves.
pub record Inserted (k : Kernel) (list thread : ℕ) (ws : List ℕ) : Type 0 where
  pub list_after : ℕ
  pub links_after : Links
  pub returns :
      thread_add_to_list list thread k ≡ some (list_after, record k { links = links_after })
  pub linked : Waits links_after list_after (insert k (k.threads thread).priority thread ws)
  pub others : (n : ℕ) → n ≢ thread → has n ws ≡ false → links_after n ≡ k.links n

add-first :
    (k : Kernel) (list thread cur : ℕ)
    → on_runqueue (k.threads thread).status ≡ false
    → wait_place wait_fuel k (k.threads thread).priority null list ≡ some (null, cur)
    → thread_add_to_list list thread k
      ≡ some (thread, record k { links = set_next k.links thread cur })
unfolding thread_add_to_list
add-first k list thread cur off e = rw (off, e) refl

add-behind :
    (k : Kernel) (list thread prev cur : ℕ)
    → on_runqueue (k.threads thread).status ≡ false
    → prev ≢ null
    → wait_place wait_fuel k (k.threads thread).priority null list ≡ some (prev, cur)
    → thread_add_to_list list thread k
      ≡ some (list, record k { links = spliced k.links thread prev cur })
unfolding thread_add_to_list
add-behind k list thread prev cur off n e = rw (off, e, ne) refl
  where
    ne : prev == null ≡ false
    ne = ground arith

-- `thread_add_to_list` ends, and puts a thread that is in no list where `insert` puts it.
pub thread_add_to_list-insert :
    (k : Kernel) (list thread : ℕ) (ws : List ℕ)
    → thread ≢ null
    → on_runqueue (k.threads thread).status ≡ false
    → Distinct ws
    → has thread ws ≡ false
    → Waits k.links list ws
    → length ws < wait_fuel
    → Inserted k list thread ws
unfolding insert
thread_add_to_list-insert k list thread [] nn off d out l h = record {
  list_after = thread;
  links_after = set_next k.links thread null;
  returns =
      add-first k list thread null off (rw l (place_end 63 (k.threads thread).priority null k));
  linked = (refl, nn, ground arith);
  others = λ n ne o. ground arith;
}
thread_add_to_list-insert k list thread (x ∷ ws) nn off d out l h =
    elim (Bool-cases (ltb (k.threads thread).priority (k.threads x).priority)) [
      | inl b ↦ record {
        list_after = thread;
        links_after = set_next k.links thread x;
        returns =
            add-first k list thread x off
              (rw l.0 (place_stop 63 (k.threads thread).priority null x k l.1 b));
        linked = rw b (refl, nn, (ground arith, l.1, behind));
        others = λ n ne o. ground arith;
      }
      | inr b ↦
          let p =
            place k (k.threads thread).priority thread nn 63 x (k.links x) ws (omega (arith, h)) d
              out l.2 refl in
          record {
            list_after = x;
            links_after = spliced k.links thread p.left p.right;
            returns = rw l.0 (
                add-behind k x thread p.left p.right off
                  (ne-null_of_Waits k.links list (x ∷ ws) p.left l p.among)
                  (place_on 63 (k.threads thread).priority null x k l.1 b ∙ p.found));
            linked = rw b (refl, l.1, p.linked);
            others = λ n ne o.
                spliced-ne k.links thread p.left p.right n ne
                  (λ e. has-ne p.left n (x ∷ ws) p.among o (sym e));
          }
    ]
  where
    kept : (n : ℕ) → has n (x ∷ ws) ≡ true → set_next k.links thread x n ≡ k.links n
    kept n i = ground (arith, has-ne n thread (x ∷ ws) i out)

    behind : Waits (set_next k.links thread x) (set_next k.links thread x x) ws
    behind = rw (kept x (ground arith)) (
        Waits-frame k.links (set_next k.links thread x) (k.links x) ws
          (λ n i. kept n (ground (arith, i))) l.2)
