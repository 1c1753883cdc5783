-- ===== src/Clist/Tests.antt =====
-- Examples for the circular lists: the list of the nodes 5, 7 and 9.
use sancus_riot.Common.{true, ◌⊎◌, ◌≡◌, refl, some, [], ◌∷◌, arith, ◌==◌, if◌then◌else◌, has}
use sancus_riot.Clist.{Clist, clist, remove}
use sancus_riot.Clist.Queue.{IsClist}
use sancus_riot.Clist.Erase.{erase}
use sancus_riot.Clist.Rpop.{Popped, rpop-Popped}
use sancus_riot.Clist.Remove.{remove_lem}

abbrev three : Clist
three = clist (λ n. if n == 5 then 7 else if n == 7 then 9 else if n == 9 then 5 else 0) 9

three-IsClist : IsClist three (5 ∷ 7 ∷ 9 ∷ [])
three-IsClist = record {
  proper = refl;
  distinct = (refl, (refl, (refl, tt)));
  at_last = refl;
  chain = (refl, (refl, refl));
}

remove_lem_example :
    (d : Clist) × (remove 3 three 7 ≡ some (7, d))
    × IsClist d (5 ∷ 9 ∷ [])
    × ((has 7 (5 ∷ 7 ∷ 9 ∷ []) ≡ true) ⊎ (d ≡ three))
unfolding erase
remove_lem_example = remove_lem three 7 (5 ∷ 7 ∷ 9 ∷ []) 3 three-IsClist (omega arith)

rpop-Popped_example : Popped 3 three (5 ∷ 7 ∷ []) 9
rpop-Popped_example = rpop-Popped three (5 ∷ 7 ∷ []) 9 3 three-IsClist (omega arith)
