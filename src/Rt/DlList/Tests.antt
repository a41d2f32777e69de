-- ===== src/Rt/DlList/Tests.antt =====
-- Lists to which elements are added at both ends, and from which they are removed.
use verona.Prelude.{ℕ, Option, none, some, ◌≡◌, refl, List, [], ◌∷◌, true, arith}
use verona.Rt.DlList.Defs.{
  DlList, is_empty, insert, insert_back, remove, pop, pop_tail, unlink_next, unlink_prev, clear,
  delete_item,
}
use verona.Rt.DlList.Removing.{Holds, IsNew}
use verona.Rt.DlList.Refine.{
  Op, inserts, inserts_back, removes, pops, pops_tail, invoke, calls, calls_list, calls-calls_list,
  call_list, without, unsnoc, AllFit,
}

abbrev none_linked : DlList
none_linked = record { head = 0; tail = 0; prev = λ n. 7; next = λ n. 9 }

abbrev ops : List Op
ops = inserts 8 ∷ inserts 16 ∷ inserts_back 24 ∷ removes 8 ∷ pops_tail ∷ pops ∷ pops ∷ []

ops_run : calls ops none_linked ≡ 0 ∷ 0 ∷ 0 ∷ 0 ∷ 24 ∷ 16 ∷ 0 ∷ []
unfolding calls invoke insert insert_back remove pop pop_tail unlink_next unlink_prev
ops_run = refl

ops_list : calls_list ops [] ≡ 0 ∷ 0 ∷ 0 ∷ 0 ∷ 24 ∷ 16 ∷ 0 ∷ []
unfolding calls_list call_list without unsnoc
ops_list = refl

ops-AllFit : AllFit ops []
unfolding call_list without unsnoc
ops-AllFit =
    let two_new : IsNew 24 (16 ∷ 8 ∷ []) = omega arith in
    (omega arith, (omega arith, (two_new, ((16 ∷ [], 24 ∷ [], refl), (tt, (tt, (tt, tt)))))))

empty-Holds : Holds none_linked []
empty-Holds = ((refl, refl), tt, tt)

calls-calls_list_example : calls ops none_linked ≡ calls_list ops []
calls-calls_list_example = calls-calls_list ops none_linked [] ops-AllFit empty-Holds

emptied : is_empty none_linked ≡ true
unfolding is_empty
emptied = refl

abbrev deleted : Option (List ℕ × DlList) → List ℕ
deleted none = []
deleted (some (l, d)) = l

-- Two elements are deleted, and then hold 5.
cleared : deleted (clear true (λ n. 5) 3 (insert 8 (insert 16 none_linked))) ≡ 8 ∷ 16 ∷ []
unfolding clear insert remove unlink_next unlink_prev delete_item
cleared = refl
